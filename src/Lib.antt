-- ===== src/Lib.antt =====
-- The lowering and the execution core of the G-code library: the semantic rules on a parsed program, its
-- lowering to messages, AIL instructions and motion packets, the AIL executor, the streaming engine that
-- feeds it with program text, and the session that lets an operator replace the part of a program that
-- was not executed yet.
--
-- The parts and how they interact. Program text arrives in chunks at an ExecutionSession
-- (src/execution_session.cpp). The session cuts it into lines, keeps the lines that are executed for
-- good (locked prefix) apart from those that may still be edited (editable suffix), and gives the
-- latter to a StreamingExecutionEngine (src/streaming_execution_engine.cpp). The engine lowers its
-- pending lines to AIL instructions (include/gcode/ail.h), makes an AilExecutor (src/ail.cpp) and
-- steps it until it blocks on the runtime, faults or completes. The executor evaluates expressions,
-- resolves jumps and subprogram calls, and sends motion to the sink and the runtime through the
-- command builder and the dispatcher.
--
-- The lowering that the engine calls starts from the tree of the parser. The semantic rules
-- (src/semantic_rules.cpp) add diagnostics to it; lowerToMessages (src/messages.cpp) turns each line
-- with a motion into a message and stops at the first line with an error; lowerToAil (src/ail.cpp) puts
-- these motions, in the order of the lines, between the instructions of all other lines, and turns IF
-- blocks into branches and labels. lowerAilToPackets (src/packet.cpp) keeps the motions only. Beside
-- this chain stand the modal registry and the machine profile (src/modal_registry.cpp,
-- src/machine_profile.cpp), which nothing in the chain calls yet.
--
-- Which file models which part:
--   Ast, Lowering, Ail    include/gcode/ast.h, lowering_types.h, policy_types.h and ail.h: the types
--                         with the fields and constructors of the source
--   Runtime, Host         include/gcode/execution_commands.h, runtime_status.h, condition_runtime.h,
--                         execution_interfaces.h and execution_runtime.h
--   Executor.State        the members of AilExecutor, addFault and addWarning
--   Executor.Modal, Command, Dispatch
--                         src/execution_modal_state.cpp, src/execution_command_builder.cpp and
--                         src/execution_instruction_dispatcher.cpp
--   Executor.Expression   evaluateExpressionNode, resolveLinearMoveInstruction, compareConditionValues
--   Executor.Goto, Tools, Subprogram, Branch
--                         resolveGotoTarget; T and M6; calls and returns; branches, assignments and
--                         M functions
--   Executor.Step         the constructor, advanceOneInstruction and step; in Step.Wake, notifyEvent and
--                         wakeBlockedExecutorIfReady
--   Engine.Lines, State, Advance, Pending, Control
--                         src/streaming_execution_engine.cpp, by its member functions
--   Session.State, Control
--                         src/execution_session.cpp, by its member functions
--   Messages, Messages.Words, Family, Batch, Callbacks, Stream
--                         src/messages.h, src/messages.cpp and the lowering_family files: the messages;
--                         motion and plane of a line; the families G0 to G4; lowerToMessages; callbacks
--                         and limits; lowerToMessagesStream
--   Lower.Numbers, Words, Axes, Subprograms, Blocks, Items, Lines, Program
--                         the lowering in src/ail.cpp: numbers; single words; axis values;
--                         declarations and calls; IF blocks and jumps; the words of a line;
--                         the other lines; lowerToAil
--   Packets               src/packet.h and src/packet.cpp
--   Semantic.Words, Motion, Shapes, Codes, Program
--                         src/semantic_rules.cpp: helpers, the ten rules, addSemanticDiagnostics
--   Machine.Profile, Registry
--                         src/machine_profile.cpp and src/modal_registry.cpp
-- The other files hold the theorems, by what they are about, and Examples the concrete programs on
-- which they are applied.
--
-- How state corresponds. A class is a record of its members, a member function a function from the
-- record to the record, with its result beside it where it has one. The sink is a trace of the events
-- reported, the latest first. Runtime and condition resolver are not part of the program: they are
-- functions that may answer by the whole trace, so they stand for any machine; the answer of
-- isCancelled is a Boolean per call. A vector that is used as a stack has its back at the head. The
-- maps of the executor are association lists, the set of pending events is a list without
-- repetitions. Program text is a list of byte codes.
--
-- Numbers. Line numbers in sources and indices are natural numbers; times, repeat counts and block
-- numbers are integers. The wrap of int and int64_t is not written out: a program has fewer lines
-- than that; where the source guards a number against overflow the guard is written out. A double is its
-- bit pattern; its arithmetic is the parameter FloatOps, and the functions of the C++ library between
-- doubles and text are the parameter FloatText, about both of which nothing is assumed.
--
-- Fuel. The loop of advanceActiveExecutor runs on fuel, and `none` stands for fuel that ran out: a
-- program that jumps back for ever keeps the loop of the source running as well. For programs without
-- jumps and calls a fuel that is enough is proved in Engine.Termination. The lowering and the rules run
-- over the lines of a program and need no fuel.
--
-- Exceptions. A std::get on another alternative throws: get_branch, and with it lowerToAil, returns an
-- Option. The catch blocks around stoi and stod are the cases of an Option as well.
--
-- Not modelled: the parser, which is generated code behind a tree builder: the definitions that start
-- from program text take it as an argument, and the engine takes the whole function parseAndLowerAil;
-- the file variant of the stream; the difference of messages and the parse session of an editor, which
-- stand beside the execution core; printers, event log, contract tools and the command line programs,
-- which are input and output.
pub mod Prelude
pub mod Floats
pub mod Ast
pub mod Lowering
pub mod Ail
pub mod Messages
pub mod Lower
pub mod Packets
pub mod Semantic
pub mod Machine
pub mod Runtime
pub mod Host
pub mod Executor
pub mod Engine
pub mod Session
pub mod Examples
