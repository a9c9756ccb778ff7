-- ===== src/Examples/Programs.antt =====
-- Repeated subprograms, and one program after another, on concrete programs.
use experimental_gcode_parse.Prelude.{suc, pos, ◌≡◌, refl, [], ◌∷◌, some, length, ◌≤◌}
use experimental_gcode_parse.Ail.{SubprogramCall}
use experimental_gcode_parse.Executor.State.{AilExecutor, default_options, next_pc}
use experimental_gcode_parse.Executor.Step.{make_executor}
use experimental_gcode_parse.Executor.Subprogram.{enter_subprogram}
use experimental_gcode_parse.Executor.Subprogram.Rounds.{
  KeepsFrames, run_rounds, IsBack, enter_subprogram-rounds,
}
use experimental_gcode_parse.Engine.State.{Streaming, make_engine, export_initial_state}
use experimental_gcode_parse.Engine.Advance.{on_completed}
use experimental_gcode_parse.Engine.Pending.{executor_initial_state}
use experimental_gcode_parse.Engine.Carrying.{left_by, on_completed-left_by}
use experimental_gcode_parse.Examples.Fixtures.{looping, at_line, options}

abbrev twice : SubprogramCall
twice = record { source = at_line 1; target = "END"; repeat_count = some (pos 2) }

abbrev caller : AilExecutor
caller = make_executor looping default_options

next_pc-KeepsFrames : KeepsFrames next_pc
unfolding next_pc
next_pc-KeepsFrames e = refl

enter_subprogram-rounds_example :
    ((enter_subprogram twice 3 caller).state.pc ≡ 3)
    × (length (next_pc ∷ next_pc ∷ []) ≤ 1
        → (run_rounds
            (at_line 5)
            "M17"
            (next_pc ∷ next_pc ∷ [])
            (enter_subprogram twice 3 caller)).state.pc
          ≡ 3)
    × (length (next_pc ∷ next_pc ∷ []) ≡ 2
        → IsBack (suc caller.state.pc) caller.call_stack_frames (
            run_rounds
              (at_line 5)
              "M17"
              (next_pc ∷ next_pc ∷ [])
              (enter_subprogram twice 3 caller)))
enter_subprogram-rounds_example =
    enter_subprogram-rounds twice 3 1 (at_line 5) "M17" next_pc (next_pc ∷ []) caller refl
      (next_pc-KeepsFrames, (next_pc-KeepsFrames, tt))

abbrev idle : Streaming
idle = record { engine = make_engine options; trace = [] }

-- An executor that has assigned a variable.
abbrev assigned : AilExecutor
assigned = record caller { state = record caller.state { user_variables = ("R1", 5) ∷ [] } }

on_completed-left_by_example :
    (export_initial_state (on_completed assigned idle).1.engine ≡ left_by assigned.state)
    × (executor_initial_state (on_completed assigned idle).1.engine
        ≡ record (left_by assigned.state) { user_variables = [] })
on_completed-left_by_example = on_completed-left_by assigned idle
