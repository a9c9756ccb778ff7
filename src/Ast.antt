-- ===== src/Ast.antt =====
-- include/gcode/ast.h: the syntax tree that the parser builds. A null pointer to an expression is the
-- constructor `null`.
use experimental_gcode_parse.Prelude.{ℕ, ℤ, String, Bool, List, Option}
use experimental_gcode_parse.Floats.{Double}

pub record Location : Type 0 where
  pub line : ℕ
  pub column : ℕ

pub data Severity : Type 0 where
  error warning : Severity

pub record Diagnostic : Type 0 where
  pub severity : Severity
  pub message : String
  pub location : Location

pub data ExprNode : Type 0 where
  null : ExprNode
  literal : Double → Location → ExprNode
  variable : String → Bool → Location → ExprNode
  unary : String → ExprNode → Location → ExprNode
  binary : String → ExprNode → ExprNode → Location → ExprNode

-- Whether a pointer to an expression is set.
unfoldable pub is_set : ExprNode → Bool
is_set null = Bool.false
is_set (literal v l) = Bool.true
is_set (variable n s l) = Bool.true
is_set (unary o e l) = Bool.true
is_set (binary o e f l) = Bool.true

pub record Condition : Type 0 where
  pub lhs : ExprNode
  pub op : String
  pub rhs : ExprNode
  pub raw_text : String
  pub has_logical_and : Bool
  pub and_terms_raw : List String
  pub location : Location

pub record Word : Type 0 where
  pub text : String
  pub head : String
  pub value : Option String
  pub has_equal : Bool
  pub quoted : Bool
  pub location : Location

pub record Comment : Type 0 where
  pub text : String
  pub location : Location

pub record ProgramName : Type 0 where
  pub raw_text : String
  pub name : String
  pub external_percent : Bool
  pub location : Location

pub data LineItem : Type 0 where
  word : Word → LineItem
  comment : Comment → LineItem

pub record Assignment : Type 0 where
  pub lhs : String
  pub rhs : ExprNode
  pub location : Location

pub record LabelDefinition : Type 0 where
  pub name : String
  pub location : Location

pub record GotoStatement : Type 0 where
  pub opcode : String
  pub target : String
  pub target_kind : String
  pub keyword_location : Location
  pub target_location : Location

pub record IfGotoStatement : Type 0 where
  pub condition : Condition
  pub then_branch : GotoStatement
  pub else_branch : Option GotoStatement
  pub keyword_location : Location

-- IfBlockStartStatement, WhileStatement and UntilStatement, which have the same fields.
pub record ConditionStatement : Type 0 where
  pub condition : Condition
  pub keyword_location : Location

pub record ForStatement : Type 0 where
  pub variable : String
  pub start : ExprNode
  pub end : ExprNode
  pub keyword_location : Location

-- The statements that are a keyword only: ELSE, ENDIF, ENDWHILE, ENDFOR, REPEAT, LOOP, ENDLOOP.
pub record KeywordStatement : Type 0 where
  pub keyword_location : Location

pub record LineNumber : Type 0 where
  pub value : ℤ
  pub location : Location

pub record Line : Type 0 where
  pub block_delete : Bool
  pub block_delete_location : Option Location
  pub block_delete_level : Option ℤ
  pub block_delete_level_raw : Option String
  pub block_delete_level_location : Option Location
  pub line_number : Option LineNumber
  pub items : List LineItem
  pub assignment : Option Assignment
  pub label_definition : Option LabelDefinition
  pub goto_statement : Option GotoStatement
  pub if_goto_statement : Option IfGotoStatement
  pub if_block_start_statement : Option ConditionStatement
  pub else_statement : Option KeywordStatement
  pub endif_statement : Option KeywordStatement
  pub while_statement : Option ConditionStatement
  pub endwhile_statement : Option KeywordStatement
  pub for_statement : Option ForStatement
  pub endfor_statement : Option KeywordStatement
  pub repeat_statement : Option KeywordStatement
  pub until_statement : Option ConditionStatement
  pub loop_statement : Option KeywordStatement
  pub endloop_statement : Option KeywordStatement
  pub line_index : ℕ

pub record Program : Type 0 where
  pub program_name : Option ProgramName
  pub lines : List Line

pub record ParseResult : Type 0 where
  pub program : Program
  pub diagnostics : List Diagnostic
