-- ===== src/Examples/Lines.antt =====
-- Lines and programs as the parser returns them: a program with an IF, and one with a wrong arc.
use experimental_gcode_parse.Prelude.{ℕ, pos, String, false, List, [], ◌∷◌, none, some}
use experimental_gcode_parse.Floats.{FloatText}
use experimental_gcode_parse.Ast
use experimental_gcode_parse.Ast.{
  Location, Condition, null, Word, LineItem, word, comment, Line, ConditionStatement,
  KeywordStatement, ParseResult, Diagnostic,
}
use experimental_gcode_parse.Lowering.{LowerOptions}
use experimental_gcode_parse.Lower.Numbers.{parse_unsigned_int64_strict}
use experimental_gcode_parse.Examples.Fixtures.{ops}

-- A double is written as its digits.
abbrev pub num : FloatText
num = record {
  ops = ops;
  stod = parse_unsigned_int64_strict;
  floor = λ v. v;
  to_int64 = λ v. pos v;
  double_to_string = λ v. "";
}

abbrev pub options : LowerOptions
options = record {
  filename = none;
  active_skip_levels = [];
  tool_change_mode = none;
  enable_iso_m98_calls = false;
}

abbrev pub at : ℕ → Location
at line = record { line = line; column = 1 }

abbrev pub plain_word : ℕ → String → String → LineItem
plain_word line head value = word (record {
  text = head;
  head = head;
  value = some value;
  has_equal = false;
  quoted = false;
  location = at line;
})

abbrev pub line_with : ℕ → List LineItem → Line
line_with n items = record {
  block_delete = false;
  block_delete_location = none;
  block_delete_level = none;
  block_delete_level_raw = none;
  block_delete_level_location = none;
  line_number = none;
  items = items;
  assignment = none;
  label_definition = none;
  goto_statement = none;
  if_goto_statement = none;
  if_block_start_statement = none;
  else_statement = none;
  endif_statement = none;
  while_statement = none;
  endwhile_statement = none;
  for_statement = none;
  endfor_statement = none;
  repeat_statement = none;
  until_statement = none;
  loop_statement = none;
  endloop_statement = none;
  line_index = n;
}

abbrev pub condition : Condition
condition = record {
  lhs = null;
  op = "==";
  rhs = null;
  raw_text = "";
  has_logical_and = false;
  and_terms_raw = [];
  location = at 1;
}

abbrev pub keyword : ℕ → KeywordStatement
keyword n = record { keyword_location = at n }

-- IF, a move, ELSE, an M function, ENDIF.
abbrev pub branching : Ast.Program
branching = record {
  program_name = none;
  lines =
      record (line_with 1 []) {
        if_block_start_statement = some (record { condition = condition; keyword_location = at 1 });
      }
      ∷ line_with 2 (plain_word 2 "G" "1" ∷ plain_word 2 "X" "5" ∷ [])
      ∷ record (line_with 3 []) { else_statement = some (keyword 3) }
      ∷ line_with 4 (plain_word 4 "M" "3" ∷ [])
      ∷ record (line_with 5 []) { endif_statement = some (keyword 5) }
      ∷ [];
}

-- A move, and an arc with a centre word of another plane.
abbrev pub wrong_arc : Ast.Program
wrong_arc = record {
  program_name = none;
  lines =
      line_with 1 (plain_word 1 "G" "0" ∷ [])
      ∷ line_with 2 (plain_word 2 "G" "2" ∷ plain_word 2 "K" "7" ∷ [])
      ∷ line_with 3 (plain_word 3 "G" "1" ∷ [])
      ∷ [];
}
