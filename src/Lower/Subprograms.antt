-- ===== src/Lower/Subprograms.antt =====
-- src/ail.cpp: PROC declarations and subprogram calls. A word is named by its place among the words
-- of its line, which stands for its address.
use experimental_gcode_parse.Prelude.{
  ℕ, zero, suc, ℤ, pos, String, Bytes, codes, Bool, false, not, ◌&&◌, ◌||◌, List, [], ◌∷◌, Option,
  none, some, if◌then◌else◌, ◌==◌, string_eq, nat_eq, to_upper, is_empty, front_is, length, last?,
  leb,
}
use experimental_gcode_parse.Ast.{Location, Word, Comment, LineItem, word, comment, Line}
use experimental_gcode_parse.Lowering.{SourceInfo, LowerOptions}
use experimental_gcode_parse.Ail.{SubprogramCall, has_value}
use experimental_gcode_parse.Lower.Numbers.{parse_unsigned_int64_strict}

-- parseSubprogramRepeatCount
unfoldable pub parse_subprogram_repeat_count : Word → Option ℤ
parse_subprogram_repeat_count w = if not (w.head == "P") then none else elim w.value [
  | none ↦ none
  | some text ↦ elim (parse_unsigned_int64_strict text) [ none ↦ none | some n ↦ some (pos n) ]
]

unfoldable pub is_address_letter : String → Bool
is_address_letter head =
    front_is b'G' head
    || front_is b'M' head
    || front_is b'T' head
    || front_is b'P' head
    || front_is b'N' head
    || front_is b'X' head
    || front_is b'Y' head
    || front_is b'Z' head
    || front_is b'A' head
    || front_is b'B' head
    || front_is b'C' head
    || front_is b'I' head
    || front_is b'J' head
    || front_is b'K' head
    || front_is b'F' head
    || front_is b'S' head
    || front_is b'R' head

-- isSubprogramTargetWord
unfoldable pub is_subprogram_target_word : Word → Bool
unfolding is_address_letter
is_subprogram_target_word w =
    if w.quoted
    then not (is_empty w.text)
    else if w.has_equal || is_empty w.text || is_empty w.head
    then false
    else if has_value w.value && is_address_letter w.head
    then false
    else not (w.head == "RET" || w.head == "RTLION" || w.head == "RTLIOF")

-- subprogramTargetFromWord
unfoldable pub subprogram_target_from_word : Word → String
subprogram_target_from_word w = to_upper w.text

pub record InlineParenSuffixInfo : Type 0 where
  pub location : Location
  pub empty : Bool

abbrev pub last_is : ℕ → Bytes → Bool
last_is c bytes = elim (last? bytes) [ none ↦ false | some b ↦ b == c ]

-- The tests on the comment behind the word.
unfoldable pub is_inline_suffix : Word → Comment → Bool
is_inline_suffix anchor c =
    c.location.line == anchor.location.line
    && leb 2 (length (codes c.text))
    && front_is b'(' c.text
    && last_is b')' (codes c.text)

-- The loop behind the word `anchor`.
unfoldable pub suffix_behind : Word → List LineItem → Option InlineParenSuffixInfo
unfolding is_inline_suffix
suffix_behind anchor [] = none
suffix_behind anchor (word w ∷ items) = none
suffix_behind anchor (comment c ∷ items) =
    if is_inline_suffix anchor c
    then some (record { location = c.location; empty = c.text == "()" })
    else none

-- findInlineParenSuffixComment, for the word at place `n` among the words of the line.
unfoldable pub find_inline_paren_suffix_comment : List LineItem → ℕ → Option InlineParenSuffixInfo
unfolding suffix_behind
find_inline_paren_suffix_comment [] n = none
find_inline_paren_suffix_comment (comment c ∷ items) n = find_inline_paren_suffix_comment items n
find_inline_paren_suffix_comment (word w ∷ items) zero = suffix_behind w items
find_inline_paren_suffix_comment (word w ∷ items) (suc n) = find_inline_paren_suffix_comment items n

-- The words of a line.
unfoldable pub words_of : List LineItem → List Word
words_of [] = []
words_of (word w ∷ items) = w ∷ words_of items
words_of (comment c ∷ items) = words_of items

pub record SubprogramDeclarationMatch : Type 0 where
  pub name : String
  pub inline_signature : Option InlineParenSuffixInfo

abbrev pub is_bare : Word → Bool
is_bare w = not (has_value w.value) && not w.has_equal

unfoldable pub declaration_of_words : List LineItem → List Word → Option SubprogramDeclarationMatch
unfolding is_subprogram_target_word subprogram_target_from_word find_inline_paren_suffix_comment
declaration_of_words items (w0 ∷ w1 ∷ []) =
    if not (w0.head == "PROC") || not (is_bare w0)
    then none
    else if not (is_subprogram_target_word w1)
    then none
    else some (record {
      name = subprogram_target_from_word w1;
      inline_signature = find_inline_paren_suffix_comment items 1;
    })
declaration_of_words items [] = none
declaration_of_words items (w0 ∷ []) = none
declaration_of_words items (w0 ∷ w1 ∷ w2 ∷ ws) = none

-- subprogramDeclarationFromLine
unfoldable pub subprogram_declaration_from_line : Line → Option SubprogramDeclarationMatch
unfolding declaration_of_words words_of
subprogram_declaration_from_line line = declaration_of_words line.items (words_of line.items)

-- malformedProcDeclarationFromLine
unfoldable pub malformed_behind_proc : Word → List Word → Option Location
unfolding is_subprogram_target_word
malformed_behind_proc w0 [] = some w0.location
malformed_behind_proc w0 (w1 ∷ []) =
    if not (is_subprogram_target_word w1) then some w1.location else none
malformed_behind_proc w0 (w1 ∷ w2 ∷ ws) =
    if not (is_subprogram_target_word w1) then some w1.location else some w2.location

unfoldable pub malformed_of_words : List Word → Option Location
unfolding malformed_behind_proc
malformed_of_words [] = none
malformed_of_words (w0 ∷ ws) =
    if not (w0.head == "PROC")
    then none
    else if not (is_bare w0)
    then some w0.location
    else malformed_behind_proc w0 ws

unfoldable pub malformed_proc_declaration_from_line : Line → Option Location
unfolding malformed_of_words words_of
malformed_proc_declaration_from_line line = malformed_of_words (words_of line.items)

pub record SubprogramCallMatch : Type 0 where
  pub call : SubprogramCall
  pub inline_argument : Option InlineParenSuffixInfo

abbrev pub call_to : SourceInfo → Option ℤ → String → SubprogramCall
call_to source count target = record { source = source; target = target; repeat_count = count }

abbrev pub is_m98_word : Word → Bool
is_m98_word w =
    w.head == "M" && not w.has_equal && elim w.value [ none ↦ false | some v ↦ v == "98" ]

-- The call of the subprogram that a word names, at the word's place.
abbrev pub call_at : List LineItem → SourceInfo → Option ℤ → Word → ℕ → SubprogramCallMatch
call_at items source count w place = record {
  call = call_to source count (subprogram_target_from_word w);
  inline_argument = find_inline_paren_suffix_comment items place;
}

-- Whether the first word is a repeat count and the second one a target.
abbrev pub is_count_of : Word → Word → Bool
is_count_of count target =
    has_value (parse_subprogram_repeat_count count) && is_subprogram_target_word target

-- A call with a repeat count in the first or in the second of two words.
unfoldable pub repeated_call : List LineItem → SourceInfo → Word → Word → Option SubprogramCallMatch
unfolding is_subprogram_target_word parse_subprogram_repeat_count subprogram_target_from_word
    find_inline_paren_suffix_comment
repeated_call items source w0 w1 =
    if is_count_of w0 w1
    then some (call_at items source (parse_subprogram_repeat_count w0) w1 1)
    else if is_count_of w1 w0
    then some (call_at items source (parse_subprogram_repeat_count w1) w0 0)
    else none

-- The target of an ISO call `M98 P…`.
unfoldable pub m98_target : LowerOptions → Word → Word → Option String
m98_target options w0 w1 =
    if options.enable_iso_m98_calls && is_m98_word w0 && w1.head == "P"
    then elim w1.value [ none ↦ none | some v ↦ some (to_upper v) ]
    else none

unfoldable pub call_of_words :
    List LineItem → SourceInfo → LowerOptions → List Word → Option SubprogramCallMatch
unfolding is_subprogram_target_word subprogram_target_from_word find_inline_paren_suffix_comment
    m98_target repeated_call
call_of_words items source options [] = none
call_of_words items source options (w0 ∷ []) =
    if not (is_subprogram_target_word w0)
    then none
    else some (record {
      call = call_to source none (subprogram_target_from_word w0);
      inline_argument = find_inline_paren_suffix_comment items 0;
    })
call_of_words items source options (w0 ∷ w1 ∷ []) = elim (m98_target options w0 w1) [
  | some target ↦ some (record { call = call_to source none target; inline_argument = none })
  | none ↦ repeated_call items source w0 w1
]
call_of_words items source options (w0 ∷ w1 ∷ w2 ∷ ws) = none

-- subprogramCallFromLine
unfoldable pub subprogram_call_from_line :
    Line → SourceInfo → LowerOptions → Option SubprogramCallMatch
unfolding call_of_words words_of
subprogram_call_from_line line source options =
    call_of_words line.items source options (words_of line.items)
