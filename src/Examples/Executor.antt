-- ===== src/Examples/Executor.antt =====
-- The executor on concrete programs.
use experimental_gcode_parse.Prelude.{
  ℤ, String, pos, ◌≡◌, refl, [], ◌∷◌, lookup_all, push_at, string_eq, int_eq,
}
use experimental_gcode_parse.Executor.State.{default_options}
use experimental_gcode_parse.Executor.Goto.{pick_forward, pick_backward}
use experimental_gcode_parse.Executor.Goto.Nearest.{
  IsNearestForward, IsNearestBackward, pick_forward-IsNearestForward,
  pick_backward-IsNearestBackward,
}
use experimental_gcode_parse.Executor.Step.{make_executor, step}
use experimental_gcode_parse.Executor.Step.Labels.{
  make_executor-positions, positions, is_label_of, in_block,
}
use experimental_gcode_parse.Executor.Invariant.{IsValid}
use experimental_gcode_parse.Executor.Invariant.Reachable.{fresh, stepped, Reachable-IsValid}
use experimental_gcode_parse.Examples.Fixtures.{ops, host, looping}

Reachable-IsValid_example :
    IsValid
      (step ops
        (pos 0)
        host
        (record { executor = make_executor looping default_options; trace = [] })).0.executor
Reachable-IsValid_example =
    Reachable-IsValid looping default_options (stepped ops (pos 0) host [] fresh)

pick_forward-IsNearestForward_example :
    IsNearestForward 2 (5 ∷ 3 ∷ 1 ∷ []) (pick_forward 2 (5 ∷ 3 ∷ 1 ∷ []))
pick_forward-IsNearestForward_example = pick_forward-IsNearestForward 2 (5 ∷ 3 ∷ 1 ∷ [])

pick_backward-IsNearestBackward_example :
    IsNearestBackward 4 (0 ∷ 3 ∷ 5 ∷ []) (pick_backward 4 (0 ∷ 3 ∷ 5 ∷ []))
pick_backward-IsNearestBackward_example = pick_backward-IsNearestBackward 4 (0 ∷ 3 ∷ 5 ∷ [])

make_executor-positions_example :
    ((name : String)
      → lookup_all name (make_executor looping default_options).label_positions
        ≡ positions (is_label_of name) 0 looping)
    × ((n : ℤ)
        → lookup_all n (make_executor looping default_options).line_number_positions
          ≡ positions (in_block n) 0 looping)
make_executor-positions_example = make_executor-positions looping default_options

labels_of_looping :
    lookup_all "END" (make_executor looping default_options).label_positions ≡ 3 ∷ 4 ∷ []
unfolding make_executor lookup_all push_at
labels_of_looping = refl
