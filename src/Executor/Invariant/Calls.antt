-- ===== src/Executor/Invariant/Calls.antt =====
-- Subprogram calls and returns of src/ail.cpp keep the executor's invariant.
use experimental_gcode_parse.Prelude.{
  ℕ, zero, suc, ℤ, pos, negsuc, leb_ℤ, String, ◌+++◌, ◌≡◌, refl, ◌<◌, false, List, [], ◌∷◌, length,
  All, arith, Bool-cases, inl, inr, lookup_all, string_eq, is_empty, ltb,
}
use experimental_gcode_parse.Ail.{SubprogramCall, SubprogramResolution}
use experimental_gcode_parse.Lowering.{SourceInfo}
use experimental_gcode_parse.Executor.State.{AilExecutor, SubprogramCallFrame, add_warning}
use experimental_gcode_parse.Lowering.{value_or}
use experimental_gcode_parse.Executor.Subprogram.{
  decrement, return_to, return_from_subprogram, unresolved_call, warn_call, enter_subprogram,
  call_found, call_subprogram, resolve_subprogram_target,
}
use experimental_gcode_parse.Executor.Invariant.{IsValid, IsRunning, IsFrame}
use experimental_gcode_parse.Executor.Invariant.Basic.{
  next_pc-IsValid, add_fault-IsValid, add_warning-IsRunning,
}

decrement-positive : (k : ℤ) → leb_ℤ k (pos 1) ≡ false → leb_ℤ (decrement k) (pos 0) ≡ false
unfolding decrement
decrement-positive (pos zero) h = ground arith
decrement-positive (pos (suc n)) h = ground arith
decrement-positive (negsuc n) h = ground arith

return_to-IsValid :
    (source : SourceInfo) (opcode : String) (frames : List SubprogramCallFrame) {e : AilExecutor}
    → e.call_stack_frames ≡ frames
    → IsRunning e
    → All (IsFrame (length e.instructions)) frames
    → IsValid (return_to source opcode frames e)
unfolding return_to
return_to-IsValid source opcode [] q v h = add_fault-IsValid v source _
return_to-IsValid source opcode (frame ∷ frames) {e} q v h =
    elim (Bool-cases (leb_ℤ frame.remaining_repeats (pos 1))) [
      | inl last ↦
          rw last
            (record { indexed = v.indexed; frames = h.1; depth = refl; controlled = ground arith })
      | inr more ↦ rw more (record {
        indexed = v.indexed;
        frames = ((h.0.0, h.0.1, decrement-positive frame.remaining_repeats more), h.1);
        depth = ground arith;
        controlled = ground arith;
      })
    ]

pub return_from_subprogram-IsValid :
    (source : SourceInfo) (opcode : String) {e : AilExecutor}
    → IsRunning e
    → IsValid (return_from_subprogram source opcode e)
unfolding return_from_subprogram
return_from_subprogram-IsValid source opcode {e} v =
    return_to-IsValid source opcode e.call_stack_frames refl v v.frames

unresolved_call-IsValid :
    (call : SubprogramCall) {e : AilExecutor} → IsRunning e → IsValid (unresolved_call call e)
unfolding unresolved_call
unresolved_call-IsValid call {e} v = ground (
  arith,
  next_pc-IsValid v,
  add_fault-IsValid v call.source ("unresolved subprogram target: " +++ call.target),
  next_pc-IsValid (
      add_warning-IsRunning v call.source
        ("unresolved subprogram target: " +++ (call.target +++ "; ignored by policy"))),
)

-- The warnings of a call leave a running executor with the same program.
abbrev IsWarned : AilExecutor → AilExecutor → Type 0
IsWarned e e' = IsRunning e' × (length e'.instructions ≡ length e.instructions)

warn_call-IsWarned :
    (call : SubprogramCall) (resolution : SubprogramResolution) (places : List ℕ) {e : AilExecutor}
    → IsRunning e
    → IsWarned e (warn_call call resolution places e)
unfolding warn_call add_warning
warn_call-IsWarned call resolution places {e} v = elim (Bool-cases (is_empty resolution.message)) [
  | inl p ↦ elim (Bool-cases (ltb 1 (length places))) [
    | inl q ↦ rw (p, q) (add_warning-IsRunning v call.source _, refl)
    | inr q ↦ rw (p, q) (v, refl)
  ]
  | inr p ↦ elim (Bool-cases (ltb 1 (length places))) [
    | inl q ↦
        rw (p, q)
          (
            add_warning-IsRunning (add_warning-IsRunning v call.source resolution.message)
                call.source _,
            refl,
          )
    | inr q ↦ rw (p, q) (add_warning-IsRunning v call.source resolution.message, refl)
  ]
]

enter_subprogram-IsValid :
    (call : SubprogramCall) (target : ℕ) {e : AilExecutor}
    → IsRunning e
    → target < length e.instructions
    → IsValid (enter_subprogram call target e)
unfolding enter_subprogram
enter_subprogram-IsValid call target {e} v h =
    elim (Bool-cases (leb_ℤ (value_or call.repeat_count (pos 1)) (pos 0))) [
      | inl none_left ↦ rw none_left (next_pc-IsValid (add_warning-IsRunning v call.source _))
      | inr some_left ↦ rw some_left (record {
        indexed = v.indexed;
        frames = ((v.pc_lt, h, some_left), v.frames);
        depth = refl;
        controlled = ground arith;
      })
    ]

call_at-IsValid :
    (call : SubprogramCall) (places : List ℕ) {e : AilExecutor}
    → lookup_all (resolve_subprogram_target call.target e).resolved_target e.label_positions
      ≡ places
    → IsRunning e
    → All (λ p. p < length e.instructions) places
    → IsValid (call_subprogram call e)
unfolding call_subprogram call_found
call_at-IsValid call places {e} q v h =
    elim (Bool-cases (resolve_subprogram_target call.target e).resolved) [
      | inl r ↦ rw (r, q) (entered places h)
      | inr r ↦ rw r (unresolved_call-IsValid call v)
    ]
  where
    entered :
        (ps : List ℕ)
        → All (λ p. p < length e.instructions) ps
        → IsValid (call_found call (resolve_subprogram_target call.target e) ps e)
    entered [] h = add_fault-IsValid v call.source _
    entered (target ∷ others) h =
        let (w, same) =
          warn_call-IsWarned call (resolve_subprogram_target call.target e) (target ∷ others) v in
        enter_subprogram-IsValid call target w (rw same h.0)

pub call_subprogram-IsValid :
    (call : SubprogramCall) {e : AilExecutor} → IsRunning e → IsValid (call_subprogram call e)
call_subprogram-IsValid call {e} v =
    call_at-IsValid call _ refl v
      (v.indexed.label_at (resolve_subprogram_target call.target e).resolved_target)
