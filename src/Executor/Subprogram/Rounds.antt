-- ===== src/Executor/Subprogram/Rounds.antt =====
-- src/ail.cpp: a subprogram is run as often as the call asks for.
use experimental_gcode_parse.Prelude.{
  ℕ, zero, suc, ◌≤◌, pos, String, ◌≡◌, refl, sym, ap, ◌∙◌, List, [], ◌∷◌, length, All, arith,
}
use experimental_gcode_parse.Lowering.{SourceInfo, value_or}
use experimental_gcode_parse.Ail.{SubprogramCall}
use experimental_gcode_parse.Executor.State.{AilExecutor, SubprogramCallFrame}
use experimental_gcode_parse.Executor.Subprogram.{
  return_to, return_from_subprogram, enter_subprogram, decrement,
}

-- What the instructions of a subprogram do between a jump to its label and its return: anything, as
-- long as the calls that they make have returned.
abbrev pub KeepsFrames : (AilExecutor → AilExecutor) → Type 0
KeepsFrames body = (e : AilExecutor) → (body e).call_stack_frames ≡ e.call_stack_frames

-- Bodies one after the other, each followed by a return.
abbrev pub run_rounds :
    SourceInfo → String → List (AilExecutor → AilExecutor) → AilExecutor → AilExecutor
run_rounds source opcode [] e = e
run_rounds source opcode (body ∷ bodies) e =
    run_rounds source opcode bodies (return_from_subprogram source opcode (body e))

abbrev frame_with : ℕ → ℕ → ℕ → SubprogramCallFrame
frame_with back target n = record {
  return_pc = back;
  target_pc = target;
  remaining_repeats = pos n;
}

-- The executor has come back from the call: behind it, with the frames from before.
pub record IsBack (back : ℕ) (frames : List SubprogramCallFrame) (e : AilExecutor) : Type 0 where
  pub at : e.state.pc ≡ back
  pub frames_left : e.call_stack_frames ≡ frames
  pub depth_left : e.state.call_stack_depth ≡ length frames

return-IsBack :
    (source : SourceInfo) (opcode : String) (back target : ℕ) (frames : List SubprogramCallFrame)
    (e : AilExecutor)
    → e.call_stack_frames ≡ frame_with back target 1 ∷ frames
    → IsBack back frames (return_from_subprogram source opcode e)
unfolding return_from_subprogram return_to
return-IsBack source opcode back target frames e q =
    simp (return_from_subprogram, q) (record { at = refl; frames_left = refl; depth_left = refl })

return-again :
    (source : SourceInfo) (opcode : String) (back target n : ℕ) (frames : List SubprogramCallFrame)
    (e : AilExecutor)
    → e.call_stack_frames ≡ frame_with back target (suc (suc n)) ∷ frames
    → ((return_from_subprogram source opcode e).call_stack_frames
        ≡ frame_with back target (suc n) ∷ frames)
      × ((return_from_subprogram source opcode e).state.pc ≡ target)
unfolding return_from_subprogram return_to decrement
return-again source opcode back target n frames e q = (ground (arith, q), ground (arith, q))

-- As many rounds as the frame asks for, and the executor is back.
rounds-IsBack :
    (source : SourceInfo) (opcode : String) (back target : ℕ) (frames : List SubprogramCallFrame)
    (body : AilExecutor → AilExecutor) (bodies : List (AilExecutor → AilExecutor)) (e : AilExecutor)
    → All KeepsFrames (body ∷ bodies)
    → e.call_stack_frames ≡ frame_with back target (length (body ∷ bodies)) ∷ frames
    → IsBack back frames (run_rounds source opcode (body ∷ bodies) e)
rounds-IsBack source opcode back target frames body [] e (k, ks) q =
    return-IsBack source opcode back target frames (body e) (k e ∙ q)
rounds-IsBack source opcode back target frames body (next ∷ bodies) e (k, ks) q =
    rounds-IsBack source opcode back target frames next bodies
      (return_from_subprogram source opcode (body e)) ks
      (return-again source opcode back target (length bodies) frames (body e) (k e ∙ q)).0

-- Fewer rounds, and the executor stands at the label again.
rounds-again :
    (source : SourceInfo) (opcode : String) (back target n : ℕ) (frames : List SubprogramCallFrame)
    (body : AilExecutor → AilExecutor) (bodies : List (AilExecutor → AilExecutor)) (e : AilExecutor)
    → All KeepsFrames (body ∷ bodies)
    → e.call_stack_frames ≡ frame_with back target (suc n) ∷ frames
    → length (body ∷ bodies) ≤ n
    → (run_rounds source opcode (body ∷ bodies) e).state.pc ≡ target
rounds-again source opcode back target zero frames body bodies e k q h = absurd (omega arith)
rounds-again source opcode back target (suc n) frames body [] e (k, ks) q h =
    (return-again source opcode back target n frames (body e) (k e ∙ q)).1
rounds-again source opcode back target (suc n) frames body (next ∷ bodies) e (k, ks) q h =
    rounds-again source opcode back target n frames next bodies
      (return_from_subprogram source opcode (body e)) ks
      (return-again source opcode back target n frames (body e) (k e ∙ q)).0 (omega arith)

entered :
    (call : SubprogramCall) (target n : ℕ) (e : AilExecutor)
    → value_or call.repeat_count (pos 1) ≡ pos (suc n)
    → ((enter_subprogram call target e).call_stack_frames
        ≡ frame_with (suc e.state.pc) target (suc n) ∷ e.call_stack_frames)
      × ((enter_subprogram call target e).state.pc ≡ target)
unfolding enter_subprogram
entered call target n e q = (ground (arith, q), ground (arith, q))

-- A call with a repeat count of at least one, or without a count, which is one, runs the subprogram
-- that often. It starts at the label; as long as fewer rounds are done every return leads to the
-- label again; and the return of the last round leads behind the call, with the call stack and its
-- depth from before. What a round does is any change of the executor that leaves the frames.
pub enter_subprogram-rounds :
    (call : SubprogramCall) (target n : ℕ) (source : SourceInfo) (opcode : String)
    (body : AilExecutor → AilExecutor) (bodies : List (AilExecutor → AilExecutor)) (e : AilExecutor)
    → value_or call.repeat_count (pos 1) ≡ pos (suc n)
    → All KeepsFrames (body ∷ bodies)
    → ((enter_subprogram call target e).state.pc ≡ target)
      × (length (body ∷ bodies) ≤ n
          → (run_rounds source opcode (body ∷ bodies) (enter_subprogram call target e)).state.pc
            ≡ target)
      × (length (body ∷ bodies) ≡ suc n
          → IsBack
              (suc e.state.pc)
              e.call_stack_frames
              (run_rounds source opcode (body ∷ bodies) (enter_subprogram call target e)))
enter_subprogram-rounds call target n source opcode body bodies e q k =
    let (frames, pc) = entered call target n e q in
    (
      pc,
      rounds-again source opcode (suc e.state.pc) target n e.call_stack_frames body bodies
          (enter_subprogram call target e) k frames,
      λ h.
          rounds-IsBack source opcode (suc e.state.pc) target e.call_stack_frames body bodies
            (enter_subprogram call target e) k
            (frames ∙ ap (λ m. frame_with (suc e.state.pc) target m ∷ e.call_stack_frames) (sym h)),
    )
