-- ===== src/Jog/Bounds.antt =====
-- How many marks are kept.
use hydra_umc_server.Prelude.{
  ℕ, suc, ◌≤◌, ◌<◌, List, [], ◌∷◌, arith, length, keep, delete, string_discrete, length-put-le,
  length-delete-le, String,
}
use hydra_umc_server.Jog.{
  max_entries, Marks, Mark, key, is_fresh, drop_oldest, forget_old, move_to_end, accept_at, accept,
  note_stop_at, note_stop, Call, motion, stop, step, run, size,
}

length-drop_oldest : (marks : Marks) → length (drop_oldest marks) < max_entries
unfolding drop_oldest
length-drop_oldest [] = omega arith
length-drop_oldest (e ∷ marks) = ground (arith, length-drop_oldest marks)

length-forget_old : (now : ℕ) (marks : Marks) → length (forget_old now marks) < max_entries
unfolding forget_old
length-forget_old now marks = length-drop_oldest (keep (is_fresh now) marks)

length-move_to_end :
    (k : String) (mark : Mark) (marks : Marks)
    → length (move_to_end k mark marks) ≤ suc (length marks)
unfolding move_to_end
length-move_to_end k mark marks = omega (
  arith,
  length-put-le string_discrete k mark (delete string_discrete k marks),
  length-delete-le string_discrete k marks,
)

length-accept_at :
    (now : ℕ) (k : String) (seq : ℕ) (marks : Marks)
    → length (accept_at now k seq marks).0 ≤ suc (length marks)
unfolding accept_at
length-accept_at now k seq marks =
    ground (arith, length-move_to_end k (record { seq = seq; at = now }) marks)

-- After a call there are at most 1024 marks, whatever was there before it.
step-bound : (c : Call) (marks : Marks) → size (step c marks) ≤ max_entries
unfolding size step accept note_stop note_stop_at
step-bound (motion now c seq) marks =
    omega
      (arith, length-accept_at now (key c) seq (forget_old now marks), length-forget_old now marks)
step-bound (stop now c seq) marks =
    omega (arith, length-move_to_end (key c) _ (forget_old now marks), length-forget_old now marks)

run-bound :
    (calls : List Call) (marks : Marks)
    → size marks ≤ max_entries
    → size (run calls marks) ≤ max_entries
unfolding run
run-bound [] marks h = h
run-bound (c ∷ calls) marks h = run-bound calls (step c marks) (step-bound c marks)

-- However many calls are made, at most 1024 marks are kept.
pub size-run : (calls : List Call) → size (run calls []) ≤ max_entries
unfolding size
size-run calls = run-bound calls [] (omega arith)
