-- ===== src/Jog/Tests.antt =====
-- Motion numbers at concrete inputs.
use hydra_umc_server.Prelude.{
  ◌≤◌, ◌^◌, ◌≡◌, refl, List, [], ◌∷◌, some, none, arith, string_discrete, lookup, put, delete,
  decimal,
}
use hydra_umc_server.Jog.{
  Client, key, accept, note_stop, run, Call, motion, size, max_entries, accept_at, note_stop_at,
  move_to_end, forget_old, accepted, refused, parse_sequence,
}
use hydra_umc_server.Jog.Bounds.{size-run}
use hydra_umc_server.Jog.Order.{IsRefused, IsRefused-after_stop, IsRefused-after_accepted}

abbrev phone : Client
phone = record { robot_id = 12; user_id = "7"; controller_id = some "phone" }

abbrev tablet : Client
tablet = record { robot_id = 12; user_id = "7"; controller_id = none }

-- A motion command of another client, and an older one of the same, between a stop and a late jog.
abbrev between : List Call
between = motion 1500 tablet 90 ∷ motion 1600 phone 3 ∷ []

jogs : Unit {0}
unfolding accept note_stop run lookup put delete string_discrete forget_old key decimal move_to_end
    accept_at note_stop_at
jogs = tt

key-phone : key phone ≡ "12|7|phone"
unfolding jogs
key-phone = refl

late_jog : (accept 2000 phone 4 (run between (note_stop 1000 phone 5 []))).1 ≡ refused 5
unfolding jogs
late_jog = refl

new_jog : (accept 2000 phone 6 (run between (note_stop 1000 phone 5 []))).1 ≡ accepted
unfolding jogs
new_jog = refl

bad_numbers :
    (parse_sequence 0 ≡ none) × (parse_sequence (2 ^ 53) ≡ none) × (parse_sequence 1 ≡ some 1)
unfolding parse_sequence
bad_numbers = (refl, refl, refl)

IsRefused-after_stop_example :
    IsRefused 5 (accept 2000 phone 4 (run between (note_stop 1000 phone 5 []))).1
IsRefused-after_stop_example =
    IsRefused-after_stop phone 5 1000 2000 4 between [] (omega arith) (omega arith) (omega arith)
      (omega arith)

IsRefused-after_accepted_example :
    IsRefused 5 (accept 2000 phone 5 (run between (accept 1000 phone 5 []).0)).1
unfolding jogs
IsRefused-after_accepted_example =
    IsRefused-after_accepted phone 5 1000 2000 5 between [] refl (omega arith) (omega arith)
      (omega arith) (omega arith)

size-run_example : size (run between []) ≤ max_entries
size-run_example = size-run between
