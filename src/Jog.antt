-- ===== src/Jog.antt =====
-- src/jogSequence.ts: the order of the motion commands of one client.
-- The clock is an argument of each call, in milliseconds. `userId` is the text that the key holds
-- (`String(userId)`), and the text of a robot's number is a parameter, `String(robotId)`.
pub mod Bounds
pub mod Order
mod Tests
use Prim.Native.String
use hydra_umc_server.Prelude.{
  ℕ, zero, suc, ◌*◌, ◌-◌, max, String, Bool, true, false, Option, none, some, List, [], ◌∷◌, length,
  keep, ltb, leb, not, if◌then◌else◌, lookup, put, delete, string_discrete, decimal, ◌^◌, ◌&&◌,
}

abbrev pub max_entries : ℕ
max_entries = 1024

abbrev pub idle_forget_ms : ℕ
idle_forget_ms = 60 * 60 * 1000

pub record Mark : Type 0 where
  pub seq : ℕ
  pub at : ℕ

-- The map `marks`, oldest entry first.
abbrev pub Marks : Type 0
Marks = List (String × Mark)

-- Who sends a command, and for which robot.
pub record Client : Type 0 where
  pub robot_id : ℕ
  pub user_id : String
  pub controller_id : Option String

abbrev pub or_empty : Option String → String
or_empty none = ""
or_empty (some s) = s

-- A whole number is a sequence number from 1 up to 2 ^ 53 - 1.
pub parse_sequence : ℕ → Option ℕ
parse_sequence value = if ltb value (2 ^ 53) && leb 1 value then some value else none

pub key : Client → String
key c =
    String.◌++◌ (decimal c.robot_id)
      (String.◌++◌ "|" (String.◌++◌ c.user_id (String.◌++◌ "|" (or_empty c.controller_id))))

abbrev pub is_fresh : ℕ → String × Mark → Bool
is_fresh now e = not (ltb idle_forget_ms (now - e.1.at))

-- The `while` loop of `forgetOld`: the first entry of the map is the oldest one.
pub drop_oldest : Marks → Marks
drop_oldest [] = []
drop_oldest (e ∷ marks) =
    let rest = drop_oldest marks in if leb max_entries (length (e ∷ marks)) then rest else e ∷ marks

pub forget_old : ℕ → Marks → Marks
unfolding drop_oldest
forget_old now marks = drop_oldest (keep (is_fresh now) marks)

pub data Answer : Type 0 where
  accepted : Answer
  refused : ℕ → Answer

-- The mark leaves its place and comes back as the newest one.
pub move_to_end : String → Mark → Marks → Marks
move_to_end k mark marks = put string_discrete k mark (delete string_discrete k marks)

pub accept_at : ℕ → String → ℕ → Marks → Marks × Answer
accept_at now k seq marks = elim (lookup string_discrete k marks) [
  | none ↦ (move_to_end k (record { seq = seq; at = now }) marks, accepted)
  | some mark ↦
      if leb seq mark.seq
      then (marks, refused mark.seq)
      else (move_to_end k (record { seq = seq; at = now }) marks, accepted)
]

pub accept : ℕ → Client → ℕ → Marks → Marks × Answer
unfolding accept_at
accept now c seq marks = accept_at now (key c) seq (forget_old now marks)

abbrev pub seq_or_zero : Option Mark → ℕ
seq_or_zero none = 0
seq_or_zero (some mark) = mark.seq

pub note_stop_at : ℕ → String → ℕ → Marks → Marks
note_stop_at now k seq marks =
    move_to_end k
      (record { seq = max seq (seq_or_zero (lookup string_discrete k marks)); at = now }) marks

pub note_stop : ℕ → Client → ℕ → Marks → Marks
unfolding note_stop_at
note_stop now c seq marks = note_stop_at now (key c) seq (forget_old now marks)

pub size : Marks → ℕ
size marks = length marks

-- A call of the object, with the time of its clock.
pub data Call : Type 0 where
  motion : ℕ → Client → ℕ → Call
  stop : ℕ → Client → ℕ → Call

abbrev pub time : Call → ℕ
time (motion now c seq) = now
time (stop now c seq) = now

pub step : Call → Marks → Marks
step (motion now c seq) marks = (accept now c seq marks).0
step (stop now c seq) marks = note_stop now c seq marks

-- The first call comes first.
pub run : List Call → Marks → Marks
unfolding step
run [] marks = marks
run (c ∷ calls) marks = run calls (step c marks)
