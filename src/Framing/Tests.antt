-- ===== src/Framing/Tests.antt =====
-- Framing at concrete inputs.
use hydra_umc_server.Prelude.{max, ℕ, ◌-◌, ◌≡◌, refl, true, List, [], ◌∷◌, arith, replicate, min}
use hydra_umc_server.Framing.{
  Frame, header, slice_size, frames, split_from, split_message, Reassembler, reset, join, push,
  message, damaged, out_of_sequence, no_start,
}
use hydra_umc_server.Framing.RoundTrip.{Delivers, push-split_message}
use hydra_umc_server.Framing.Size.{Fits, split_message-Fits}
use hydra_umc_server.Framing.Sound.{IsAnswer, IsSound, after, push-after-IsSound}

-- 45 bytes, which take three frames on the slowest link.
abbrev sample : List ℕ
sample = replicate 45 7

-- A reassembler in the middle of another message.
abbrev busy : Reassembler
busy = record { parts = (1 ∷ []) ∷ []; size = 1; next = 1; is_open = true }

sample_frames :
    split_message sample 23
    ≡ frames ((0x01 ∷ replicate 19 7) ∷ (0x10 ∷ replicate 19 7) ∷ (0x22 ∷ replicate 7 7) ∷ [])
unfolding split_message split_from slice_size header
sample_frames = refl

empty_message : split_message [] 185 ≡ frames ((0x03 ∷ []) ∷ [])
unfolding split_message split_from slice_size header
empty_message = refl

lost_frame : (push (0x22 ∷ 7 ∷ []) busy).1 ≡ damaged out_of_sequence
unfolding push
lost_frame = refl

no_first : (push (0x12 ∷ 7 ∷ []) reset).1 ≡ damaged no_start
unfolding push
no_first = refl

push-split_message_example :
    (fs : List Frame) × (split_message sample 23 ≡ frames fs) × Delivers sample busy fs
push-split_message_example = push-split_message sample 23 busy (omega arith)

split_message-Fits_example : Fits (min 517 (max 23 5) - 3) (split_message sample 5)
split_message-Fits_example = split_message-Fits sample 5

push-after-IsSound_example :
    IsAnswer
      ((0x12 ∷ 9 ∷ []) ∷ (0x01 ∷ 8 ∷ []) ∷ [])
      (push (0x12 ∷ 9 ∷ []) (after ((0x01 ∷ 8 ∷ []) ∷ []))).1
    × IsSound
        ((0x12 ∷ 9 ∷ []) ∷ (0x01 ∷ 8 ∷ []) ∷ [])
        (push (0x12 ∷ 9 ∷ []) (after ((0x01 ∷ 8 ∷ []) ∷ []))).0
push-after-IsSound_example = push-after-IsSound ((0x01 ∷ 8 ∷ []) ∷ []) (0x12 ∷ 9 ∷ []) (omega arith)

joined : (push (0x12 ∷ 9 ∷ []) (after ((0x01 ∷ 8 ∷ []) ∷ []))).1 ≡ message (8 ∷ 9 ∷ [])
unfolding after push join
joined = refl
