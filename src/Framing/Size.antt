-- ===== src/Framing/Size.antt =====
-- The frames of `splitMessage` fit the link.
use Prim.Native.Nat.{bit_and}
use hydra_umc_server.Prelude.{
  ℕ, zero, suc, ◌+◌, ◌-◌, min, max, ◌≤◌, ◌<◌, ◌≡◌, inl, inr, Bool, true, false, List, [], ◌∷◌,
  arith, length, take, drop, leb, ltb, ltb→lt, length-take, All, Bool-cases,
}
use hydra_umc_server.Framing.RoundTrip.{push-split_message}
use hydra_umc_server.Framing.{
  Frame, header, slice_size, SplitResult, frames, message_too_large, out_of_fuel, before_rest,
  split_from, split_message, max_message_bytes, reset,
}

-- What a caller may rely on: frames of at most `most` bytes, or a message past the limit.
abbrev pub Fits : ℕ → SplitResult → Type 0
Fits most (frames fs) = All (λ f. length f ≤ most) fs
Fits most (message_too_large n) = max_message_bytes < n
Fits most out_of_fuel = ⊥

abbrev AllOf : ℕ → SplitResult → Type 0
AllOf most (frames fs) = All (λ f. length f ≤ most) fs
AllOf most other = Unit

AllOf-before_rest :
    (most : ℕ) (f : Frame) (s : SplitResult)
    → length f ≤ most
    → AllOf most s
    → AllOf most (before_rest f s)
AllOf-before_rest most f (frames fs) h k = (h, k)
AllOf-before_rest most f (message_too_large n) h k = tt
AllOf-before_rest most f out_of_fuel h k = tt

split_from-AllOf :
    (fuel size : ℕ) (m : List ℕ) (offset seq : ℕ) (first : Bool)
    → AllOf (suc size) (split_from fuel size m offset seq first)
unfolding split_from
split_from-AllOf zero size m offset seq first = tt
split_from-AllOf (suc fuel) size m offset seq first =
    let slice = take size (drop offset m) in
    let short = length-take size (drop offset m) in
    elim (Bool-cases (leb (length m) (offset + length slice))) [
      | inl done ↦ rw done (omega arith, tt)
      | inr more ↦ rw more (
          AllOf-before_rest (suc size) (header seq first false ∷ slice) _ (omega arith)
            (split_from-AllOf fuel size m (offset + length slice) (bit_and (seq + 1) 0x0f) false))
    ]

slice_size-le : (mtu : ℕ) → suc (slice_size mtu) ≤ min 517 (max 23 mtu) - 3
unfolding slice_size
slice_size-le mtu = ground arith

Fits_of_frames :
    (size most : ℕ) (fs : List Frame)
    → size ≤ most
    → All (λ f. length f ≤ size) fs
    → All (λ f. length f ≤ most) fs
Fits_of_frames size most [] h k = tt
Fits_of_frames size most (f ∷ fs) h k = (omega arith, Fits_of_frames size most fs h k.1)

-- Every frame is at most MTU - 3 bytes long, the frame header included, where an MTU below 23 counts as
-- 23 and one above 517 as 517; only a message past 64 KiB is refused.
pub split_message-Fits :
    (m : List ℕ) (mtu : ℕ) → Fits (min 517 (max 23 mtu) - 3) (split_message m mtu)
unfolding split_message
split_message-Fits m mtu = elim (Bool-cases (ltb max_message_bytes (length m))) [
  | inl long ↦ rw long (ltb→lt _ _ long)
  | inr short ↦
      let (fs, e, d) = push-split_message m mtu reset (ground arith) in
      let all = split_from-AllOf (length m + 1) (slice_size mtu) m 0 0 true in
      let same : split_from (length m + 1) (slice_size mtu) m 0 0 true ≡ frames fs =
        rw short at e in
      rw e (Fits_of_frames _ _ fs (slice_size-le mtu) (rw same at all))
]
