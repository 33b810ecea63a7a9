-- ===== src/Framing/RoundTrip.antt =====
-- A message cut by `splitMessage` is joined again by `Reassembler.push`, whatever came before it.
use Prim.Native.Nat.{bit_and}
use hydra_umc_server.Prelude.{
  ℕ, zero, suc, ◌+◌, ◌-◌, min, ◌≤◌, ◌<◌, ◌≡◌, refl, ap, ◌∙◌, inl, inr, Bool, true, false, List, [],
  ◌∷◌, ◌++◌, arith, length, take, drop, concat, concat-append, leb, leb→le, length-take,
  length-drop, take-append-slice, take_of_length-le, Bool-cases,
}
use hydra_umc_server.Framing.Header.{header-IsReadBack, next_sequence-lt}
use hydra_umc_server.Framing.{
  Frame, header, slice_size, frames, split_from, split_message, max_message_bytes, Reassembler,
  reset, join, push, partial, message,
}

-- Pushed in order, every frame but the last one is answered by `partial`; the last one is answered
-- by the message, and leaves the reassembler as it was made.
abbrev pub Delivers : List ℕ → Reassembler → List Frame → Type 0
Delivers m r [] = ⊥
Delivers m r (f ∷ []) = push f r ≡ (reset, message m)
Delivers m r (f ∷ g ∷ fs) = ((push f r).1 ≡ partial) × Delivers m (push f r).0 (g ∷ fs)

Delivers-cons :
    (m : List ℕ) (r : Reassembler) (f : Frame) (fs : List Frame)
    → (push f r).1 ≡ partial
    → Delivers m (push f r).0 fs
    → Delivers m r (f ∷ fs)
Delivers-cons m r f [] p d = absurd d
Delivers-cons m r f (g ∷ fs) p d = (p, d)

push_first :
    (last : Bool) (slice : List ℕ) (r : Reassembler)
    → push (header 0 true last ∷ slice) r ≡ join 0 last slice (record reset { is_open = true })
unfolding push
push_first last slice r = ground (arith, header-IsReadBack 0 true last (omega arith))

push_next :
    (seq : ℕ) (last : Bool) (slice : List ℕ) (r : Reassembler)
    → seq < 16
    → r.is_open ≡ true
    → r.next ≡ seq
    → push (header seq false last ∷ slice) r ≡ join seq last slice r
unfolding push
push_next seq last slice r h o n = ground (arith, header-IsReadBack seq false last h)

-- What `push` needs of a reassembler that has joined `offset` bytes of the message.
record IsAt (m : List ℕ) (offset seq : ℕ) (r : Reassembler) : Type 0 where
  opened : r.is_open ≡ true
  number : r.next ≡ seq
  counted : r.size ≡ offset
  joined : concat r.parts ≡ take offset m

module _ (m : List ℕ) (fits : length m ≤ max_message_bytes) (size offset seq : ℕ) where
  abbrev slice : List ℕ
  slice = take size (drop offset m)

  joined_slice :
      (r : Reassembler)
      → concat r.parts ≡ take offset m
      → concat (r.parts ++ slice ∷ []) ≡ take (offset + length slice) m
  joined_slice r e =
      concat-append r.parts slice
      ∙ ap (λ (p : List ℕ). p ++ slice) e
      ∙ take-append-slice offset size m

  length-slice : length slice ≡ min size (length m - offset)
  length-slice = length-take size (drop offset m) ∙ ap (min size) (length-drop offset m)

  join_last :
      (r : Reassembler)
      → r.size ≡ offset
      → concat r.parts ≡ take offset m
      → offset ≤ length m
      → length m ≤ offset + length slice
      → join seq true slice r ≡ (reset, message m)
  unfolding join
  join_last r s e h l =
      ground (arith, length-slice, joined_slice r e, take_of_length-le (offset + length slice) m l)

  join_more :
      (r : Reassembler)
      → IsAt m offset seq r
      → offset ≤ length m
      → ((join seq false slice r).1 ≡ partial)
        × IsAt m (offset + length slice) (bit_and (seq + 1) 0x0f) (join seq false slice r).0
  unfolding join
  join_more r at h = ground (arith, length-slice, joined_slice r at.joined)

-- The rounds from any reassembler that has joined what was cut so far. The first round is pushed to
-- any reassembler `r'`, which the first frame brings to that state.
split_from-Delivers :
    (fuel size : ℕ) (m : List ℕ) (offset seq : ℕ) (first : Bool) (r' r : Reassembler)
    → 0 < size
    → length m ≤ max_message_bytes
    → offset ≤ length m
    → length m < offset + fuel
    → seq < 16
    → IsAt m offset seq r
    → ((last : Bool) (slice : List ℕ)
        → push (header seq first last ∷ slice) r' ≡ join seq last slice r)
    → (fs : List Frame) × (split_from fuel size m offset seq first ≡ frames fs) × Delivers m r' fs
unfolding split_from
split_from-Delivers zero size m offset seq first r' r pos fits h enough s at pushed =
    absurd (omega arith)
split_from-Delivers (suc fuel) size m offset seq first r' r pos fits h enough s at pushed =
    elim (Bool-cases (leb (length m) (offset + length (take size (drop offset m))))) [
      | inl done ↦ (
        (header seq first true ∷ take size (drop offset m)) ∷ [],
        rw done,
        pushed true (take size (drop offset m))
            ∙ join_last m fits size offset seq r at.counted at.joined h (leb→le _ _ done),
      )
      | inr more ↦
          let slice = take size (drop offset m) in
          let long = length-slice m fits size offset seq in
          let (answer, at') = join_more m fits size offset seq r at h in
          let next = (join seq false slice r).0 in
          let (fs, e, d) =
            split_from-Delivers fuel size m (offset + length slice) (bit_and (seq + 1) 0x0f) false
              next next pos fits (ground arith) (ground arith) (next_sequence-lt seq s) at'
              (λ last bytes.
                push_next _ last bytes next (next_sequence-lt seq s) at'.opened at'.number) in
          let first_pushed = pushed false slice in
          (
            (header seq first false ∷ slice) ∷ fs,
            rw (more, e),
            Delivers-cons m r' (header seq first false ∷ slice) fs (rw first_pushed answer)
                (rw first_pushed d),
          )
    ]

slice_size-pos : (mtu : ℕ) → 0 < slice_size mtu
unfolding slice_size
slice_size-pos mtu = ground arith

-- Every message of at most 64 KiB is cut into frames, whatever the MTU; and pushed in order to a
-- reassembler in any state, all of them but the last are answered `partial`, and the last one by the
-- same message, after which the reassembler is as it was made.
pub push-split_message :
    (m : List ℕ) (mtu : ℕ) (r : Reassembler)
    → length m ≤ max_message_bytes
    → (fs : List Frame) × (split_message m mtu ≡ frames fs) × Delivers m r fs
unfolding split_message
push-split_message m mtu r fits =
    let (fs, e, d) =
      split_from-Delivers (length m + 1) (slice_size mtu) m 0 0 true r
        (record reset { is_open = true }) (slice_size-pos mtu) fits (omega arith) (omega arith)
        (omega arith) (record { opened = refl; number = refl; counted = refl; joined = refl })
        (λ last bytes. push_first last bytes r) in
    (fs, ground arith, d)
