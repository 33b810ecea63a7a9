-- ===== src/Framing/Sound.antt =====
-- What a reassembler may be relied on for, whatever bytes arrive and in whatever order.
use Prim.Native.Nat.{bit_and}
use hydra_umc_server.Prelude.{
  ℕ, ◌+◌, ◌≤◌, ◌<◌, ◌≡◌, refl, inl, inr, Bool, true, false, List, [], ◌∷◌, ◌++◌, arith, length,
  concat, concat-append, length-append, All, ltb, ◌==◌, Bool-cases,
}
use hydra_umc_server.Framing.Header.{header_of_byte}
use hydra_umc_server.Framing.{
  Frame, header, max_message_bytes, Reassembler, reset, join, push, PushResult, message, is_set,
  sequence_of, first_bit, last_bit,
}

-- The frames that arrived, the last one first, end in an unfinished message: a first frame numbered
-- 0, and after it frames that are neither first nor last, each numbered one up modulo 16. `next` is
-- the number that must follow, and `bytes` is what the frames carry.
pub data IsPartial : List Frame → ℕ → List ℕ → Type 0 where
  start :
      {seen : List Frame} {next : ℕ} {bytes : List ℕ} (before : List Frame)
      → seen ≡ (header 0 true false ∷ bytes) ∷ before
      → next ≡ 1
      → IsPartial seen next bytes
  more :
      {seen : List Frame} {next : ℕ} {bytes : List ℕ} (before : List Frame) (seq : ℕ)
      (joined slice : List ℕ)
      → IsPartial before seq joined
      → seen ≡ (header seq false false ∷ slice) ∷ before
      → next ≡ bit_and (seq + 1) 0x0f
      → bytes ≡ joined ++ slice
      → IsPartial seen next bytes

-- The frames that arrived end in the frames of a whole message.
pub data IsWhole (seen : List Frame) (bytes : List ℕ) : Type 0 where
  single : (before : List Frame) → seen ≡ (header 0 true true ∷ bytes) ∷ before → IsWhole seen bytes
  finish :
      (before : List Frame) (seq : ℕ) (joined slice : List ℕ)
      → IsPartial before seq joined
      → seen ≡ (header seq false true ∷ slice) ∷ before
      → bytes ≡ joined ++ slice
      → IsWhole seen bytes

-- The reassembler after the frames `seen`.
pub record IsSound (seen : List Frame) (r : Reassembler) : Type 0 where
  pub shut : r.is_open ≡ false → r ≡ reset
  pub counted : r.size ≡ length (concat r.parts)
  pub bounded : r.size ≤ max_message_bytes
  pub pending : r.is_open ≡ true → IsPartial seen r.next (concat r.parts)

abbrev pub IsAnswer : List Frame → PushResult → Type 0
IsAnswer seen (message m) = IsWhole seen m × (length m ≤ max_message_bytes)
IsAnswer seen other = Unit

reset-IsSound : (seen : List Frame) → IsSound seen reset
reset-IsSound seen = record {
  shut = λ _. refl;
  counted = refl;
  bounded = omega arith;
  pending = λ e. cc;
}

abbrev After : List Frame → Reassembler × PushResult → Type 0
After seen t = IsSound seen t.0 × IsAnswer seen t.1

join-After :
    (seen : List Frame) (seq : ℕ) (last : Bool) (slice : List ℕ) (r : Reassembler)
    → r.is_open ≡ true
    → r.size ≡ length (concat r.parts)
    → (last ≡ true → IsWhole seen (concat r.parts ++ slice))
    → (last ≡ false → IsPartial seen (bit_and (seq + 1) 0x0f) (concat r.parts ++ slice))
    → After seen (join seq last slice r)
unfolding join
join-After seen seq last slice r o c whole pending =
    let joined = concat-append r.parts slice in
    let sum = length-append (concat r.parts) slice in
    elim (Bool-cases (ltb max_message_bytes (r.size + length slice))) [
      | inl long ↦ rw long (reset-IsSound seen, tt)
      | inr short ↦ elim (Bool-cases last) [
        | inl e ↦ rw (short, e, joined) (reset-IsSound seen, (whole e, ground arith))
        | inr e ↦
            rw (short, e)
              (
                record {
                  shut = λ no_more. cc;
                  counted = ground arith;
                  bounded = ground arith;
                  pending = λ _. rw joined (pending e);
                },
                tt,
              )
      ]
    ]

-- The frame that was read, as the sender writes it.
written :
    {h seq : ℕ} {first last : Bool} (slice : List ℕ) (seen : List Frame) (first' last' : Bool)
    (seq' : ℕ)
    → h ≡ header seq first last
    → seq ≡ seq'
    → first ≡ first'
    → last ≡ last'
    → ◌≡◌ {A = List Frame} ((h ∷ slice) ∷ seen) ((header seq' first' last' ∷ slice) ∷ seen)
written slice seen first' last' seq' shape a b c = ground arith

-- One step: a frame of bytes keeps what is known of the reassembler, and is answered truly.
push-After :
    (seen : List Frame) (f : Frame) (r : Reassembler)
    → All (λ b. b < 256) f
    → IsSound seen r
    → After (f ∷ seen) (push f r)
unfolding push
push-After seen [] r bytes s = (reset-IsSound _, tt)
push-After seen (h ∷ slice) r bytes s = elim (Bool-cases (is_set h 0x0c)) [
  | inl reserved ↦ rw reserved (reset-IsSound _, tt)
  | inr clear ↦ elim (Bool-cases (is_set h first_bit)) [
    | inl first ↦ elim (Bool-cases (sequence_of h == 0)) [
      | inl zeroth ↦
          let shape = (header_of_byte h bytes.0 clear).0 in
          let zero_number : sequence_of h ≡ 0 = ground arith in
          rw (clear, first, zeroth)
            (join-After _ (sequence_of h) (is_set h last_bit) slice
              (record reset { is_open = true }) refl refl
              (λ e. single seen (written slice seen true true 0 shape zero_number first e))
              (λ e.
                start seen (written slice seen true false 0 shape zero_number first e)
                  (rw zero_number refl)))
      | inr other ↦ rw (clear, first, other) (reset-IsSound _, tt)
    ]
    | inr later ↦ elim (Bool-cases r.is_open) [
      | inl opened ↦ elim (Bool-cases (sequence_of h == r.next)) [
        | inl due ↦
            let shape = (header_of_byte h bytes.0 clear).0 in
            let same_number : sequence_of h ≡ r.next = ground arith in
            let so_far = s.pending opened in
            rw (clear, later, opened, due)
              (join-After _ (sequence_of h) (is_set h last_bit) slice (record r { is_open = true })
                refl s.counted
                (λ e.
                  finish seen r.next (concat r.parts) slice so_far
                    (written slice seen false true r.next shape same_number later e) refl)
                (λ e.
                  more seen r.next (concat r.parts) slice so_far
                    (written slice seen false false r.next shape same_number later e)
                    (rw same_number refl) refl))
        | inr other ↦ rw (clear, later, opened, other) (reset-IsSound _, tt)
      ]
      | inr closed ↦ rw (clear, later, closed) (rw (s.shut closed) (reset-IsSound _), tt)
    ]
  ]
]

-- The reassembler after frames, the last one first.
unfoldable pub after : List Frame → Reassembler
after [] = reset
after (f ∷ seen) = (push f (after seen)).0

after-IsSound :
    (seen : List Frame) → All (λ (f : Frame). All (λ b. b < 256) f) seen → IsSound seen (after seen)
unfolding after
after-IsSound [] bytes = reset-IsSound []
after-IsSound (f ∷ seen) bytes =
    (push-After seen f (after seen) bytes.0 (after-IsSound seen bytes.1)).0

-- Whatever frames of bytes arrived before (`seen`, the last one first), the reassembler answers a
-- frame by a message only if the frames up to that one end in exactly the frames of that message: a
-- first frame numbered 0, then frames numbered one up modulo 16, the last of them marked as last.
-- The message is what they carry, at most 64 KiB. And an unfinished message is joined only from such
-- frames, while a closed reassembler is as it was made.
pub push-after-IsSound :
    (seen : List Frame) (f : Frame)
    → All (λ (g : Frame). All (λ b. b < 256) g) (f ∷ seen)
    → IsAnswer (f ∷ seen) (push f (after seen)).1 × IsSound (f ∷ seen) (push f (after seen)).0
push-after-IsSound seen f bytes =
    let (sound, answer) = push-After seen f (after seen) bytes.0 (after-IsSound seen bytes.1) in
    (answer, sound)
