-- ===== src/Framing/Header.antt =====
-- The header byte of a frame: what its writer put in is what its reader takes out, and back.
use Prim.Native.Nat.{bit_and}
use hydra_umc_server.Prelude.{
  ℕ, zero, suc, ◌+◌, ◌<◌, ◌≡◌, refl, Bool, true, false, ◌&&◌, ◌==◌, arith, ltb, ltb→lt,
  if◌then◌else◌,
}
use hydra_umc_server.Framing.{header, is_set, sequence_of, first_bit, last_bit}

-- Whether a test passes at every number below the bound.
each_below : ℕ → (ℕ → Bool) → Bool
each_below zero test = true
each_below (suc n) test = test n && each_below n test

each_below→true :
    (n : ℕ) (test : ℕ → Bool) → each_below n test ≡ true → (i : ℕ) → i < n → test i ≡ true
unfolding each_below
each_below→true zero test e i h = absurd (omega arith)
each_below→true (suc n) test e i h = ground (arith, each_below→true n test (ground arith) i)

abbrev same : Bool → Bool → Bool
same true b = b
same false true = false
same false false = true

abbrev is_read_back : Bool → Bool → ℕ → Bool
is_read_back first last seq =
    let h = header seq first last in
    (bit_and h 0x0c == 0)
    && same (is_set h first_bit) first
    && same (is_set h last_bit) last
    && (sequence_of h == seq)

-- What `push` reads in a header that `splitMessage` wrote.
pub record IsReadBack (seq : ℕ) (first last : Bool) : Type 0 where
  pub clear : is_set (header seq first last) 0x0c ≡ false
  pub at_first : is_set (header seq first last) first_bit ≡ first
  pub at_last : is_set (header seq first last) last_bit ≡ last
  pub number : sequence_of (header seq first last) ≡ seq

header_table : (first last : Bool) → each_below 16 (is_read_back first last) ≡ true
unfolding each_below header
header_table true true = refl
header_table true false = refl
header_table false true = refl
header_table false false = refl

IsReadBack-of_test :
    (seq : ℕ) (first last : Bool) → is_read_back first last seq ≡ true → IsReadBack seq first last
IsReadBack-of_test seq first last e = record {
  clear = ground arith;
  at_first = ground arith;
  at_last = ground arith;
  number = ground arith;
}

pub header-IsReadBack : (seq : ℕ) (first last : Bool) → seq < 16 → IsReadBack seq first last
header-IsReadBack seq first last h =
    IsReadBack-of_test seq first last
      (each_below→true 16 (is_read_back first last) (header_table first last) seq h)

abbrev is_written_back : ℕ → Bool
is_written_back h =
    if is_set h 0x0c
    then true
    else header (sequence_of h) (is_set h first_bit) (is_set h last_bit) == h
      && ltb (sequence_of h) 16

written_table : each_below 256 is_written_back ≡ true
unfolding each_below header
written_table = refl

-- A byte with no reserved bit is the header of what is read in it.
pub header_of_byte :
    (h : ℕ)
    → h < 256
    → is_set h 0x0c ≡ false
    → (h ≡ header (sequence_of h) (is_set h first_bit) (is_set h last_bit)) × (sequence_of h < 16)
header_of_byte h small clear = ground (arith, each_below→true 256 is_written_back written_table h)

next_table : each_below 16 (λ n. ltb (bit_and (n + 1) 0x0f) 16) ≡ true
unfolding each_below
next_table = refl

-- A sequence number stays within its four bits.
pub next_sequence-lt : (n : ℕ) → n < 16 → bit_and (n + 1) 0x0f < 16
next_sequence-lt n h = ltb→lt _ _ (each_below→true 16 _ next_table n h)
