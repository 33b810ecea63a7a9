-- ===== src/Framing.antt =====
-- src/ble/framing.ts: how a message is cut into the frames of a Bluetooth link, and joined again.
-- A byte is a number below 256, a buffer is the list of its bytes, and an MTU is a whole number.
pub mod Header
pub mod RoundTrip
pub mod Size
pub mod Sound
mod Tests
use Prim.Native.Nat.{bit_and, bit_or}
use hydra_umc_server.Prelude.{
  ℕ, zero, suc, ◌+◌, ◌-◌, ◌*◌, ◌/◌, min, max, Bool, true, false, not, Option, none, some, List, [],
  ◌∷◌, ◌++◌, length, take, drop, concat, ltb, leb, ◌==◌, if◌then◌else◌,
}

abbrev pub first_bit : ℕ
first_bit = 0x01

abbrev pub last_bit : ℕ
last_bit = 0x02

abbrev pub max_message_bytes : ℕ
max_message_bytes = 64 * 1024

abbrev pub min_mtu : ℕ
min_mtu = 23

abbrev pub max_mtu : ℕ
max_mtu = 517

abbrev pub Frame : Type 0
Frame = List ℕ

-- `Math.floor(mtu) || MIN_MTU` takes the least MTU for 0.
pub slice_size : ℕ → ℕ
slice_size mtu = min max_mtu (max min_mtu (if mtu == 0 then min_mtu else mtu)) - 3 - 1

-- `(seq << 4) | (first ? FIRST : 0) | (last ? LAST : 0)`
unfoldable pub header : ℕ → Bool → Bool → ℕ
header seq first last =
    bit_or (bit_or (seq * 16) (if first then first_bit else 0)) (if last then last_bit else 0)

pub data SplitResult : Type 0 where
  frames : List Frame → SplitResult
  message_too_large : ℕ → SplitResult
  out_of_fuel : SplitResult

-- Puts a frame before those of the rounds that follow.
abbrev pub before_rest : Frame → SplitResult → SplitResult
before_rest f (frames fs) = frames (f ∷ fs)
before_rest f other = other

-- The loop of `splitMessage`, one round for each unit of fuel.
pub split_from : ℕ → ℕ → List ℕ → ℕ → ℕ → Bool → SplitResult
split_from zero size message offset seq first = out_of_fuel
split_from (suc fuel) size message offset seq first =
    let slice = take size (drop offset message) in
    let next_offset = offset + length slice in
    let more = split_from fuel size message next_offset (bit_and (seq + 1) 0x0f) false in
    if leb (length message) next_offset
    then frames ((header seq first true ∷ slice) ∷ [])
    else before_rest (header seq first false ∷ slice) more

pub split_message : List ℕ → ℕ → SplitResult
unfolding split_from
split_message message mtu =
    if ltb max_message_bytes (length message)
    then message_too_large (length message)
    else split_from (length message + 1) (slice_size mtu) message 0 0 true

pub data Damage : Type 0 where
  empty reserved_bits no_start out_of_sequence too_large : Damage

pub data PushResult : Type 0 where
  partial : PushResult
  message : List ℕ → PushResult
  damaged : Damage → PushResult

pub record Reassembler : Type 0 where
  pub parts : List (List ℕ)
  pub size : ℕ
  pub next : ℕ
  pub is_open : Bool

-- The state that `reset` leaves, which is also the first one.
abbrev pub reset : Reassembler
reset = record { parts = []; size = 0; next = 0; is_open = false }

-- The end of `push`, once the header is accepted.
pub join : ℕ → Bool → List ℕ → Reassembler → Reassembler × PushResult
join seq last slice r =
    let size = r.size + length slice in
    let parts = r.parts ++ slice ∷ [] in
    if ltb max_message_bytes size
    then (reset, damaged too_large)
    else if last
    then (reset, message (concat parts))
    else (record r { parts = parts; size = size; next = bit_and (seq + 1) 0x0f }, partial)

abbrev pub is_set : ℕ → ℕ → Bool
is_set value mask = not (bit_and value mask == 0)

abbrev pub sequence_of : ℕ → ℕ
sequence_of value = bit_and (value / 16) 0x0f

pub push : Frame → Reassembler → Reassembler × PushResult
push [] r = (reset, damaged empty)
push (h ∷ slice) r =
    if is_set h 0x0c
    then (reset, damaged reserved_bits)
    else if is_set h first_bit
    then (if not (sequence_of h == 0)
        then (reset, damaged out_of_sequence)
        else join (sequence_of h) (is_set h last_bit) slice (record reset { is_open = true }))
    else if not r.is_open
    then (r, damaged no_start)
    else if not (sequence_of h == r.next)
    then (reset, damaged out_of_sequence)
    else join (sequence_of h) (is_set h last_bit) slice r
