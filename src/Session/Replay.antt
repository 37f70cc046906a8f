-- ===== src/Session/Replay.antt =====
-- The replay window and the packet numbers of internal/session/replay.go. Each method that
-- changes its receiver returns the new record; an `error` result is an `Option`, `none` for nil.
-- The mutex of each object makes a method one step.
pub mod Shift
pub mod Marks
pub mod History
pub mod Window
pub mod Once
pub mod Numbers
use Prim.Native.Nat.{bit_and, bit_or}
use wg.Prelude.{
  ℕ, zero, suc, ◌+◌, ◌-◌, ◌*◌, ◌/◌, ◌%◌, ◌^◌, Bool, true, false, not, ◌&&◌, ◌||◌, Option, none,
  some, List, ltb, leb, ◌==◌, if◌then◌else◌, get_or, set, replicate,
}

abbrev pub replay_window_size : ℕ
replay_window_size = 2048

abbrev pub replay_word_bits : ℕ
replay_word_bits = 64

abbrev pub replay_word_count : ℕ
replay_word_count = 32

abbrev pub max_uint64 : ℕ
max_uint64 = 2 ^ 64 - 1

-- The allocator of outgoing packet numbers.
pub record PacketNumbers : Type 0 where
  pub next : ℕ  -- uint64
  pub exhausted : Bool

pub data NextResult : Type 0 where
  number : ℕ → NextResult
  packet_number_exhausted : NextResult

unfoldable pub new_packet_numbers : ℕ → PacketNumbers
new_packet_numbers first = record { next = first; exhausted = false }

unfoldable pub next_number : PacketNumbers → PacketNumbers × NextResult
next_number p =
    if p.exhausted
    then (p, packet_number_exhausted)
    else if p.next == max_uint64
    then (record p { exhausted = true }, number p.next)
    else (record p { next = p.next + 1 }, number p.next)

-- The errors of the window, with the fields of `ReplayError`.
pub data ReplayKind : Type 0 where
  replay_duplicate replay_too_old : ReplayKind

pub record ReplayError : Type 0 where
  pub kind : ReplayKind
  pub packet_number : ℕ
  pub highest : ℕ

-- `bitmap` is the array of `replay_word_count` words, each a uint64.
pub record ReplayWindow : Type 0 where
  pub initialized : Bool
  pub highest : ℕ  -- uint64
  pub bitmap : List ℕ

-- The zero value, with which a window starts.
unfoldable pub zero_window : ReplayWindow
zero_window = record { initialized = false; highest = 0; bitmap = replicate replay_word_count 0 }

-- Where `-` is used its right side is not the larger, so it is exact.
unfoldable pub precheck : ReplayWindow → ℕ → Bool
precheck w pn =
    if not w.initialized || ltb w.highest pn then true else ltb (w.highest - pn) replay_window_size

-- One word of the shifted bitmap: `previous[source] << partialBits`, cut to 64 bits, with the
-- digits that come up from the word below.
unfoldable pub shifted_word : List ℕ → ℕ → ℕ → ℕ
shifted_word previous partial_bits source =
    let value = get_or previous source 0 * 2 ^ partial_bits % 2 ^ 64 in
    if not (partial_bits == 0) && ltb 0 source
    then bit_or value (get_or previous (source - 1) 0 / 2 ^ (replay_word_bits - partial_bits))
    else value

-- The body of the loop of `shiftLocked`, for one destination.
unfoldable pub shift_word : List ℕ → ℕ → ℕ → ℕ → List ℕ → List ℕ
shift_word previous whole_words partial_bits destination bitmap =
    if ltb destination whole_words
    then bitmap
    else set bitmap destination (shifted_word previous partial_bits (destination - whole_words))

-- The loop runs downwards: `n` destinations are left, the next is `n - 1`.
unfoldable pub shift_loop : List ℕ → ℕ → ℕ → ℕ → List ℕ → List ℕ
shift_loop previous whole_words partial_bits zero bitmap = bitmap
shift_loop previous whole_words partial_bits (suc n) bitmap =
    shift_loop previous whole_words partial_bits n
      (shift_word previous whole_words partial_bits n bitmap)

unfoldable pub shift_locked : List ℕ → ℕ → List ℕ
shift_locked bitmap advance =
    if leb replay_window_size advance
    then replicate replay_word_count 0
    else shift_loop bitmap (advance / replay_word_bits) (advance % replay_word_bits)
        replay_word_count (replicate replay_word_count 0)

-- `w.bitmap[word] |= mask`
unfoldable pub set_bit : List ℕ → ℕ → ℕ → List ℕ
set_bit bitmap word mask = set bitmap word (bit_or (get_or bitmap word 0) mask)

unfoldable pub accept_authenticated : ReplayWindow → ℕ → ReplayWindow × Option ReplayError
accept_authenticated w pn =
    if not w.initialized
    then (record { initialized = true; highest = pn; bitmap = set w.bitmap 0 1 }, none)
    else if ltb w.highest pn
    then (
      record w { highest = pn; bitmap = set_bit (shift_locked w.bitmap (pn - w.highest)) 0 1 },
      none,
    )
    else (let delta = w.highest - pn in
        let word = delta / replay_word_bits in
        let mask = 2 ^ (delta % replay_word_bits) in
        if leb replay_window_size delta
        then (w, some (record { kind = replay_too_old; packet_number = pn; highest = w.highest }))
        else if not (bit_and (get_or w.bitmap word 0) mask == 0)
        then (w, some (record { kind = replay_duplicate; packet_number = pn; highest = w.highest }))
        else (record w { bitmap = set_bit w.bitmap word mask }, none))
