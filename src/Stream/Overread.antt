-- ===== src/Stream/Overread.antt =====
-- ReadString and a length field near the end of its range.
use cpp_network_obj.Base.{
  ℕ, ◌+◌, ◌≤◌, ◌<◌, ◌^◌, ◌≡◌, none, List, length, le_encode, to_int, negsuc, ◌-◌, arith, lt→ltb,
}
use cpp_network_obj.Stream.{CellStream, read_string}
use cpp_network_obj.Stream.Unread.{Holds, peek_count_lem}

to_int_wrapped : (n : ℕ) → 2 ^ 31 ≤ n → n < 2 ^ 32 → to_int n ≡ negsuc (2 ^ 32 - n - 1)
to_int_wrapped n h k = ground arith

-- The sum of a length between 2 ^ 31 - 4 and 2 ^ 32 - 5 and the four bytes of the length field
-- becomes negative as an `int`, so that canRead says yes: ReadString copies from outside the block.
pub read_string_overread :
    (n : ℕ) (str : List ℕ) {s : CellStream} {rest : List ℕ}
    → 2 ^ 31 ≤ n + 4
    → n + 4 < 2 ^ 32
    → length s.mem < 2 ^ 31 - 4
    → Holds s (le_encode 4 n) rest
    → read_string str s ≡ none
unfolding read_string
read_string_overread n str {s} {rest} low high small h =
    rw (peek_count_lem n (omega arith) h, lt→ltb 0 n (omega arith), to_int_wrapped (n + 4) low high)
      (ground (arith, h.block, h.inside))
