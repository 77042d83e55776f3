-- ===== src/Buffer/Framing.antt =====
-- When a CELLBuffer holds a complete message, told from the bytes in use alone.
use cpp_network_obj.Base.{
  ℕ, ◌≤◌, ◌<◌, ◌≡◌, ap, ◌∙◌, Bool, true, false, List, ◌++◌, length, take, take-take, take-append_le,
  length-append, le_decode, leb, if◌then◌else◌, arith,
}
use cpp_network_obj.Message.{data_length}
use cpp_network_obj.Buffer.{CellBuffer, contents, has_msg}
use cpp_network_obj.Buffer.Invariant.{IsValid}
use cpp_network_obj.Buffer.Queue.{length-contents}

-- The bytes begin with a whole message.
unfoldable pub is_ready : List ℕ → Bool
is_ready q = if leb 4 (length q) then leb (data_length q) (length q) else false

-- A message as a sender makes it: its length field is its length.
abbrev pub IsFramed : List ℕ → Type 0
IsFramed m = (4 ≤ length m) × (data_length m ≡ length m)

pub data_length-take : (n : ℕ) (mem : List ℕ) → 4 ≤ n → data_length (take n mem) ≡ data_length mem
unfolding data_length
data_length-take n mem h = ap le_decode (take-take 2 n mem (omega arith))

pub data_length-append : (p q : List ℕ) → 4 ≤ length p → data_length (p ++ q) ≡ data_length p
unfolding data_length
data_length-append p q h = ap le_decode (take-append_le 2 p q (omega arith))

-- hasMsg asks whether the bytes in use begin with a whole message.
pub has_msg-is_ready : {b : CellBuffer} → IsValid b → has_msg b ≡ is_ready (contents b)
unfolding has_msg is_ready
has_msg-is_ready {b} v = ground (arith, length-contents v, data_length-take b.last b.mem)

pub is_ready-framed : (m q : List ℕ) → IsFramed m → is_ready (m ++ q) ≡ true
unfolding is_ready
is_ready-framed m q (long, e) = ground (arith, length-append m q, data_length-append m q)

pub data_length-framed : (m q : List ℕ) → IsFramed m → data_length (m ++ q) ≡ length m
data_length-framed m q (long, e) = data_length-append m q long ∙ e

pub is_ready-prefix : (p q : List ℕ) → is_ready (p ++ q) ≡ false → is_ready p ≡ false
unfolding is_ready
is_ready-prefix p q h = ground (arith, length-append p q, data_length-append p q)

-- A proper prefix of a message is no message.
pub is_ready-short :
    (p q : List ℕ) → IsFramed (p ++ q) → length p < length (p ++ q) → is_ready p ≡ false
unfolding is_ready
is_ready-short p q f h = ground (arith, f.1, data_length-append p q)
