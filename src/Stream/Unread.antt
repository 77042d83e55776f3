-- ===== src/Stream/Unread.antt =====
-- What the read operations of CELLStream take from the bytes not read yet.
use native.Mathlib.Nat.{mul_comm}
use cpp_network_obj.Base.{
  ℕ, ◌+◌, ◌*◌, ◌≤◌, ◌<◌, ◌^◌, ◌≡◌, refl, ap, ap₂, sym, ◌∙◌, Bool, false, some, List, [], ◌∷◌, ◌++◌,
  All, length, take, drop, slice, le_encode, le_decode, length-le_encode, le_decode-le_encode,
  length-append, append_assoc, arith, to_int_small, leb_ℤ-room, if◌then◌else◌, take-append_eq,
  drop-append_eq, drop-drop, le→leb,
}
use cpp_network_obj.Stream.{
  CellStream, read, only_read, read_array, encode_array, decode_array, peek_count, or_default, pop,
}
use cpp_network_obj.Stream.Written.{length-encode_array}

-- The bytes from the read position on are `bytes` and then `rest`; the stream ends no sooner than
-- `bytes`, and its block of memory no sooner than the stream.
pub record Holds (s : CellStream) (bytes rest : List ℕ) : Type 0 where
  pub block : s.size ≤ length s.mem
  pub inside : s.read_pos + length bytes ≤ s.size
  pub next : drop s.read_pos s.mem ≡ bytes ++ rest

pub Holds-slice :
    {s : CellStream} {bytes rest : List ℕ} (n : ℕ)
    → Holds s bytes rest
    → n ≡ length bytes
    → slice s.read_pos n s.mem ≡ bytes
Holds-slice {s} {bytes} {rest} n h e = ap (take n) h.next ∙ take-append_eq n bytes rest e

pub Holds-first :
    {s : CellStream} {rest : List ℕ} (b b' : List ℕ)
    → Holds s (b ++ b') rest
    → Holds s b (b' ++ rest)
Holds-first b b' h = record {
  block = h.block;
  inside = omega (arith, h.inside, length-append b b');
  next = h.next ∙ append_assoc b b' _;
}

-- Past the first part.
pub Holds-next :
    {s : CellStream} {rest : List ℕ} (b b' : List ℕ) (n : ℕ)
    → Holds s (b ++ b') rest
    → n ≡ length b
    → Holds (pop s n) b' rest
Holds-next {s} {rest} b b' n h e = record {
  block = h.block;
  inside = omega (arith, h.inside, length-append b b');
  next =
      sym (drop-drop s.read_pos n s.mem)
      ∙ ap (drop n) (h.next ∙ append_assoc b b' rest)
      ∙ drop-append_eq n b (b' ++ rest) e;
}

-- A value that was written is read back, and the read position moves behind it.
pub read_lem :
    (w v : ℕ) (offset : Bool) {s : CellStream} {rest : List ℕ}
    → v < 256 ^ w
    → Holds s (le_encode w v) rest
    → read w offset s ≡ (some v, if offset then pop s w else s)
unfolding read
read_lem w v offset {s} {rest} small h =
    rw (leb_ℤ-room w s.size s.read_pos (omega (arith, h.inside, length-le_encode w v))) (
      ap (λ x. (some x, if offset then pop s w else s))
        (ap le_decode (Holds-slice w h (sym (length-le_encode w v)))
          ∙ le_decode-le_encode w v small))

pub decode_array-encode_array :
    (w : ℕ) (xs : List ℕ)
    → All (λ x. x < 256 ^ w) xs
    → decode_array w (length xs) (encode_array w xs) ≡ xs
unfolding decode_array encode_array
decode_array-encode_array w [] h = refl
decode_array-encode_array w (x ∷ xs) (h, hs) =
    ap₂ ◌∷◌
      (ap le_decode
          (take-append_eq w (le_encode w x) (encode_array w xs) (sym (length-le_encode w x)))
        ∙ le_decode-le_encode w x h)
      (ap (decode_array w (length xs))
          (drop-append_eq w (le_encode w x) (encode_array w xs) (sym (length-le_encode w x)))
        ∙ decode_array-encode_array w xs hs)

-- onlyRead and the counts that ReadArray and ReadString look at.
pub peek_count_lem :
    (n : ℕ) {s : CellStream} {rest : List ℕ}
    → n < 2 ^ 32
    → Holds s (le_encode 4 n) rest
    → peek_count s ≡ n
unfolding only_read
peek_count_lem n small h = ap (λ r. or_default r.0 0) (read_lem 4 n false small h)

-- An array that was written is read back.
pub read_array_lem :
    (w len : ℕ) (xs : List ℕ) {s : CellStream} {rest : List ℕ}
    → All (λ x. x < 256 ^ w) xs
    → length xs ≤ len
    → len < 2 ^ 32
    → s.size < 2 ^ 31
    → Holds s (le_encode 4 (length xs) ++ encode_array w xs) rest
    → read_array w len s ≡ some (xs, pop (pop s 4) (length xs * w))
unfolding read_array
read_array_lem w len xs {s} {rest} small fits len_small bound h =
    let n = length xs in
    let bytes = le_encode 4 n ++ encode_array w xs in
    let commuted : n * w ≡ length (encode_array w xs) =
      mul_comm n w ∙ sym (length-encode_array w xs) in
    let room : s.read_pos + 4 + n * w ≤ s.size = omega (
      arith,
      h.inside,
      length-append (le_encode 4 n) (encode_array w xs),
      length-le_encode 4 n,
      commuted,
    ) in
    let copied : slice (s.read_pos + 4) (n * w) s.mem ≡ encode_array w xs =
      Holds-slice (n * w)
        (Holds-next (le_encode 4 n) (encode_array w xs) 4 h (sym (length-le_encode 4 n)))
        commuted in
    rw (
      peek_count_lem n (omega arith) (Holds-first (le_encode 4 n) (encode_array w xs) h),
      le→leb n len fits,
      to_int_small (n * w + 4) (omega arith),
      leb_ℤ-room (n * w + 4) s.size s.read_pos (omega arith),
      le→leb (s.read_pos + 4 + n * w) (length s.mem) (omega (arith, h.block)),
      copied,
      decode_array-encode_array w xs small,
    )
