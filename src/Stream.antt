-- ===== src/Stream.antt =====
-- depends/include/CELLStream.hpp: typed values in a block of bytes. A value of type T is the
-- unsigned number of its sizeof(T) bytes; a float or a double is its bit pattern.
pub mod Written
pub mod Unread
pub mod Fields
pub mod Overread
pub mod Total
use cpp_network_obj.Base.{
  ℕ, zero, suc, ◌+◌, ◌*◌, Bool, true, false, Option, none, some, List, [], ◌∷◌, ◌++◌, ℤ, pos,
  length, take, drop, slice, overwrite, le_encode, le_decode, leb, ltb, leb_ℤ, sub_ℕ, to_int,
  if◌then◌else◌,
}

pub record CellStream : Type 0 where
  pub mem : List ℕ
  pub size : ℕ
  pub write_pos : ℕ
  pub read_pos : ℕ
  pub owned : Bool

-- CELLStream(pData, nSize, bDelete)
unfoldable pub create_over : List ℕ → ℕ → Bool → CellStream
create_over chars n owned = record {
  mem = chars;
  size = n;
  write_pos = 0;
  read_pos = 0;
  owned = owned;
}

-- CELLStream(nSize), over the bytes of `new char[nSize]`, which are not set.
unfoldable pub create : ℕ → List ℕ → CellStream
create n raw = record { mem = raw; size = n; write_pos = 0; read_pos = 0; owned = true }

abbrev pub can_read : CellStream → ℤ → Bool
can_read s n = leb_ℤ n (sub_ℕ s.size s.read_pos)

abbrev pub can_write : CellStream → ℤ → Bool
can_write s n = leb_ℤ n (sub_ℕ s.size s.write_pos)

abbrev pub push : CellStream → ℕ → CellStream
push s n = record s { write_pos = s.write_pos + n }

abbrev pub pop : CellStream → ℕ → CellStream
pop s n = record s { read_pos = s.read_pos + n }

abbrev pub set_write_pos : CellStream → ℕ → CellStream
set_write_pos s n = record s { write_pos = n }

-- Read<T>(n, bOffset), at sizeof(T) = w: the value, or `none` where it returns false.
unfoldable pub read : ℕ → Bool → CellStream → Option ℕ × CellStream
read w offset s =
    if can_read s (pos w)
    then (some (le_decode (slice s.read_pos w s.mem)), if offset then pop s w else s)
    else (none, s)

abbrev pub or_default : Option ℕ → ℕ → ℕ
or_default none d = d
or_default (some v) d = v

-- onlyRead
unfoldable pub only_read : ℕ → CellStream → Option ℕ × CellStream
unfolding read
only_read w s = read w false s

-- ReadInt8 to ReadDouble: the default stays where nothing can be read.
unfoldable pub read_or : ℕ → ℕ → CellStream → ℕ × CellStream
unfolding read
read_or w d s = let (v, s') = read w true s in (or_default v d, s')

-- The elements of an array in memory.
unfoldable pub decode_array : ℕ → ℕ → List ℕ → List ℕ
decode_array w zero bytes = []
decode_array w (suc n) bytes = le_decode (take w bytes) ∷ decode_array w n (drop w bytes)

unfoldable pub encode_array : ℕ → List ℕ → List ℕ
encode_array w [] = []
encode_array w (x ∷ xs) = le_encode w x ++ encode_array w xs

-- The uint32_t at the read position, which is not moved; 0 where it cannot be read.
abbrev pub peek_count : CellStream → ℕ
peek_count s = or_default (only_read 4 s).0 0

-- ReadArray(pArr, len), with the elements that it stores: their number is what it returns. `none`
-- where the copy leaves the block.
unfoldable pub read_array : ℕ → ℕ → CellStream → Option (List ℕ × CellStream)
read_array w len s =
    let n = peek_count s in
    if leb n len
    then (if can_read s (to_int (n * w + 4))
        then (if leb (s.read_pos + 4 + n * w) (length s.mem)
            then some
                (decode_array w n (slice (s.read_pos + 4) (n * w) s.mem), pop (pop s 4) (n * w))
            else none)
        else some ([], s))
    else some ([], s)

-- ReadString(str), which inserts at the front of `str`.
unfoldable pub read_string : List ℕ → CellStream → Option (Bool × List ℕ × CellStream)
read_string str s =
    let n = peek_count s in
    if ltb 0 n
    then (if can_read s (to_int (n + 4))
        then (if leb (s.read_pos + 4 + n) (length s.mem)
            then some (true, slice (s.read_pos + 4) n s.mem ++ str, pop (pop s 4) n)
            else none)
        else some (false, str, s))
    else some (false, str, s)

-- Write<T>(n), at sizeof(T) = w.
unfoldable pub write : ℕ → ℕ → CellStream → Bool × CellStream
write w v s =
    if can_write s (pos w)
    then (true, push (record s { mem = overwrite s.write_pos (le_encode w v) s.mem }) w)
    else (false, s)

-- WriteArray(pData, len): the result of the Write of the count is not looked at. `none` where the
-- copy leaves the block.
unfoldable pub write_array : ℕ → List ℕ → CellStream → Option (Bool × CellStream)
unfolding write
write_array w xs s =
    let n = w * length xs in
    if can_write s (to_int (n + 4))
    then (let s' = (write 4 (length xs) s).1 in
        if leb (s'.write_pos + n) (length s'.mem)
        then some
            (true, push (record s' { mem = overwrite s'.write_pos (encode_array w xs) s'.mem }) n)
        else none)
    else some (false, s)
