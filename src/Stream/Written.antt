-- ===== src/Stream/Written.antt =====
-- What the write operations of CELLStream append to the bytes written before.
use cpp_network_obj.Base.{
  ℕ, ◌+◌, ◌*◌, ◌≤◌, ◌<◌, ◌^◌, ◌≡◌, refl, ap, ◌∙◌, true, false, some, List, [], ◌∷◌, ◌++◌, length,
  take, overwrite, take-overwrite, length-overwrite, le_encode, length-le_encode, length-append,
  append_assoc, arith, to_int_small, leb_ℤ-room,
}
use cpp_network_obj.Stream.{CellStream, write, write_array, encode_array}

pub record IsValid (s : CellStream) : Type 0 where
  pub block : length s.mem ≡ s.size
  pub written_in : s.write_pos ≤ s.size
  pub read_in : s.read_pos ≤ s.size

-- The bytes written so far.
abbrev pub written : CellStream → List ℕ
written s = take s.write_pos s.mem

-- `s'` is `s` with the bytes written behind.
pub record Wrote (s : CellStream) (bytes : List ℕ) (s' : CellStream) : Type 0 where
  pub valid : IsValid s'
  pub appended : written s' ≡ written s ++ bytes
  pub moved : s'.write_pos ≡ s.write_pos + length bytes
  pub same_size : s'.size ≡ s.size
  pub same_read : s'.read_pos ≡ s.read_pos

-- A copy to the write position.
abbrev pub put : CellStream → List ℕ → CellStream
put s bytes = record s {
  mem = overwrite s.write_pos bytes s.mem;
  write_pos = s.write_pos + length bytes;
}

pub put-Wrote :
    (s : CellStream) (bytes : List ℕ)
    → IsValid s
    → s.write_pos + length bytes ≤ s.size
    → Wrote s bytes (put s bytes)
put-Wrote s bytes v h = record {
  valid = omega (arith, length-overwrite s.write_pos bytes s.mem);
  appended = take-overwrite s.write_pos bytes s.mem (omega arith);
  moved = refl;
  same_size = refl;
  same_read = refl;
}

pub Wrote-trans :
    {s s' s'' : CellStream} {b b' : List ℕ} → Wrote s b s' → Wrote s' b' s'' → Wrote s (b ++ b') s''
Wrote-trans {s} {s'} {s''} {b} {b'} p q = record {
  valid = q.valid;
  appended = q.appended ∙ ap (λ l. l ++ b') p.appended ∙ append_assoc (written s) b b';
  moved = omega (arith, p.moved, q.moved, length-append b b');
  same_size = q.same_size ∙ p.same_size;
  same_read = q.same_read ∙ p.same_read;
}

pub length-encode_array : (w : ℕ) (xs : List ℕ) → length (encode_array w xs) ≡ w * length xs
unfolding encode_array
length-encode_array w [] = omega arith
length-encode_array w (x ∷ xs) = grind (
  arith,
  length-append (le_encode w x) (encode_array w xs),
  length-le_encode w x,
  length-encode_array w xs,
)

-- Where there is room, Write appends the bytes of the value.
pub write_lem :
    (w v : ℕ) (s : CellStream)
    → s.write_pos + w ≤ s.size
    → write w v s ≡ (true, put s (le_encode w v))
unfolding write
write_lem w v s h = ground (arith, length-le_encode w v)

-- Where there is none, it changes nothing.
pub write_full : (w v : ℕ) (s : CellStream) → s.size < s.write_pos + w → write w v s ≡ (false, s)
unfolding write
write_full w v s h = ground arith

-- Where there is room for the count and the elements, WriteArray appends them.
pub write_array_lem :
    (w : ℕ) (xs : List ℕ) (s : CellStream)
    → length s.mem ≡ s.size
    → s.write_pos + (4 + w * length xs) ≤ s.size
    → w * length xs + 4 < 2 ^ 31
    → write_array w xs s ≡ some (true, put (put s (le_encode 4 (length xs))) (encode_array w xs))
unfolding write_array
write_array_lem w xs s v h small =
    rw
      (
        to_int_small (w * length xs + 4) (omega arith),
        leb_ℤ-room (w * length xs + 4) s.size s.write_pos (omega arith),
        leb_ℤ-room 4 s.size s.write_pos (omega arith),
      )
      (ground (
        arith,
        length-le_encode 4 (length xs),
        length-encode_array w xs,
        length-overwrite s.write_pos (le_encode 4 (length xs)) s.mem,
      ))

pub write-Wrote :
    (w v : ℕ) (s : CellStream)
    → IsValid s
    → s.write_pos + w ≤ s.size
    → Wrote s (le_encode w v) (put s (le_encode w v))
write-Wrote w v s i h = put-Wrote s (le_encode w v) i (omega (arith, length-le_encode w v))

pub write_array-Wrote :
    (w : ℕ) (xs : List ℕ) (s : CellStream)
    → IsValid s
    → s.write_pos + (4 + w * length xs) ≤ s.size
    → Wrote s
        (le_encode 4 (length xs) ++ encode_array w xs)
        (put (put s (le_encode 4 (length xs))) (encode_array w xs))
write_array-Wrote w xs s i h =
    let first = write-Wrote 4 (length xs) s i (omega arith) in
    Wrote-trans first (
      put-Wrote _ (encode_array w xs) first.valid
        (omega (arith, length-encode_array w xs, length-le_encode 4 (length xs))))
