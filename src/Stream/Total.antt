-- ===== src/Stream/Total.antt =====
-- Small arrays never make the operations of CELLStream leave the block.
use cpp_network_obj.Base.{
  ℕ, zero, suc, ◌+◌, ◌*◌, ◌≤◌, ◌<◌, ◌^◌, ◌≡◌, refl, ap, Bool, true, false, some, List, [], length,
  drop, slice, le_encode, length-le_encode, length-overwrite, to_int_small, leb_ℤ, sub_ℕ, to_int,
  room-leb_ℤ, leb→le, le→leb, overwrite, arith, Bool-cases, inl, inr, leb,
}
use cpp_network_obj.Stream.{
  CellStream, pop, write, write_array, read_array, read_or, only_read, encode_array, decode_array,
  peek_count,
}
use cpp_network_obj.Stream.Written.{length-encode_array, write_array_lem, put}

length-decode_array : (w n : ℕ) (bytes : List ℕ) → length (decode_array w n bytes) ≡ n
unfolding decode_array
length-decode_array w zero bytes = refl
length-decode_array w (suc n) bytes = ap suc (length-decode_array w n (drop w bytes))

-- The stream stays inside its block.
abbrev pub InBlock : CellStream → Type 0
InBlock s = s.size ≤ length s.mem

pub read_or-InBlock : (w d : ℕ) (s : CellStream) → InBlock s → InBlock (read_or w d s).1
unfolding read_or
read_or-InBlock w d s h = ground arith

pub read_array-total :
    (w len : ℕ) (s : CellStream)
    → InBlock s
    → len * w + 4 < 2 ^ 31
    → (xs : List ℕ) × (s' : CellStream) × (read_array w len s ≡ some (xs, s'))
      × InBlock s'
      × (length xs ≤ len)
unfolding read_array
read_array-total w len s h small = elim (Bool-cases (leb (peek_count s) len)) [
  | inr e ↦ ([], s, rw e, h, omega arith)
  | inl e ↦ elim (Bool-cases (leb_ℤ (to_int (peek_count s * w + 4)) (sub_ℕ s.size s.read_pos))) [
    | inr e' ↦ ([], s, rw e (rw e'), h, omega arith)
    | inl e' ↦
        let n = peek_count s in
        let few : n ≤ len = leb→le n len e in
        let fits : n * w ≤ len * w = grind arith in
        let cast = to_int_small (n * w + 4) (omega arith) in
        let room : s.read_pos + (n * w + 4) ≤ s.size =
          room-leb_ℤ (n * w + 4) s.size s.read_pos (rw cast at e') in
        (
          decode_array w n (slice (s.read_pos + 4) (n * w) s.mem),
          pop (pop s 4) (n * w),
          rw e (rw e' (rw (le→leb (s.read_pos + 4 + n * w) (length s.mem) (omega arith)))),
          h,
          omega (arith, length-decode_array w n (slice (s.read_pos + 4) (n * w) s.mem)),
        )
  ]
]

write_array_none :
    (w : ℕ) (xs : List ℕ) (s : CellStream)
    → leb_ℤ (to_int (w * length xs + 4)) (sub_ℕ s.size s.write_pos) ≡ false
    → write_array w xs s ≡ some (false, s)
unfolding write_array
write_array_none w xs s e = rw e

pub write_array-total :
    (w : ℕ) (xs : List ℕ) (s : CellStream)
    → length s.mem ≡ s.size
    → w * length xs + 4 < 2 ^ 31
    → (ok : Bool) × (s' : CellStream) × (write_array w xs s ≡ some (ok, s'))
      × (length s'.mem ≡ s'.size)
write_array-total w xs s h small =
    elim (Bool-cases (leb_ℤ (to_int (w * length xs + 4)) (sub_ℕ s.size s.write_pos))) [
      | inr e ↦ (false, s, write_array_none w xs s e, h)
      | inl e ↦
          let n = w * length xs in
          let room : s.write_pos + (n + 4) ≤ s.size =
            room-leb_ℤ (n + 4) s.size s.write_pos (rw (to_int_small (n + 4) small) at e) in
          (
            true,
            put (put s (le_encode 4 (length xs))) (encode_array w xs),
            write_array_lem w xs s h (omega arith) small,
            omega (
              arith,
              length-overwrite s.write_pos (le_encode 4 (length xs)) s.mem,
              length-le_encode 4 (length xs),
              length-encode_array w xs,
              length-overwrite (s.write_pos + length (le_encode 4 (length xs))) (encode_array w xs)
                  (overwrite s.write_pos (le_encode 4 (length xs)) s.mem),
            ),
          )
    ]

pub write-block :
    (w v : ℕ) (s : CellStream)
    → length s.mem ≡ s.size
    → length (write w v s).1.mem ≡ (write w v s).1.size
unfolding write
write-block w v s h =
    ground (arith, length-overwrite s.write_pos (le_encode w v) s.mem, length-le_encode w v)

pub only_read-same : (w : ℕ) (s : CellStream) → (only_read w s).1 ≡ s
unfolding only_read
only_read-same w s = ground arith
