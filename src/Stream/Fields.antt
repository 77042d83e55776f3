-- ===== src/Stream/Fields.antt =====
-- Sequences of typed fields, written to a CELLStream and read back.
use native.Mathlib.Nat.{mul_comm}
use cpp_network_obj.Base.{
  ℕ, ◌+◌, ◌*◌, ◌≤◌, ◌<◌, ◌^◌, ◌≡◌, refl, ap, sym, subst, ◌∙◌, Bool, true, ◌&&◌, Option, some, List,
  [], ◌∷◌, ◌++◌, All, length, drop, le_encode, length-append, length-take, take-append-drop,
  drop-append_eq, length-le_encode, append-nil, append_assoc, ◌>>=◌, arith,
}
use cpp_network_obj.Stream.{CellStream, write, write_array, read_or, read_array, encode_array, pop}
use cpp_network_obj.Stream.Written.{
  IsValid, Wrote, Wrote-trans, written, put, write_lem, write_array_lem, write-Wrote,
  write_array-Wrote, length-encode_array,
}
use cpp_network_obj.Stream.Unread.{Holds, Holds-next, Holds-first, read_lem, read_array_lem}

pub data Field : Type 0 where
  scalar : (w v : ℕ) → Field
  array : (w : ℕ) (xs : List ℕ) → Field

-- What a reader asks for: a value of `w` bytes, or at most `len` elements of `w` bytes.
pub data Shape : Type 0 where
  a_scalar : (w : ℕ) → Shape
  an_array : (w len : ℕ) → Shape

unfoldable pub encode : Field → List ℕ
encode (scalar w v) = le_encode w v
encode (array w xs) = le_encode 4 (length xs) ++ encode_array w xs

unfoldable pub encode_all : List Field → List ℕ
encode_all [] = []
encode_all (f ∷ fs) = encode f ++ encode_all fs

unfoldable pub write_field : Field → CellStream → Option (Bool × CellStream)
write_field (scalar w v) s = some (write w v s)
write_field (array w xs) s = write_array w xs s

unfoldable pub write_fields : List Field → CellStream → Option (Bool × CellStream)
unfolding write_field
write_fields [] s = some (true, s)
write_fields (f ∷ fs) s =
    write_field f s >>= λ (ok, s'). write_fields fs s' >>= λ (oks, s''). some (ok && oks, s'')

unfoldable pub read_field : Shape → CellStream → Option (Field × CellStream)
read_field (a_scalar w) s = let (v, s') = read_or w 0 s in some (scalar w v, s')
read_field (an_array w len) s = read_array w len s >>= λ (xs, s'). some (array w xs, s')

unfoldable pub read_fields : List Shape → CellStream → Option (List Field × CellStream)
unfolding read_field
read_fields [] s = some ([], s)
read_fields (k ∷ ks) s =
    read_field k s >>= λ (f, s'). read_fields ks s' >>= λ (fs, s''). some (f ∷ fs, s'')

-- The field has a value of its width, and the reader asks for one of that kind and has room for it.
pub data Fits : Field → Shape → Type 0 where
  fits_scalar : (w v : ℕ) → v < 256 ^ w → Fits (scalar w v) (a_scalar w)
  fits_array :
      (w len : ℕ) (xs : List ℕ)
      → All (λ x. x < 256 ^ w) xs
      → length xs ≤ len
      → len < 2 ^ 32
      → Fits (array w xs) (an_array w len)

pub data FitAll : List Field → List Shape → Type 0 where
  fit_none : FitAll [] []
  fit_more :
      {f : Field} {k : Shape} {fs : List Field} {ks : List Shape}
      → Fits f k
      → FitAll fs ks
      → FitAll (f ∷ fs) (k ∷ ks)

-- After a write of one field into enough room.
write_field-Wrote :
    (f : Field) (s : CellStream)
    → IsValid s
    → s.size < 2 ^ 31
    → s.write_pos + length (encode f) ≤ s.size
    → (s' : CellStream) × (write_field f s ≡ some (true, s')) × Wrote s (encode f) s'
unfolding encode write_field
write_field-Wrote (scalar w v) s i small room =
    let room' : s.write_pos + w ≤ s.size = omega (arith, room, length-le_encode w v) in
    (put s (le_encode w v), ap some (write_lem w v s room'), write-Wrote w v s i room')
write_field-Wrote (array w xs) s i small room =
    let room' : s.write_pos + (4 + w * length xs) ≤ s.size = omega (
      arith,
      room,
      length-append (le_encode 4 (length xs)) (encode_array w xs),
      length-le_encode 4 (length xs),
      length-encode_array w xs,
    ) in
    (
      put (put s (le_encode 4 (length xs))) (encode_array w xs),
      write_array_lem w xs s i.block room' (omega arith),
      write_array-Wrote w xs s i room',
    )

pub write_fields-Wrote :
    (fs : List Field) (s : CellStream)
    → IsValid s
    → s.size < 2 ^ 31
    → s.write_pos + length (encode_all fs) ≤ s.size
    → (s' : CellStream) × (write_fields fs s ≡ some (true, s')) × Wrote s (encode_all fs) s'
unfolding encode_all write_fields
write_fields-Wrote [] s i small room = (
  s,
  refl,
  record {
    valid = i;
    appended = sym (append-nil (written s));
    moved = omega arith;
    same_size = refl;
    same_read = refl;
  },
)
write_fields-Wrote (f ∷ fs) s i small room =
    let (s', e, p) =
      write_field-Wrote f s i small
        (omega (arith, room, length-append (encode f) (encode_all fs))) in
    let (s'', e', q) =
      write_fields-Wrote fs s' p.valid (omega (arith, p.same_size))
        (omega (arith, room, p.moved, p.same_size, length-append (encode f) (encode_all fs))) in
    (s'', rw e (rw e'), Wrote-trans p q)

-- After a read of one field that the stream holds.
read_field-Holds :
    {f : Field} {k : Shape} (s : CellStream) (rest : List ℕ)
    → Fits f k
    → s.size < 2 ^ 31
    → Holds s (encode f) rest
    → (s' : CellStream) × (read_field k s ≡ some (f, s')) × (s' ≡ pop s (length (encode f)))
unfolding encode read_field read_or
read_field-Holds s rest (fits_scalar w v fit) small h =
    (pop s w, rw (read_lem w v true fit h), ap (pop s) (sym (length-le_encode w v)))
read_field-Holds s rest (fits_array w len xs fit room bound) small h = (
  pop (pop s 4) (length xs * w),
  rw (read_array_lem w len xs fit room bound small h),
  ap (λ n. record s { read_pos = n })
      (omega (
        arith,
        length-append (le_encode 4 (length xs)) (encode_array w xs),
        length-le_encode 4 (length xs),
        length-encode_array w xs,
        mul_comm (length xs) w,
      )),
)

pub read_fields-Holds :
    {fs : List Field} {ks : List Shape} (s : CellStream) (rest : List ℕ)
    → FitAll fs ks
    → s.size < 2 ^ 31
    → Holds s (encode_all fs) rest
    → read_fields ks s ≡ some (fs, pop s (length (encode_all fs)))
unfolding encode_all read_fields
read_fields-Holds s rest fit_none small h =
    ap (λ n. some ([], record s { read_pos = n })) (omega arith)
read_fields-Holds s rest (fit_more {f = f} {fs = fs} fit fits) small h =
    let (s', e, moved) =
      read_field-Holds s (encode_all fs ++ rest) fit small
        (Holds-first (encode f) (encode_all fs) h) in
    let h' : Holds s' (encode_all fs) rest =
      subst (λ x. Holds x (encode_all fs) rest) (sym moved)
        (Holds-next (encode f) (encode_all fs) (length (encode f)) h refl) in
    rw e (
      rw (read_fields-Holds s' rest fits (rw moved small) h') (
        ap (λ x. some (f ∷ fs, pop x (length (encode_all fs)))) moved
        ∙ ap (λ n. some (f ∷ fs, record s { read_pos = n }))
            (omega (arith, length-append (encode f) (encode_all fs)))))

-- What is read back from where the writing began.
pub record ReadBack (fs : List Field) (ks : List Shape) (s : CellStream) : Type 0 where
  pub after : CellStream
  pub writes : write_fields fs s ≡ some (true, after)
  pub appended : written after ≡ written s ++ encode_all fs
  pub reads :
      read_fields ks (record after { read_pos = s.write_pos })
      ≡ some (fs, record after { read_pos = after.write_pos })

-- Fields written to a valid stream of fewer than 2 ^ 31 bytes that has room for them are all
-- accepted, their bytes are appended to what was written, and a reader that starts where they
-- begin, and asks for fields of these kinds, gets them all back and stops where they end.
pub read_fields-write_fields :
    {fs : List Field} {ks : List Shape} (s : CellStream)
    → IsValid s
    → s.size < 2 ^ 31
    → s.write_pos + length (encode_all fs) ≤ s.size
    → FitAll fs ks
    → ReadBack fs ks s
read_fields-write_fields {fs} {ks} s i small room fit =
    let (s', e, p) = write_fields-Wrote fs s i small room in
    let reader : CellStream = record s' { read_pos = s.write_pos } in
    let h : Holds reader (encode_all fs) (drop s'.write_pos s'.mem) = record {
      block = omega (arith, p.valid.block);
      inside = omega (arith, p.moved, p.valid.written_in);
      next =
          ap (drop s.write_pos) (
            sym (take-append-drop s'.write_pos s'.mem)
            ∙ ap (λ l. l ++ drop s'.write_pos s'.mem) p.appended
            ∙ append_assoc (written s) (encode_all fs) (drop s'.write_pos s'.mem))
          ∙ drop-append_eq s.write_pos (written s) (encode_all fs ++ drop s'.write_pos s'.mem)
              (omega (arith, length-take s.write_pos s.mem, i.block, i.written_in));
    } in
    record {
      after = s';
      writes = e;
      appended = p.appended;
      reads =
          read_fields-Holds reader (drop s'.write_pos s'.mem) fit (omega (arith, p.same_size)) h
          ∙ ap (λ n. some (fs, record s' { read_pos = n })) (sym p.moved);
    }
