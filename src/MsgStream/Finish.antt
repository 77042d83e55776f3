-- ===== src/MsgStream/Finish.antt =====
-- A message that is composed with a CELLWriteStream is framed, and is read back from its bytes.
use cpp_network_obj.Base.{
  ℕ, ◌+◌, ◌≤◌, ◌<◌, ◌^◌, ◌≡◌, refl, ap, sym, ◌∙◌, true, Option, some, List, [], ◌++◌, length, take,
  drop, overwrite, le_encode, le_decode, length-le_encode, le_decode-le_encode, length-append,
  length-take, take-append-drop, append_assoc, append-nil, arith, take-append_eq, drop-append_eq,
  leb_ℤ-room, ◌>>=◌,
}
use cpp_network_obj.Message.{data_length}
use cpp_network_obj.Buffer.Framing.{IsFramed}
use cpp_network_obj.Stream.{CellStream, write, read_or, pop}
use cpp_network_obj.Stream.Written.{IsValid, written, put, write_lem, Wrote-trans, write-Wrote}
use cpp_network_obj.Stream.Unread.{Holds, Holds-first, Holds-next, read_lem}
use cpp_network_obj.Stream.Fields.{
  Field, Shape, FitAll, encode_all, write_fields, read_fields, write_fields-Wrote,
  read_fields-Holds,
}
use cpp_network_obj.MsgStream.{read_stream, get_net_cmd, write_stream, set_net_cmd, finish, message}

-- What the program does to answer: write_stream, set_net_cmd, the fields, finish.
unfoldable pub compose : ℕ → List ℕ → ℕ → List Field → Option (List ℕ)
compose size raw cmd fs = write_fields fs (set_net_cmd cmd (write_stream size raw)) >>= λ (ok, s).
    some (message (finish s))

-- What it does to read an answer: the length, the command and the fields.
unfoldable pub parse : List ℕ → List Shape → Option (ℕ × ℕ × List Field)
parse mem ks =
    let (n, s) = read_or 2 0 (read_stream mem) in
    let (cmd, s') = get_net_cmd s in read_fields ks s' >>= λ (fs, s''). some (n, cmd, fs)

-- The message with this command and these fields.
abbrev pub framed : ℕ → List Field → List ℕ
framed cmd fs = le_encode 2 (4 + length (encode_all fs)) ++ (le_encode 2 cmd ++ encode_all fs)

length-framed : (cmd : ℕ) (fs : List Field) → length (framed cmd fs) ≡ 4 + length (encode_all fs)
length-framed cmd fs = omega (
  arith,
  length-append (le_encode 2 (4 + length (encode_all fs))) (le_encode 2 cmd ++ encode_all fs),
  length-append (le_encode 2 cmd) (encode_all fs),
  length-le_encode 2 cmd,
  length-le_encode 2 (4 + length (encode_all fs)),
)

data_length-framed :
    (cmd : ℕ) (fs : List Field) (rest : List ℕ)
    → 4 + length (encode_all fs) < 2 ^ 16
    → data_length (framed cmd fs ++ rest) ≡ length (framed cmd fs)
unfolding data_length
data_length-framed cmd fs rest short =
    let n = 4 + length (encode_all fs) in
    ap le_decode (
      ap (take 2) (append_assoc (le_encode 2 n) _ rest)
      ∙ take-append_eq 2 (le_encode 2 n) _ (sym (length-le_encode 2 n)))
    ∙ le_decode-le_encode 2 n short
    ∙ sym (length-framed cmd fs)

overwrite_front : (x y z : List ℕ) → length x ≡ length y → overwrite 0 x (y ++ z) ≡ x ++ z
unfolding overwrite
overwrite_front x y z e = ap (◌++◌ x) (drop-append_eq (0 + length x) y z (omega arith))

-- The stream before its fields are written.
opened :
    (size : ℕ) (raw : List ℕ) (cmd : ℕ)
    → length raw ≡ size
    → 4 ≤ size
    → (s : CellStream) × (set_net_cmd cmd (write_stream size raw) ≡ s)
      × IsValid s
      × (written s ≡ le_encode 2 0 ++ le_encode 2 cmd)
      × (s.write_pos ≡ 4)
      × (s.size ≡ size)
unfolding write_stream set_net_cmd
opened size raw cmd e h =
    let s₀ : CellStream = record {
      mem = raw;
      size = size;
      write_pos = 0;
      read_pos = 0;
      owned = true;
    } in
    let i₀ : IsValid s₀ = omega arith in
    let s₁ : CellStream = put s₀ (le_encode 2 0) in
    let p₁ = write-Wrote 2 0 s₀ i₀ (omega arith) in
    let p₂ = write-Wrote 2 cmd s₁ p₁.valid (omega (arith, p₁.moved, length-le_encode 2 0)) in
    let p = Wrote-trans p₁ p₂ in
    (
      put s₁ (le_encode 2 cmd),
      ap (λ r. (write 2 cmd r.1).1) (write_lem 2 0 s₀ (omega arith))
          ∙ ap (λ r. r.1) (write_lem 2 cmd s₁ (omega (arith, length-le_encode 2 0))),
      p.valid,
      p.appended,
      omega (arith, length-le_encode 2 0, length-le_encode 2 cmd),
      refl,
    )

message-finish :
    (s : CellStream) (x body : List ℕ)
    → IsValid s
    → length x ≡ 2
    → written s ≡ x ++ body
    → message (finish s) ≡ le_encode 2 s.write_pos ++ body
unfolding message finish
message-finish s x body i two e =
    let at = s.write_pos in
    let front = le_encode 2 at in
    let tail = drop at s.mem in
    let size : length x + length body ≡ at =
      omega
        (arith, ap length e, length-append x body, length-take at s.mem, i.block, i.written_in) in
    rw (leb_ℤ-room 2 s.size 0 (omega (arith, i.written_in))) (
      ap (λ m. take at (overwrite 0 front m))
        (sym (take-append-drop at s.mem) ∙ ap (λ l. l ++ tail) e ∙ append_assoc x body tail)
      ∙ ap (take at) (
          overwrite_front front x (body ++ tail) (length-le_encode 2 at ∙ sym two)
          ∙ sym (append_assoc front body tail))
      ∙ take-append_eq at (front ++ body) tail
          (omega (arith, length-append front body, length-le_encode 2 at)))

-- A message of at most 65535 bytes that fits in the stream is composed of its length, the command
-- and the bytes of its fields; it is framed: its length field is its length.
pub compose_framed :
    (size : ℕ) (raw : List ℕ) (cmd : ℕ) (fs : List Field)
    → length raw ≡ size
    → 4 + length (encode_all fs) ≤ size
    → 4 + length (encode_all fs) < 2 ^ 16
    → size < 2 ^ 31
    → (compose size raw cmd fs ≡ some (framed cmd fs)) × IsFramed (framed cmd fs)
unfolding compose
compose_framed size raw cmd fs e fit short small =
    let (s, opens, i, w, at, z) = opened size raw cmd e (omega arith) in
    let (s', writes, p) = write_fields-Wrote fs s i (omega arith) (omega arith) in
    let body = le_encode 2 cmd ++ encode_all fs in
    let done : message (finish s') ≡ framed cmd fs =
      message-finish s' (le_encode 2 0) body p.valid (length-le_encode 2 0) (
        p.appended
        ∙ ap (λ l. l ++ encode_all fs) w
        ∙ append_assoc (le_encode 2 0) (le_encode 2 cmd) (encode_all fs))
      ∙ ap (λ n. le_encode 2 n ++ body) (p.moved ∙ ap (λ n. n + length (encode_all fs)) at) in
    (
      rw opens (rw writes (ap some done)),
      (
        omega (arith, length-framed cmd fs),
        ap data_length (sym (append-nil (framed cmd fs))) ∙ data_length-framed cmd fs [] short,
      ),
    )

-- From memory that begins with a message of that form, of fewer than 65536 bytes and with a command of
-- 16 bits, a reader that asks for fields of these kinds gets the length, the command and the fields.
pub parse-framed :
    {fs : List Field} {ks : List Shape} (cmd : ℕ) (rest : List ℕ)
    → FitAll fs ks
    → cmd < 2 ^ 16
    → 4 + length (encode_all fs) < 2 ^ 16
    → parse (framed cmd fs ++ rest) ks ≡ some (4 + length (encode_all fs), cmd, fs)
unfolding parse read_stream get_net_cmd read_or
parse-framed {fs} {ks} cmd rest fit c short =
    let n = 4 + length (encode_all fs) in
    let s₀ = read_stream (framed cmd fs ++ rest) in
    let size = data_length-framed cmd fs rest short in
    let h₀ : Holds s₀ (framed cmd fs) rest = record {
      block = omega (arith, size, length-append (framed cmd fs) rest);
      inside = omega (arith, size);
      next = refl;
    } in
    let h₁ =
      Holds-next (le_encode 2 n) (le_encode 2 cmd ++ encode_all fs) 2 h₀
        (sym (length-le_encode 2 n)) in
    let h₂ = Holds-next (le_encode 2 cmd) (encode_all fs) 2 h₁ (sym (length-le_encode 2 cmd)) in
    rw (read_lem 2 n true short (Holds-first (le_encode 2 n) _ h₀)) (
      rw (read_lem 2 cmd true c (Holds-first (le_encode 2 cmd) (encode_all fs) h₁)) (
        rw (
          read_fields-Holds (pop (pop s₀ 2) 2) rest fit (omega (arith, size, length-framed cmd fs))
            h₂)))
