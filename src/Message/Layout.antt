-- ===== src/Message/Layout.antt =====
-- What the layout of the messages guarantees to the code that frames and dispatches them.
use cpp_network_obj.Base.{
  ℕ, ◌+◌, ◌<◌, ◌^◌, ◌≡◌, ap, sym, ◌∙◌, List, ◌++◌, length, take, slice, le_encode, le_decode,
  length-append, length-le_encode, le_decode-le_encode, arith, append_assoc, take-append_eq,
  drop-append_eq,
}
use cpp_network_obj.Message.{
  NetMsg, data_header, login_msg, login_r, logout_msg, logout_r, user_join, c2s_heart_msg,
  s2c_heart_msg, cmd, code, size_of, body, bytes, data_length, cmd_field, IsWellSized, Cmd,
}

code-lt : (c : Cmd) → code c < 256 ^ 2
code-lt c = ground arith

size_of-lt : (m : NetMsg) → size_of m < 256 ^ 2
size_of-lt m = ground arith

length-body : (m : NetMsg) → IsWellSized m → length (body m) + 4 ≡ size_of m
unfolding body
length-body data_header w = omega arith
length-body (login_msg u p d i) w = omega (
  arith,
  length-append u (p ++ (d ++ le_encode 4 i)),
  length-append p (d ++ le_encode 4 i),
  length-append d (le_encode 4 i),
  length-le_encode 4 i,
)
length-body (login_r r d i) w = omega (
  arith,
  length-append (le_encode 4 r) (d ++ le_encode 4 i),
  length-append d (le_encode 4 i),
  length-le_encode 4 i,
  length-le_encode 4 r,
)
length-body (logout_msg u) w = omega arith
length-body (logout_r r) w = omega (arith, length-le_encode 4 r)
length-body (user_join s) w = omega (arith, length-le_encode 4 s)
length-body c2s_heart_msg w = omega arith
length-body s2c_heart_msg w = omega arith

length-bytes : (m : NetMsg) → IsWellSized m → length (bytes m) ≡ size_of m
unfolding bytes
length-bytes m w = omega (
  arith,
  length-append (le_encode 2 (size_of m)) (le_encode 2 (code (cmd m)) ++ body m),
  length-append (le_encode 2 (code (cmd m))) (body m),
  length-le_encode 2 (size_of m),
  length-le_encode 2 (code (cmd m)),
  length-body m w,
)

-- The two header fields, whatever follows the struct in memory.
pub data_length-bytes : (m : NetMsg) (rest : List ℕ) → data_length (bytes m ++ rest) ≡ size_of m
unfolding bytes data_length
data_length-bytes m rest =
    ap le_decode (
      ap (take 2) (append_assoc (le_encode 2 (size_of m)) _ rest)
      ∙ take-append_eq 2 (le_encode 2 (size_of m)) _ (sym (length-le_encode 2 (size_of m))))
    ∙ le_decode-le_encode 2 (size_of m) (size_of-lt m)

pub cmd_field-bytes : (m : NetMsg) (rest : List ℕ) → cmd_field (bytes m ++ rest) ≡ code (cmd m)
unfolding bytes cmd_field
cmd_field-bytes m rest =
    ap (λ l. le_decode (slice 2 2 l)) (append_assoc (le_encode 2 (size_of m)) _ rest)
    ∙ ap (λ l. le_decode (take 2 l))
        (drop-append_eq 2 (le_encode 2 (size_of m)) _ (sym (length-le_encode 2 (size_of m)))
          ∙ append_assoc (le_encode 2 (code (cmd m))) (body m) rest)
    ∙ ap le_decode
        (take-append_eq 2 (le_encode 2 (code (cmd m))) _ (sym (length-le_encode 2 (code (cmd m)))))
    ∙ le_decode-le_encode 2 (code (cmd m)) (code-lt (cmd m))

-- A message whose char arrays have their declared lengths, followed in memory by anything, is
-- as long as its dataLength field says, and its header reads back as the struct's size and command.
pub bytes_framed :
    (m : NetMsg) (rest : List ℕ)
    → IsWellSized m
    → (length (bytes m) ≡ data_length (bytes m ++ rest))
      × (data_length (bytes m ++ rest) ≡ size_of m)
      × (cmd_field (bytes m ++ rest) ≡ code (cmd m))
bytes_framed m rest w = (
  length-bytes m w ∙ sym (data_length-bytes m rest),
  data_length-bytes m rest,
  cmd_field-bytes m rest,
)
