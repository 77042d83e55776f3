-- ===== src/Message/Ids.antt =====
-- Where the messages that are counted carry their message ID.
use cpp_network_obj.Base.{
  refl, le→leb, leb, true, some, length, ℕ, ◌<◌, ◌^◌, ◌≡◌, ap, sym, ◌∙◌, List, ◌++◌, length, take,
  le_encode, le_decode, length-append, length-le_encode, le_decode-le_encode, arith, append_assoc,
  take-append_eq, drop-append_eq,
}
use cpp_network_obj.Message.Layout.{bytes_framed}
use cpp_network_obj.Message.{
  read_msg_id, NetMsg, size_of, login_msg, login_r, body, bytes, msg_id_field, IsWellSized,
}

-- The last field of a struct, behind 96 bytes.
last_field :
    (front tail : List ℕ) (n : ℕ)
    → length front ≡ 96
    → n < 2 ^ 32
    → msg_id_field (front ++ (le_encode 4 n ++ tail)) ≡ n
unfolding msg_id_field
last_field front tail n h small =
    ap (λ l. le_decode (take 4 l)) (drop-append_eq 96 front (le_encode 4 n ++ tail) (sym h))
    ∙ ap le_decode (take-append_eq 4 (le_encode 4 n) tail (sym (length-le_encode 4 n)))
    ∙ le_decode-le_encode 4 n (omega arith)

pub msg_id_field-login :
    (u p d tail : List ℕ) (n : ℕ)
    → IsWellSized (login_msg u p d n)
    → msg_id_field (bytes (login_msg u p d n) ++ tail) ≡ n
unfolding bytes body
msg_id_field-login u p d tail n sized =
    let front = le_encode 2 100 ++ (le_encode 2 10 ++ (u ++ (p ++ d))) in
    ap msg_id_field (simp append_assoc)
    ∙ last_field front tail n
        (omega (
          arith,
          length-append (le_encode 2 100) (le_encode 2 10 ++ (u ++ (p ++ d))),
          length-append (le_encode 2 10) (u ++ (p ++ d)),
          length-append u (p ++ d),
          length-append p d,
          length-le_encode 2 100,
          length-le_encode 2 10,
        ))
        (omega arith)

pub msg_id_field-login_r :
    (r : ℕ) (d tail : List ℕ) (n : ℕ)
    → IsWellSized (login_r r d n)
    → msg_id_field (bytes (login_r r d n) ++ tail) ≡ n
unfolding bytes body
msg_id_field-login_r r d tail n sized =
    let front = le_encode 2 100 ++ (le_encode 2 11 ++ (le_encode 4 r ++ d)) in
    ap msg_id_field (simp append_assoc)
    ∙ last_field front tail n
        (omega (
          arith,
          length-append (le_encode 2 100) (le_encode 2 11 ++ (le_encode 4 r ++ d)),
          length-append (le_encode 2 11) (le_encode 4 r ++ d),
          length-append (le_encode 4 r) d,
          length-le_encode 2 100,
          length-le_encode 2 11,
          length-le_encode 4 r,
        ))
        (omega arith)

inside :
    (m : NetMsg) (tail : List ℕ) (n : ℕ)
    → IsWellSized m
    → size_of m ≡ 100
    → msg_id_field (bytes m ++ tail) ≡ n
    → read_msg_id (bytes m ++ tail) ≡ some n
unfolding read_msg_id
inside m tail n sized whole e =
    let (long, framed, command) = bytes_framed m tail sized in
    let reaches : leb 100 (length (bytes m ++ tail)) ≡ true =
      le→leb 100 (length (bytes m ++ tail))
        (omega (arith, length-append (bytes m) tail, long, framed, whole)) in
    rw reaches (ap some e)

-- The ID of a whole message lies in its memory.
pub read_msg_id-login :
    (u p d tail : List ℕ) (n : ℕ)
    → IsWellSized (login_msg u p d n)
    → read_msg_id (bytes (login_msg u p d n) ++ tail) ≡ some n
read_msg_id-login u p d tail n sized =
    inside (login_msg u p d n) tail n sized refl (msg_id_field-login u p d tail n sized)

pub read_msg_id-login_r :
    (r : ℕ) (d tail : List ℕ) (n : ℕ)
    → IsWellSized (login_r r d n)
    → read_msg_id (bytes (login_r r d n) ++ tail) ≡ some n
read_msg_id-login_r r d tail n sized =
    inside (login_r r d n) tail n sized refl (msg_id_field-login_r r d tail n sized)
