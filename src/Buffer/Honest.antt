-- ===== src/Buffer/Honest.antt =====
-- The two transfers with replies that the kernel can give: it stores no more than fits, and takes no
-- more than it is offered.
use cpp_network_obj.Base.{
  ◌+◌, ◌≤◌, ◌≡◌, refl, ◌&&◌, some, ℤ, pos, length, ltb, ◌==◌, arith, Bool-cases, inl, inr,
}
use cpp_network_obj.Buffer.{
  CellBuffer, Socket, is_valid, socket_error, SendReply, send_failed, sent, RecvReply, recv_failed,
  received, read_from_socket, write_to_socket, filled, after_send,
}
use cpp_network_obj.Buffer.Invariant.{IsValid, read_from_socket-IsValid, write_to_socket-IsValid}

abbrev pub CanStore : RecvReply → CellBuffer → Type 0
CanStore recv_failed b = Unit {0}
CanStore (received bytes) b = b.last + length bytes ≤ b.size

abbrev pub CanTake : SendReply → CellBuffer → Type 0
CanTake send_failed b = Unit {0}
CanTake (sent n) b = n ≤ b.last

read_returns :
    (b : CellBuffer) (reply : RecvReply)
    → CanStore reply b
    → (r : ℤ × CellBuffer) × (read_from_socket b reply ≡ some r)
unfolding read_from_socket
read_returns b recv_failed h = elim (Bool-cases (ltb b.last b.size)) [
  | inl e ↦ ((socket_error, b), rw e refl)
  | inr e ↦ ((pos 0, b), rw e refl)
]
read_returns b (received bytes) h = elim (Bool-cases (ltb b.last b.size)) [
  | inr e ↦ ((pos 0, b), rw e refl)
  | inl e ↦ elim (Bool-cases (length bytes == 0)) [
    | inl z ↦ ((socket_error, b), rw e (rw z refl))
    | inr z ↦ ((pos (length bytes), filled b bytes), rw e (rw z (ground (arith, h))))
  ]
]

write_returns :
    (b : CellBuffer) (sock : Socket) (reply : SendReply)
    → CanTake reply b
    → (r : ℤ × CellBuffer) × (write_to_socket b sock reply ≡ some r)
unfolding write_to_socket
write_returns b sock send_failed h = elim (Bool-cases (ltb 0 b.last && is_valid sock)) [
  | inl e ↦ ((socket_error, b), rw e refl)
  | inr e ↦ ((pos 0, b), rw e refl)
]
write_returns b sock (sent n) h = elim (Bool-cases (ltb 0 b.last && is_valid sock)) [
  | inr e ↦ ((pos 0, b), rw e refl)
  | inl e ↦ elim (Bool-cases (n == 0)) [
    | inl z ↦ ((socket_error, b), rw e (rw z refl))
    | inr z ↦ ((pos n, after_send b n), rw e (rw z (ground (arith, h))))
  ]
]

pub read_from_socket-total :
    {b : CellBuffer} (reply : RecvReply)
    → IsValid b
    → CanStore reply b
    → (r : ℤ × CellBuffer) × (read_from_socket b reply ≡ some r) × IsValid r.1
read_from_socket-total {b} reply v h =
    let (r, e) = read_returns b reply h in
    (r, e, read_from_socket-IsValid {b = b} {ret = r.0} reply v e)

pub write_to_socket-total :
    {b : CellBuffer} (sock : Socket) (reply : SendReply)
    → IsValid b
    → CanTake reply b
    → (r : ℤ × CellBuffer) × (write_to_socket b sock reply ≡ some r) × IsValid r.1
write_to_socket-total {b} sock reply v h =
    let (r, e) = write_returns b sock reply h in
    (r, e, write_to_socket-IsValid {b = b} {ret = r.0} sock reply v e)
