-- ===== src/Buffer/Invariant.antt =====
-- The invariant of CELLBuffer: the count of bytes never passes the size of the block.
use cpp_network_obj.Base.{
  ℕ, ◌-◌, ◌≤◌, ◌≡◌, some, List, ℤ, length, slice, length-overwrite, length-slice, arith,
}
use cpp_network_obj.Buffer.{
  CellBuffer, Socket, SendReply, send_failed, sent, RecvReply, recv_failed, received, create, push,
  pop, after_send, write_to_socket, read_from_socket,
}

pub record IsValid (b : CellBuffer) : Type 0 where
  pub block : length b.mem ≡ b.size
  pub within : b.last ≤ b.size

pub create-IsValid : (n : ℕ) (raw : List ℕ) → length raw ≡ n → IsValid (create n raw)
unfolding create
create-IsValid n raw h = omega arith

pub push-IsValid : {b : CellBuffer} (bytes : List ℕ) → IsValid b → IsValid (push b bytes).1
unfolding push
push-IsValid {b} bytes v = ground (arith, length-overwrite b.last bytes b.mem)

pub pop-IsValid : {b b' : CellBuffer} (n : ℕ) → IsValid b → pop b n ≡ some b' → IsValid b'
unfolding pop
pop-IsValid {b} {b'} n v e = ground (
  arith,
  length-overwrite 0 (slice n (b.last - n) b.mem) b.mem,
  length-slice n (b.last - n) b.mem,
)

pub after_send-IsValid :
    {b : CellBuffer} (n : ℕ) → IsValid b → n ≤ b.last → IsValid (after_send b n)
unfolding after_send
after_send-IsValid {b} n v h = ground (
  arith,
  length-overwrite 0 (slice n (b.last - n) b.mem) b.mem,
  length-slice n (b.last - n) b.mem,
)

pub write_to_socket-IsValid :
    {b b' : CellBuffer} {ret : ℤ} (sock : Socket) (reply : SendReply)
    → IsValid b
    → write_to_socket b sock reply ≡ some (ret, b')
    → IsValid b'
unfolding write_to_socket
write_to_socket-IsValid {b} {b'} sock send_failed v e = ground arith
write_to_socket-IsValid {b} {b'} sock (sent n) v e = ground (
  arith,
  length-overwrite 0 (slice n (b.last - n) b.mem) b.mem,
  length-slice n (b.last - n) b.mem,
)

pub read_from_socket-IsValid :
    {b b' : CellBuffer} {ret : ℤ} (reply : RecvReply)
    → IsValid b
    → read_from_socket b reply ≡ some (ret, b')
    → IsValid b'
unfolding read_from_socket
read_from_socket-IsValid {b} {b'} recv_failed v e = ground arith
read_from_socket-IsValid {b} {b'} (received bytes) v e =
    ground (arith, length-overwrite b.last bytes b.mem)
