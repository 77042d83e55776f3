-- ===== src/Buffer.antt =====
-- depends/include/CELLBuffer.hpp: the buffers between a socket and the messages.
-- `_pBuff` is a block of bytes, and `_nLast` the number of bytes of it in use.
pub mod Invariant
pub mod Queue
pub mod Spec
pub mod Refine
pub mod Framing
pub mod Honest
use cpp_network_obj.Base.{
  ℕ, ◌+◌, ◌-◌, ◌<◌, Bool, true, false, ◌&&◌, Option, none, some, List, [], ◌∷◌, ℤ, pos, negsuc,
  length, take, drop, slice, overwrite, ltb, leb, ◌==◌, if◌then◌else◌,
}
use cpp_network_obj.Message.{data_length}

-- SEND_BUFF_SZIE of CELL.hpp
abbrev pub send_buff_size : ℕ
send_buff_size = 10240

-- SOCKET_ERROR
abbrev pub socket_error : ℤ
socket_error = negsuc 0

-- sizeof(netmsg_DataHeader)
abbrev pub header_size : ℕ
header_size = 4

-- A SOCKET of a unix host: INVALID_SOCKET, which is -1, or a descriptor.
pub data Socket : Type 0 where
  invalid_socket : Socket
  fd : ℕ → Socket

abbrev pub is_valid : Socket → Bool
is_valid invalid_socket = false
is_valid (fd n) = true

-- What send() returns: -1, or how many bytes the kernel took.
pub data SendReply : Type 0 where
  send_failed : SendReply
  sent : ℕ → SendReply

-- What recv() returns: -1, or the bytes that it stored (none if the peer closed the connection).
pub data RecvReply : Type 0 where
  recv_failed : RecvReply
  received : List ℕ → RecvReply

pub record CellBuffer : Type 0 where
  pub mem : List ℕ
  pub last : ℕ
  pub size : ℕ
  pub full_count : ℕ

-- CELLBuffer(nSize), over the bytes of `new char[nSize]`, which are not set.
pub create : ℕ → List ℕ → CellBuffer
create n raw = record { mem = raw; last = 0; size = n; full_count = 0 }

-- The bytes in use.
abbrev pub contents : CellBuffer → List ℕ
contents b = take b.last b.mem

unfoldable pub push : CellBuffer → List ℕ → Bool × CellBuffer
push b bytes =
    let end = b.last + length bytes in
    if leb end b.size
    then (
      true,
      record b {
        mem = overwrite b.last bytes b.mem;
        last = end;
        full_count = if end == send_buff_size then b.full_count + 1 else b.full_count;
      },
    )
    else (false, record b { full_count = b.full_count + 1 })

-- The buffer without its first `len` bytes. The count is decremented unless it is 0.
unfoldable pub popped : CellBuffer → ℕ → CellBuffer
popped b len =
    let n = b.last - len in
    record b {
      mem = if ltb 0 n then overwrite 0 (slice len n b.mem) b.mem else b.mem;
      last = n;
      full_count = if ltb 0 b.full_count then b.full_count - 1 else b.full_count;
    }

-- `none` where `_nLast` would become negative.
unfoldable pub pop : CellBuffer → ℕ → Option CellBuffer
unfolding popped
pop b len = if ltb b.last len then none else some (popped b len)

-- After send() took `ret` bytes, which is not 0.
unfoldable pub after_send : CellBuffer → ℕ → CellBuffer
after_send b ret = if ret == b.last then record b { last = 0; full_count = 0 } else record b {
  mem = overwrite 0 (slice ret (b.last - ret) b.mem) b.mem;
  last = b.last - ret;
  full_count = 0;
}

-- write2socket; send() is called at most once, and `none` stands for a `ret` above the count that
-- was offered, for which `_nLast` would become negative.
write_reply : CellBuffer → SendReply → Option (ℤ × CellBuffer)
unfolding after_send
write_reply b send_failed = some (socket_error, b)
write_reply b (sent n) =
    if n == 0
    then some (socket_error, b)
    else if ltb b.last n
    then none
    else some (pos n, after_send b n)

unfoldable pub write_to_socket : CellBuffer → Socket → SendReply → Option (ℤ × CellBuffer)
unfolding write_reply
write_to_socket b sock reply =
    if ltb 0 b.last && is_valid sock then write_reply b reply else some (pos 0, b)

-- The bytes with which write2socket calls send(), none where it does not call it.
unfoldable pub offered : CellBuffer → Socket → List ℕ
offered b sock = if ltb 0 b.last && is_valid sock then take b.last b.mem else []

-- The first `n` bytes behind data(); `none` where not so many are in use.
unfoldable pub front_data : CellBuffer → ℕ → Option (List ℕ)
front_data b n = if leb n b.last then some (take n b.mem) else none

-- After recv() stored the bytes behind the used ones.
unfoldable pub filled : CellBuffer → List ℕ → CellBuffer
filled b bytes = record b { mem = overwrite b.last bytes b.mem; last = b.last + length bytes }

-- read4socket; recv() is called at most once, and `none` stands for a reply that does not fit in
-- the space that was offered.
read_reply : CellBuffer → RecvReply → Option (ℤ × CellBuffer)
unfolding filled
read_reply b recv_failed = some (socket_error, b)
read_reply b (received bytes) =
    if length bytes == 0
    then some (socket_error, b)
    else if ltb b.size (b.last + length bytes)
    then none
    else some (pos (length bytes), filled b bytes)

unfoldable pub read_from_socket : CellBuffer → RecvReply → Option (ℤ × CellBuffer)
unfolding read_reply
read_from_socket b reply = if ltb b.last b.size then read_reply b reply else some (pos 0, b)

unfoldable pub has_msg : CellBuffer → Bool
has_msg b = if leb header_size b.last then leb (data_length b.mem) b.last else false

unfoldable pub need_write : CellBuffer → Bool
need_write b = ltb 0 b.last
