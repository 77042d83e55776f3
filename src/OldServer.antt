-- ===== src/OldServer.antt =====
-- server/bak/dataType.h, server/bak/TcpServer.h, the version before the buffers had a class of their own: the sending of
-- ClientSocket, and CellServer::RecvData.
pub mod Sending
pub mod Messages
pub mod Draining
pub mod Receiving
use cpp_network_obj.Base.{
  ℕ, zero, suc, ◌+◌, ◌-◌, ◌*◌, Bool, true, false, Option, none, some, List, [], ◌∷◌, ℤ, pos, leb,
  ltb, ◌^◌, ◌==◌, length, take, drop, slice, overwrite, replicate, if◌then◌else◌, ◌>>=◌,
}
use cpp_network_obj.Message.{data_length}
use cpp_network_obj.Buffer.{
  Socket, SendReply, send_failed, sent, RecvReply, recv_failed, received, socket_error,
}

-- RECV_BUFF_SZIE and SEND_BUFF_SZIE
abbrev pub buff_size : ℕ
buff_size = 10240 * 5

pub record ClientSocket : Type 0 where
  pub sockfd : Socket
  pub msg_buf : List ℕ
  pub last_pos : ℕ
  pub send_buf : List ℕ
  pub last_send_pos : ℕ

-- ClientSocket(sockfd)
pub create : Socket → ClientSocket
create sock = record {
  sockfd = sock;
  msg_buf = replicate buff_size 0;
  last_pos = 0;
  send_buf = replicate buff_size 0;
  last_send_pos = 0;
}

-- The buffer is filled up from the data, and is to be sent.
abbrev pub filled : List ℕ → ClientSocket → ClientSocket
filled bytes c = record c {
  send_buf = overwrite c.last_send_pos (take (buff_size - c.last_send_pos) bytes) c.send_buf;
  last_send_pos = 0;
}

-- The loop of SendData, with the data that is left, the result so far, and what the n-th call of
-- send() returns. The second result are the bytes that each call was offered.
unfoldable pub send_loop :
    ℕ → (ℕ → SendReply) → ℕ → List ℕ → ℤ → ClientSocket → Option (ℤ × List (List ℕ) × ClientSocket)
send_loop zero replies n bytes ret c = none
send_loop (suc fuel) replies n bytes ret c = elim (leb buff_size (length bytes + c.last_send_pos)) [
  | true ↦ elim (replies n) [
    | send_failed ↦ some (socket_error, (filled bytes c).send_buf ∷ [], filled bytes c)
    | sent k ↦
        send_loop fuel replies (suc n) (drop (buff_size - c.last_send_pos) bytes) (pos k)
          (filled bytes c)
        >>= λ (ret', out, c'). some (ret', (filled bytes c).send_buf ∷ out, c')
  ]
  | false ↦ some (
    ret,
    [],
    record c {
      send_buf = overwrite c.last_send_pos bytes c.send_buf;
      last_send_pos = c.last_send_pos + length bytes;
    },
  )
]

-- header->dataLength is a short: whether the length field of the message is not negative.
abbrev pub is_length : List ℕ → Bool
is_length mem = ltb (data_length mem) (2 ^ 15)

-- SendData of a message in memory; a negative length makes the copy undefined.
unfoldable pub send_data :
    ℕ → (ℕ → SendReply) → List ℕ → ClientSocket → Option (ℤ × List (List ℕ) × ClientSocket)
unfolding send_loop
send_data fuel replies mem c =
    if is_length mem
    then send_loop fuel replies 0 (take (data_length mem) mem) socket_error c
    else none

module _ {S : Type 0} (on_net_msg : S → List ℕ → Option S) where
  -- The loop of RecvData over the message buffer and its end, for an owner that leaves them alone.
  -- After a message of negative length the move of the rest is undefined.
  unfoldable pub message_loop : ℕ → S → List ℕ → ℕ → Option (S × List ℕ × ℕ)
  message_loop zero s buf last = none
  message_loop (suc fuel) s buf last = elim (leb 4 last) [
    | true ↦ elim (is_length buf) [
      | true ↦ elim (leb (data_length buf) last) [
        | true ↦
            let size = last - data_length buf in
            on_net_msg s buf >>= λ s'.
            message_loop fuel s' (overwrite 0 (slice (data_length buf) size buf) buf) size
        | false ↦ some (s, buf, last)
      ]
      | false ↦ none
    ]
    | false ↦ some (s, buf, last)
  ]

  -- RecvData, where `on_net_recv` is what OnNetRecv does to the owner; `none` too for a reply of recv() that
  -- does not fit.
  unfoldable pub recv_data :
      (S → S) → ℕ → RecvReply → S → ClientSocket → Option (ℤ × S × ClientSocket)
  unfolding message_loop
  recv_data on_net_recv fuel recv_failed s c = some (socket_error, on_net_recv s, c)
  recv_data on_net_recv fuel (received bytes) s c =
      if length bytes == 0
      then some (socket_error, on_net_recv s, c)
      else if ltb buff_size (c.last_pos + length bytes)
      then none
      else (message_loop fuel (on_net_recv s) (overwrite c.last_pos bytes c.msg_buf)
            (c.last_pos + length bytes)
          >>= λ (s', buf, last). some (pos 0, s', record c { msg_buf = buf; last_pos = last }))
