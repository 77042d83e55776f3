-- ===== src/Client.antt =====
-- depends/include/CELLClient.hpp: one connection, with its two buffers and its two timers.
-- Times are `time_t` values in milliseconds; an elapsed time is negative if the clock is set back.
pub mod Timers
pub mod Sending
pub mod Flushing
pub mod Drain
use cpp_network_obj.Base.{
  ℕ, ◌+◌, Bool, true, false, Option, some, List, [], ◌∷◌, ℤ, pos, length, take, ◌+ℤ◌, leb_ℤ,
  if◌then◌else◌, ◌>>=◌,
}
use cpp_network_obj.Message.{data_length}
use cpp_network_obj.Buffer.{
  CellBuffer, Socket, is_valid, SendReply, RecvReply, socket_error, push, write_to_socket,
  read_from_socket,
}
use cpp_network_obj.Buffer

-- CLIENT_HREAT_DEAD_TIME and CLIENT_SEND_BUFF_TIME
abbrev pub heart_dead_time : ℤ
heart_dead_time = pos 60000

abbrev pub send_buff_time : ℤ
send_buff_time = pos 200

pub record CellClient : Type 0 where
  pub id : ℕ
  pub server_id : Option ℕ
  pub recv_msg_id : ℕ
  pub send_msg_id : ℕ
  pub sockfd : Socket
  pub recv_buff : CellBuffer
  pub send_buff : CellBuffer
  pub dt_heart : ℤ
  pub dt_send : ℤ

-- CELLClient(sockfd, sendSize, recvSize), where the static counter stands at `n`: the client, and
-- the counter afterwards. The two lists are the unset bytes of the buffers' blocks.
unfoldable pub create : ℕ → Socket → ℕ → ℕ → List ℕ → List ℕ → CellClient × ℕ
create n sock send_size recv_size send_raw recv_raw = (
  record {
    id = n;
    server_id = Option.none;
    recv_msg_id = 1;
    send_msg_id = 1;
    sockfd = sock;
    recv_buff = Buffer.create recv_size recv_raw;
    send_buff = Buffer.create send_size send_raw;
    dt_heart = pos 0;
    dt_send = pos 0;
  },
  n + 1,
)

-- ~CELLClient: the sockets that it closes.
unfoldable pub destroy : CellClient → List Socket
destroy c = if is_valid c.sockfd then c.sockfd ∷ [] else []

unfoldable pub recv_data : CellClient → RecvReply → Option (ℤ × CellClient)
recv_data c reply =
    read_from_socket c.recv_buff reply >>= λ (ret, b). some (ret, record c { recv_buff = b })

unfoldable pub has_msg : CellClient → Bool
has_msg c = Buffer.has_msg c.recv_buff

-- The memory that the returned pointer shows.
unfoldable pub front_msg : CellClient → List ℕ
front_msg c = c.recv_buff.mem

unfoldable pub pop_front_msg : CellClient → Option CellClient
unfolding has_msg front_msg
pop_front_msg c =
    if has_msg c
    then (Buffer.pop c.recv_buff (data_length (front_msg c)) >>= λ b.
        some (record c { recv_buff = b }))
    else some c

unfoldable pub need_write : CellClient → Bool
need_write c = Buffer.need_write c.send_buff

unfoldable pub reset_dt_heart : CellClient → CellClient
reset_dt_heart c = record c { dt_heart = pos 0 }

unfoldable pub reset_dt_send : CellClient → CellClient
reset_dt_send c = record c { dt_send = pos 0 }

unfoldable pub send_data_real : CellClient → SendReply → Option (ℤ × CellClient)
unfolding reset_dt_send
send_data_real c reply =
    let c' = reset_dt_send c in
    write_to_socket c'.send_buff c'.sockfd reply >>= λ (ret, b).
    some (ret, record c' { send_buff = b })

-- SendData(pData, len)
unfoldable pub send_data : CellClient → List ℕ → ℤ × CellClient
send_data c bytes =
    let (ok, b) = push c.send_buff bytes in
    (if ok then pos (length bytes) else socket_error, record c { send_buff = b })

-- SendData(header), for a header that points to `mem`.
unfoldable pub send_header : CellClient → List ℕ → ℤ × CellClient
unfolding send_data
send_header c mem = send_data c (take (data_length mem) mem)

unfoldable pub check_heart : CellClient → ℤ → Bool × CellClient
check_heart c dt =
    let c' = record c { dt_heart = c.dt_heart +ℤ dt } in (leb_ℤ heart_dead_time c'.dt_heart, c')

-- The reply is the kernel's, should the buffer be sent.
unfoldable pub check_send : CellClient → ℤ → SendReply → Option (Bool × CellClient)
unfolding send_data_real reset_dt_send
check_send c dt reply =
    let c' = record c { dt_send = c.dt_send +ℤ dt } in
    if leb_ℤ send_buff_time c'.dt_send
    then (send_data_real c' reply >>= λ (ret, c''). some (true, reset_dt_send c''))
    else some (false, c')
