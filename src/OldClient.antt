-- ===== src/OldClient.antt =====
-- client/bak/TcpClient.cpp and TcpClient.h: the old client, with its message buffer. The system's
-- FD_SETSIZE is a parameter of OnRun; Windows' WSAStartup, the log but for what OnNetMsg writes, and
-- the address of Connect are left out.
pub mod Owned
pub mod Sockets
pub mod Running
use cpp_network_obj.Base.{
  ℕ, ◌+◌, ◌*◌, Bool, true, false, ◌&&◌, Option, none, some, List, [], ◌∷◌, ◌++◌, ℤ, pos, negsuc,
  length, take, overwrite, replicate, ltb, leb_ℤ, ◌==◌, if◌then◌else◌, ◌>>=◌,
}
use cpp_network_obj.Message.{data_length, cmd_field}
use cpp_network_obj.Buffer.{
  Socket, invalid_socket, fd, is_valid, SendReply, send_failed, sent, RecvReply, recv_failed,
  received, socket_error,
}
use cpp_network_obj.OldServer.{message_loop}
use cpp_network_obj.Server.{is_error}

-- RECV_BUFF_SZIE
abbrev pub buff_size : ℕ
buff_size = 10240

-- What OnNetMsg writes to the log, with the length field of the message.
pub data Notice : Type 0 where
  error_message unknown_message : ℕ → Notice

-- `notices` is what OnNetMsg has written; `closed` are the sockets closed so far.
pub record TcpClient : Type 0 where
  pub sock : Socket
  pub is_connect : Bool
  pub msg_buf : List ℕ
  pub last_pos : ℕ
  pub notices : List Notice
  pub closed : List Socket

-- A new client, over the unset bytes of its buffer: the constructor's assignments to the arrays write
-- one byte behind them.
unfoldable pub create : List ℕ → TcpClient
create raw = record {
  sock = invalid_socket;
  is_connect = false;
  msg_buf = raw;
  last_pos = 0;
  notices = [];
  closed = [];
}

unfoldable pub close : TcpClient → TcpClient
close c =
    if is_valid c.sock
    then record c { sock = invalid_socket; is_connect = false; closed = c.closed ++ c.sock ∷ [] }
    else record c { is_connect = false }

-- InitSocket, where socket() returned `reply`.
unfoldable pub init_socket : Socket → TcpClient → ℤ × TcpClient
unfolding close
init_socket reply c =
    let c' = if is_valid c.sock then close c else c in
    (if is_valid reply then pos 1 else pos 0, record c' { sock = reply })

-- Connect, where socket(), should it be called, returned `reply` and connect() returned `ret`.
unfoldable pub connect : Socket → ℤ → TcpClient → ℤ × TcpClient
unfolding init_socket
connect reply ret c =
    let c' = if is_valid c.sock then c else (init_socket reply c).1 in
    (ret, if is_error ret then c' else record c' { is_connect = true })

unfoldable pub is_run : TcpClient → Bool
is_run c = is_valid c.sock && c.is_connect

-- OnNetMsg: only a message of an error or of an unknown command is written to the log.
unfoldable pub on_net_msg : List Notice → List ℕ → Option (List Notice)
on_net_msg notices mem =
    if cmd_field mem == 1
    then some notices
    else if cmd_field mem == 3
    then some notices
    else if cmd_field mem == 4
    then some notices
    else if cmd_field mem == 5
    then some (notices ++ error_message (data_length mem) ∷ [])
    else some (notices ++ unknown_message (data_length mem) ∷ [])

-- RecvData; `none` too for a reply of recv() that does not fit in the part of the buffer it is offered.
unfoldable pub recv_data : ℕ → RecvReply → TcpClient → Option (ℤ × TcpClient)
unfolding on_net_msg message_loop
recv_data fuel recv_failed c = some (negsuc 0, c)
recv_data fuel (received bytes) c =
    if length bytes == 0
    then some (negsuc 0, c)
    else if ltb (buff_size * 5) (c.last_pos + length bytes)
    then none
    else (message_loop on_net_msg fuel c.notices (overwrite c.last_pos bytes c.msg_buf)
          (c.last_pos + length bytes)
        >>= λ (notices, buf, last).
            some (pos 0, record c { msg_buf = buf; last_pos = last; notices = notices }))

-- FD_SET and FD_ISSET on a set of `fd_setsize` descriptors.
abbrev pub in_set : ℕ → Socket → Bool
in_set fd_setsize invalid_socket = false
in_set fd_setsize (fd n) = ltb n fd_setsize

-- OnRun, where select() returned `ret` and left the socket in the set if `ready`.
unfoldable pub on_run : ℕ → ℕ → ℤ → Bool → RecvReply → TcpClient → Option (Bool × TcpClient)
unfolding is_run recv_data close
on_run fd_setsize fuel ret ready reply c =
    if is_run c
    then (if in_set fd_setsize c.sock
        then (if leb_ℤ (pos 0) ret
            then (if ready
                then (recv_data fuel reply c >>= λ (n, c').
                    some (if is_error n then (false, close c') else (true, c')))
                else some (true, c))
            else some (false, c))
        else none)
    else some (false, c)

-- SendData, where send() returned `reply`; `none` is a null pointer.
unfoldable pub send_data : Option (List ℕ) → SendReply → TcpClient → ℤ × TcpClient
unfolding is_run close
send_data none reply c = (socket_error, c)
send_data (some mem) send_failed c = if is_run c then (socket_error, close c) else (socket_error, c)
send_data (some mem) (sent n) c = if is_run c then (pos n, c) else (socket_error, c)
