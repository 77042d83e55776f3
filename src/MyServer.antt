-- ===== src/MyServer.antt =====
-- server/server.cpp: the server application, which answers the messages of its clients.
pub mod Laws
pub mod Logins
pub mod Answers
use cpp_network_obj.Base.{
  ℕ, suc, ◌+◌, ◌%◌, ◌^◌, Bool, true, false, Option, some, List, [], ◌∷◌, length, ◌==◌,
  if◌then◌else◌, ◌>>=◌,
}
use cpp_network_obj.Message.{code, Cmd, bytes, login_r, s2c_heart_msg, cmd_field, read_msg_id}
use cpp_network_obj.Client.{CellClient, reset_dt_heart, send_data, send_header}
use cpp_network_obj.Client.Drain.{Handler}
use cpp_network_obj.NetEvent.{NetEvent}
use cpp_network_obj.Server.{is_error}
use cpp_network_obj.Stream.{CellStream, read_or, only_read, read_array, write, write_array}
use cpp_network_obj.MsgStream.{read_stream, get_net_cmd, write_stream, set_net_cmd, finish, message}
use cpp_network_obj.TcpServer.{Counters}
use cpp_network_obj.TcpServer

-- The options, and the bytes that the program leaves unset in an answer on its stack.
pub record Options : Type 0 where
  pub send_back : Bool
  pub send_full : Bool
  pub check_msg_id : Bool
  pub result_chars : List ℕ
  pub stream_raw : List ℕ

-- The counters of EasyTcpServer, and how many wrong message IDs were logged.
pub record State : Type 0 where
  pub counters : Counters
  pub id_errors : ℕ

-- An `int` in memory.
abbrev pub int_bits : ℕ → ℕ
int_bits n = n % 2 ^ 32

-- The fields of a logout message, in their order.
pub record LogoutFields : Type 0 where
  pub n1 : ℕ
  pub n2 : ℕ
  pub n3 : ℕ
  pub n4 : ℕ
  pub n5 : ℕ
  pub name : List ℕ
  pub pw : List ℕ
  pub ata : List ℕ

-- The first part of the case CMD_LOGOUT: the message is read.
unfoldable pub read_scalars : List ℕ → (ℕ × ℕ × ℕ × ℕ × ℕ) × CellStream
read_scalars mem =
    let (len, r₁) = read_or 2 0 (read_stream mem) in
    let (cmd, r₂) = get_net_cmd r₁ in
    let (n₁, r₃) = read_or 1 0 r₂ in
    let (n₂, r₄) = read_or 2 0 r₃ in
    let (n₃, r₅) = read_or 4 0 r₄ in
    let (n₄, r₆) = read_or 4 0 r₅ in
    let (n₅, r₇) = read_or 8 0 r₆ in let (n, r₈) = only_read 4 r₇ in ((n₁, n₂, n₃, n₄, n₅), r₈)

unfoldable pub read_logout : List ℕ → Option LogoutFields
read_logout mem =
    let (n, r) = read_scalars mem in
    read_array 1 32 r >>= λ (name, r₁). read_array 1 32 r₁ >>= λ (pw, r₂).
    read_array 4 10 r₂ >>= λ (ata, r₃).
    some
      (record { n1 = n.0; n2 = n.1; n3 = n.2; n4 = n.3; n5 = n.4; name = name; pw = pw; ata = ata })

-- The second part: the answer is composed, over the unset bytes of its stream. The results of the
-- writes are not looked at.
unfoldable pub write_scalars : List ℕ → LogoutFields → CellStream
write_scalars raw f =
    let s = set_net_cmd (code Cmd.logout_result) (write_stream 128 raw) in
    let s₁ = (write 1 f.n1 s).1 in
    let s₂ = (write 2 f.n2 s₁).1 in
    let s₃ = (write 4 f.n3 s₂).1 in let s₄ = (write 4 f.n4 s₃).1 in (write 8 f.n5 s₄).1

unfoldable pub write_logout : List ℕ → LogoutFields → Option (List ℕ)
write_logout raw f = write_array 1 f.name (write_scalars raw f) >>= λ (ok₁, s₁).
    write_array 1 f.pw s₁ >>= λ (ok₂, s₂).
    write_array 4 f.ata s₂ >>= λ (ok₃, s₃). some (message (finish s₃))

module _ (o : Options) where
  -- The check of the message ID of a login, which is read whatever the length of the message.
  unfoldable pub check_id : List ℕ → State → CellClient → Option (State × CellClient)
  check_id mem s c =
      if o.check_msg_id
      then (read_msg_id mem >>= λ id. some (
        if id == int_bits c.recv_msg_id then s else record s { id_errors = s.id_errors + 1 },
        record c { recv_msg_id = c.recv_msg_id + 1 },
      ))
      else some (s, c)

  -- The answer to a login; where the buffer is full it is dropped.
  unfoldable pub answer_login : CellClient → CellClient
  answer_login c =
      if o.send_back
      then (let (ret, c') =
            send_header c (bytes (login_r 0 o.result_chars (int_bits c.send_msg_id))) in
          if is_error ret then c' else record c' { send_msg_id = c'.send_msg_id + 1 })
      else c

  -- The answer to a logout: the fields of the message, sent back.
  unfoldable pub answer_logout : List ℕ → CellClient → Option CellClient
  answer_logout mem c =
      read_logout mem >>= λ f. write_logout o.stream_raw f >>= λ msg. some ((send_data c msg).1)

  -- The switch of OnNetMsg on the command. The case of a heartbeat falls through to the default,
  -- which only writes to the log.
  unfoldable pub dispatch : List ℕ → State → CellClient → Option (State × CellClient)
  dispatch mem s c =
      let cmd = cmd_field mem in
      if cmd == code Cmd.login
      then (check_id mem s (reset_dt_heart c) >>= λ (s', c'). some (s', answer_login c'))
      else if cmd == code Cmd.logout
      then (answer_logout mem (reset_dt_heart c) >>= λ c'. some (s, c'))
      else if cmd == code Cmd.c2s_heart
      then some (s, (send_header (reset_dt_heart c) (bytes s2c_heart_msg)).1)
      else some (s, c)

  unfoldable pub on_net_msg : Handler State
  on_net_msg s c mem = dispatch mem (record s { counters = TcpServer.on_net_msg s.counters c }) c

  unfoldable pub event : NetEvent State
  event = record {
    on_net_join = λ s c. record s { counters = TcpServer.on_net_join s.counters c };
    on_net_leave = λ s c. record s { counters = TcpServer.on_net_leave s.counters c };
    on_net_msg = on_net_msg;
    on_net_recv = λ s c. record s { counters = TcpServer.on_net_recv s.counters c };
  }
