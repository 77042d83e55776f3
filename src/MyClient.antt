-- ===== src/MyClient.antt =====
-- client/client.cpp: the client application, which sends logins and checks the answers.
-- A counter is a natural number, and its 32 bits where it is put into a message; the options nMsg and
-- nSendSleep are counts.
pub mod Rate
pub mod Queue
pub mod Exchange
pub mod Work
pub mod Setup
pub mod Ending
pub mod Missing
use cpp_network_obj.Base.{
  ℕ, ◌+◌, ◌-◌, Bool, true, false, Option, some, List, ℤ, pos, negsuc, ◌+ℤ◌, sub_ℕ, leb_ℤ, ltb, ◌==◌,
  if◌then◌else◌, ◌>>=◌,
}
use cpp_network_obj.Message.{code, Cmd, bytes, login_msg, cmd_field, read_msg_id}
use cpp_network_obj.Client.{CellClient}
use cpp_network_obj.Client.Drain.{Handler}
use cpp_network_obj.MyServer.{int_bits}
use cpp_network_obj.Server.{is_error}
use cpp_network_obj.TcpClient.{TcpClient, send_header}

-- The options nMsg and nSendSleep.
pub record SendOptions : Type 0 where
  pub n_msg : ℕ
  pub send_sleep : ℕ

-- The fields of MyClient, with the numbers of lines that OnNetMsg has logged: for a wrong message ID,
-- and for a message of an error or of no known command.
pub record MyClient : Type 0 where
  pub recv_msg_id : ℕ
  pub send_msg_id : ℕ
  pub rest_time : ℤ
  pub send_count : ℕ
  pub check_msg_id : Bool
  pub id_errors : ℕ
  pub undefined : ℕ

-- A new MyClient, where `check` says whether the option -checkMsgID is given.
abbrev pub create : Bool → MyClient
create check = record {
  recv_msg_id = 1;
  send_msg_id = 1;
  rest_time = pos 0;
  send_count = 0;
  check_msg_id = check;
  id_errors = 0;
  undefined = 0;
}

-- The case CMD_LOGIN_RESULT; the message ID is read whatever the length of the message.
unfoldable pub check_id : List ℕ → MyClient → Option MyClient
check_id mem s =
    if s.check_msg_id
    then (read_msg_id mem >>= λ id. some (record s {
      id_errors = if id == int_bits s.recv_msg_id then s.id_errors else s.id_errors + 1;
      recv_msg_id = s.recv_msg_id + 1;
    }))
    else some s

-- OnNetMsg
unfoldable pub answer : List ℕ → MyClient → Option MyClient
unfolding check_id
answer mem s =
    let cmd = cmd_field mem in
    if cmd == code Cmd.login_result
    then check_id mem s
    else if cmd == code Cmd.logout_result
    then some s
    else if cmd == code Cmd.new_user_join
    then some s
    else some (record s { undefined = s.undefined + 1 })

unfoldable pub on_net_msg : Handler MyClient
unfolding answer
on_net_msg s c mem = answer mem s >>= λ s'. some (s', c)

-- The netmsg_Login of a thread, with the fields that it has set.
pub record Login : Type 0 where
  pub user_name : List ℕ
  pub pass_word : List ℕ
  pub chars : List ℕ

abbrev pub login_bytes : Login → ℕ → List ℕ
login_bytes l n = bytes (login_msg l.user_name l.pass_word l.chars (int_bits n))

-- SendTest
unfoldable pub send_test : Login → MyClient → TcpClient → ℤ × MyClient × TcpClient
unfolding send_header
send_test l s t =
    if ltb 0 s.send_count
    then (let (ret, t') = send_header (login_bytes l s.send_msg_id) t in
        (
          ret,
          if is_error ret
              then s
              else record s { send_msg_id = s.send_msg_id + 1; send_count = s.send_count - 1 },
          t',
        ))
    else (pos 0, s, t)

module _ (o : SendOptions) where
  -- checkSend
  unfoldable pub check_send : ℤ → MyClient → Bool × MyClient
  check_send dt s =
      let rest = s.rest_time +ℤ dt in
      let s' : MyClient =
        if leb_ℤ (pos o.send_sleep) rest
        then record s { rest_time = rest +ℤ sub_ℕ 0 o.send_sleep; send_count = o.n_msg }
        else record s { rest_time = rest } in
      (ltb 0 s'.send_count, s')
