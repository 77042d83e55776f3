-- ===== src/EchoServer.antt =====
-- epoll/epoll-base-main.cpp: a stand-alone server over epoll. The calls that set up the listening socket
-- and the epoll descriptor, the input thread and the log are left out; a descriptor is its number.
pub mod Erasing
pub mod Accounts
use cpp_network_obj.Base.{
  ℕ, ◌+◌, Bool, true, false, ◌&&◌, Option, none, some, List, [], ◌∷◌, ◌++◌, ℤ, pos, negsuc, length,
  take, overwrite, ◌==◌, leb_ℤ, if◌then◌else◌, ◌>>=◌,
}
use cpp_network_obj.Buffer.{
  Socket, invalid_socket, fd, SendReply, send_failed, sent, RecvReply, recv_failed, received,
  socket_error,
}

-- A call of epoll_ctl: the operation, the descriptor, and whether EPOLLIN is asked for.
pub data Op : Type 0 where
  ctl_add ctl_mod ctl_del : Op

pub record Ctl : Type 0 where
  pub op : Op
  pub sock : ℕ
  pub input : Bool

-- The globals of the program and the locals of main(): `len` is g_nLen, `count` is cCount. `sent_data`
-- is what the calls of send() were offered, `closed` the descriptors closed so far.
pub record EchoServer : Type 0 where
  pub clients : List ℕ
  pub buff : List ℕ
  pub len : ℤ
  pub msg_count : ℕ
  pub count : ℕ
  pub calls : List Ctl
  pub sent_data : List (List ℕ)
  pub closed : List ℕ

-- An event that epoll_wait stored, with the replies of accept(), recv() and send(), should they be called.
pub record Event : Type 0 where
  pub sock : ℕ
  pub input : Bool
  pub output : Bool
  pub accepted : Socket
  pub recv : RecvReply
  pub send : SendReply

unfoldable pub cell_epoll_ctl : Op → ℕ → Bool → EchoServer → EchoServer
cell_epoll_ctl op sock input s = record s {
  calls = s.calls ++ (record { op = op; sock = sock; input = input }) ∷ [];
}

-- readData; the kernel stores at most 4096 bytes.
unfoldable pub read_data : RecvReply → EchoServer → ℤ × EchoServer
read_data recv_failed s = (socket_error, record s { len = socket_error })
read_data (received bytes) s =
    (pos (length bytes), record s { buff = overwrite 0 bytes s.buff; len = pos (length bytes) })

-- The bytes in use.
abbrev used : ℤ → List ℕ → List ℕ
used (pos n) buff = take n buff
used (negsuc n) buff = []

abbrev sent_count : SendReply → ℤ
sent_count send_failed = socket_error
sent_count (sent n) = pos n

-- WriteData
unfoldable pub write_data : SendReply → EchoServer → ℤ × EchoServer
write_data reply s =
    if leb_ℤ (pos 1) s.len
    then (
      sent_count reply,
      record s { len = pos 0; sent_data = s.sent_data ++ used s.len s.buff ∷ [] },
    )
    else (pos 1, s)

-- g_clients.erase(find(g_clients, k)), which is undefined where it is not there.
unfoldable pub erase : ℕ → List ℕ → Option (List ℕ)
erase k [] = none
erase k (j ∷ js) = let rest = erase k js in if j == k then some js else (rest >>= λ r. some (j ∷ r))

-- clientLeave
unfoldable pub client_leave : ℕ → EchoServer → Option EchoServer
unfolding erase
client_leave k s = erase k s.clients >>= λ clients.
    some (record s { clients = clients; closed = s.closed ++ k ∷ [] })

-- The new connection in the loop over the events.
unfoldable pub accept_client : Socket → EchoServer → EchoServer
unfolding cell_epoll_ctl
accept_client invalid_socket s = record s { count = s.count + 1 }
accept_client (fd n) s =
    cell_epoll_ctl Op.ctl_add n true
      (record s { count = s.count + 1; clients = s.clients ++ n ∷ [] })

-- The part of the loop's body for a client that can be read.
unfoldable pub input_event : Event → EchoServer → Option EchoServer
unfolding read_data client_leave
input_event ev s =
    let (ret, s') = read_data ev.recv s in
    if leb_ℤ ret (pos 0) then client_leave ev.sock s' else some s'

-- The part of the loop's body for a client that can be written.
unfoldable pub output_event : Event → EchoServer → Option EchoServer
unfolding write_data client_leave cell_epoll_ctl
output_event ev s =
    let (ret, s') = write_data ev.send s in
    (if leb_ℤ ret (pos 0) then client_leave ev.sock s' else some s') >>= λ s''. some (
      if leb_ℤ (pos 5) (pos s''.msg_count)
      then cell_epoll_ctl Op.ctl_del ev.sock false s''
      else cell_epoll_ctl Op.ctl_mod ev.sock true s'')

-- The body of the loop over the events.
unfoldable pub do_event : ℕ → Event → EchoServer → Option EchoServer
unfolding accept_client input_event output_event
do_event listener ev s =
    if (ev.sock == listener) && ev.input
    then some (accept_client ev.accepted s)
    else ((if ev.input then input_event ev s else some s) >>= λ s'.
        if ev.output then output_event ev s' else some s')

unfoldable pub do_events : ℕ → List Event → EchoServer → Option EchoServer
unfolding do_event
do_events listener [] s = some s
do_events listener (ev ∷ evs) s = do_event listener ev s >>= λ s'. do_events listener evs s'

-- One round of main(): the result of epoll_wait, and the events that it stored; false if the loop ends.
unfoldable pub round : ℕ → ℤ → List Event → EchoServer → Option (Bool × EchoServer)
unfolding do_events
round listener (pos n) evs s = do_events listener (take n evs) s >>= λ s'. some (true, s')
round listener (negsuc n) evs s = some (false, s)

-- The end of main().
unfoldable pub shut_down : ℕ → ℕ → EchoServer → EchoServer
shut_down epfd listener s = record s { closed = s.closed ++ (s.clients ++ epfd ∷ listener ∷ []) }
