-- ===== src/MyClient/Setup.antt =====
-- client/client.cpp: the first part of WorkThread, which makes and connects the clients of a thread, and
-- the last, which closes them. The wait for the other threads is left out, and what they do to nConnect;
-- deleting a client that was closed closes nothing more.
use cpp_network_obj.Base.{
  ℕ, Bool, true, false, Option, none, some, List, [], ◌∷◌, ◌++◌, ℤ, pos, ◌+ℤ◌, if◌then◌else◌, ◌>>=◌,
}
use cpp_network_obj.Buffer.{Socket, is_valid}
use cpp_network_obj.Epoll.{unset}
use cpp_network_obj.Server.{is_error}
use cpp_network_obj.TcpClient.{connected}
use cpp_network_obj.TcpClient.Epoll.{init_socket, close}
use cpp_network_obj.MyClient.{create}
use cpp_network_obj.MyClient.Work.{Member}

-- What happens to a client: whether the thread runs as it is made and as it is connected, and the replies
-- of socket(), epoll_create and connect().
pub record Reply : Type 0 where
  pub made : Bool
  pub run : Bool
  pub sock : Socket
  pub epoll : ℤ
  pub connect : ℤ

-- The options, and the unset bytes of the buffers.
pub record Options : Type 0 where
  pub check_msg_id : Bool
  pub send_size : ℕ
  pub recv_size : ℕ
  pub send_raw : List ℕ
  pub recv_raw : List ℕ

-- new MyClient(); the IDs of its CELLClient, which nothing reads, start at 1 for each.
abbrev pub new_member : Options → Member
new_member o = (
  create o.check_msg_id,
  record {
    tcp = record { client = none; is_connect = false; next_id = 1; closed = [] };
    ep = unset;
  },
)

-- The loop that makes the clients: the pointers from where it stops stay null.
unfoldable pub make_all : Options → List Reply → List (Option Member)
make_all o [] = []
make_all o (r ∷ rs) =
    let rest = make_all o rs in if r.made then some (new_member o) ∷ rest else none ∷ nulls rs
  where
    nulls : List Reply → List (Option Member)
    nulls [] = []
    nulls (r ∷ rs) = none ∷ nulls rs

-- The body of the loop that connects the clients, for one: whether the loop goes on.
unfoldable pub connect_one : Options → Reply → Member → Option (Bool × Member)
unfolding init_socket connected
connect_one o r (m, e) =
    init_socket r.sock r.epoll o.send_size o.recv_size o.send_raw o.recv_raw e >>= λ (sock, e').
    some (
      if is_valid sock
      then (let (ret, tcp') = connected r.connect e'.tcp in
          if is_error ret then (false, (m, e')) else (true, (m, record e' { tcp = tcp' })))
      else (false, (m, e')))

-- The loop that connects the clients, with nConnect; `none` is the use of a null pointer.
unfoldable pub connect_all :
    Options → List Reply → List (Option Member) → ℤ → Option (ℤ × List (Option Member))
unfolding connect_one
connect_all o [] slots n = some (n, slots)
connect_all o (r ∷ rs) [] n = some (n, [])
connect_all o (r ∷ rs) (slot ∷ slots) n =
    if r.run
    then (slot >>= λ member. connect_one o r member >>= λ (go, member').
        if go
        then (connect_all o rs slots (n +ℤ pos 1) >>= λ (n', slots').
            some (n', some member' ∷ slots'))
        else some (n, some member' ∷ slots))
    else some (n, slot ∷ slots)

-- The loop that closes the clients: the sockets closed by each.
unfoldable pub close_all : List (Option Member) → Option (List Socket)
unfolding close
close_all [] = some []
close_all (slot ∷ slots) =
    slot >>= λ (m, e). close_all slots >>= λ socks. some ((close e).tcp.closed ++ socks)
