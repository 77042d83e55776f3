-- ===== src/OldTcpServer.antt =====
-- server/bak/TcpServer.cpp, and what it uses of CellServer in server/bak/TcpServer.h: the old listening
-- server. The loops of the workers, bind, listen and the log are left out; FD_SETSIZE is a parameter.
pub mod Rounds
pub mod Joins
use cpp_network_obj.Base.{
  ℕ, zero, suc, ◌+◌, Bool, true, false, Option, none, some, List, [], ◌∷◌, ◌++◌, ℤ, pos, negsuc,
  ◌+ℤ◌, leb_ℤ, length, ltb, replicate, if◌then◌else◌, ◌>>=◌,
}
use cpp_network_obj.Buffer.{Socket, invalid_socket, fd, is_valid}
use cpp_network_obj.OldServer.{ClientSocket}
use cpp_network_obj.OldServer
use cpp_network_obj.OldClient.{in_set}

-- `sock` is the listening socket, which each worker is given.
pub record CellServer : Type 0 where
  pub sock : Socket
  pub clients : List (Socket × ClientSocket)
  pub clients_buff : List ClientSocket

-- CellServer(sock)
unfoldable pub new_worker : Socket → CellServer
new_worker sock = record { sock = sock; clients = []; clients_buff = [] }

unfoldable pub get_client_count : CellServer → ℕ
get_client_count w = length w.clients + length w.clients_buff

unfoldable pub add_client : CellServer → ClientSocket → CellServer
add_client w c = record w { clients_buff = w.clients_buff ++ c ∷ [] }

-- `closed` are the descriptors that Close has closed so far.
pub record TcpServer : Type 0 where
  pub sock : Socket
  pub servers : List CellServer
  pub recv_count : ℕ
  pub msg_count : ℕ
  pub client_count : ℤ
  pub closed : List Socket

unfoldable pub create : TcpServer
create = record {
  sock = invalid_socket;
  servers = [];
  recv_count = 0;
  msg_count = 0;
  client_count = pos 0;
  closed = [];
}

-- Close, which leaves _sock as it is.
unfoldable pub close : TcpServer → TcpServer
close t = if is_valid t.sock then record t { closed = t.closed ++ t.sock ∷ [] } else t

-- InitSocket, where socket() returned `reply`.
unfoldable pub init_socket : Socket → TcpServer → Socket × TcpServer
unfolding close
init_socket reply t =
    let t' = if is_valid t.sock then close t else t in (reply, record t' { sock = reply })

unfoldable pub on_net_join : TcpServer → ClientSocket → TcpServer
on_net_join t c = record t { client_count = t.client_count +ℤ pos 1 }

unfoldable pub on_net_leave : TcpServer → ClientSocket → TcpServer
on_net_leave t c = record t { client_count = t.client_count +ℤ negsuc 0 }

unfoldable pub on_net_msg : TcpServer → ClientSocket → TcpServer
on_net_msg t c = record t { msg_count = t.msg_count + 1 }

unfoldable pub on_net_recv : TcpServer → ClientSocket → TcpServer
on_net_recv t c = record t { recv_count = t.recv_count + 1 }

-- The loop that looks for the worker with the fewest clients: the best index so far and its count,
-- and the index of the next worker.
unfoldable pub min_worker : ℕ → ℕ → ℕ → List CellServer → ℕ
min_worker best count i [] = best
min_worker best count i (w ∷ ws) =
    if ltb (get_client_count w) count
    then min_worker i (get_client_count w) (i + 1) ws
    else min_worker best count (i + 1) ws

-- The workers, with one more client at that index.
unfoldable pub add_at : ℕ → ClientSocket → List CellServer → List CellServer
add_at i c [] = []
add_at zero c (w ∷ ws) = add_client w c ∷ ws
add_at (suc i) c (w ∷ ws) = w ∷ add_at i c ws

-- addClientToCellServer; _cellServers[0] is undefined where there is no worker.
unfoldable pub add_client_to_cell_server : ClientSocket → TcpServer → Option TcpServer
unfolding min_worker add_at on_net_join
add_client_to_cell_server c t = elim t.servers [
  | [] ↦ none
  | w ∷ ws ↦ some (
      on_net_join
        (record t { servers = add_at (min_worker 0 (get_client_count w) 0 (w ∷ ws)) c (w ∷ ws) }) c)
]

-- Accept, where accept() returned `reply`.
unfoldable pub accept : Socket → TcpServer → Option (Socket × TcpServer)
unfolding add_client_to_cell_server
accept invalid_socket t = some (invalid_socket, t)
accept (fd n) t = add_client_to_cell_server (OldServer.create (fd n)) t >>= λ t'. some (fd n, t')

-- Start
unfoldable pub start : ℕ → TcpServer → TcpServer
start n t = record t { servers = t.servers ++ replicate n (new_worker t.sock) }

unfoldable pub is_run : TcpServer → Bool
is_run t = is_valid t.sock

-- time4msg, where `elapsed` says whether a second has passed.
unfoldable pub time4msg : Bool → TcpServer → TcpServer
time4msg elapsed t = if elapsed then record t { recv_count = 0; msg_count = 0 } else t

-- OnRun, where select() returned `ret` and left the socket in the set if `ready`, and accept(), should
-- it be called, returns `reply`.
unfoldable pub on_run : ℕ → Bool → ℤ → Bool → Socket → TcpServer → Option (Bool × TcpServer)
unfolding is_run time4msg accept close
on_run fd_setsize elapsed ret ready reply t =
    if is_run t
    then (let t' = time4msg elapsed t in
        if in_set fd_setsize t'.sock
        then (if leb_ℤ (pos 0) ret
            then (if ready
                then (accept reply t' >>= λ (sock, t''). some (true, t''))
                else some (true, t'))
            else some (false, close t'))
        else none)
    else some (false, t)
