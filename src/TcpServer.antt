-- ===== src/TcpServer.antt =====
-- depends/include/EasyTcpServer.hpp: the listening socket, the workers and the counters they share.
-- The accepting thread, the log and the address of `bind` are left out.
pub mod Balance
pub mod Accepting
pub mod Closing
pub mod Gather
pub mod Lifetime
pub mod Waiting
pub mod Listening
use cpp_network_obj.Base.{
  ℕ, zero, suc, ◌+◌, Bool, true, false, not, Option, none, some, List, [], ◌∷◌, ◌++◌, ℤ, pos,
  negsuc, ◌+ℤ◌, leb_ℤ, length, ltb, if◌then◌else◌, ◌>>=◌, map, concat,
}
use cpp_network_obj.Buffer.{Socket, invalid_socket, fd, is_valid}
use cpp_network_obj.Client.{CellClient}
use cpp_network_obj.Client
use cpp_network_obj.NetEvent.{NetEvent}
use cpp_network_obj.Server.{CellServer, add_client, get_client_count, clear_clients}
use cpp_network_obj.Server

-- The counters that the workers' threads share; each update is atomic.
pub record Counters : Type 0 where
  pub recv_count : ℕ
  pub msg_count : ℕ
  pub client_count : ℤ

-- `next_id` is the static counter of CELLClient; `closed` the sockets closed so far.
pub record TcpServer : Type 0 where
  pub sock : Socket
  pub send_buff_size : ℕ
  pub recv_buff_size : ℕ
  pub max_client : ℤ
  pub servers : List CellServer
  pub counters : Counters
  pub next_id : ℕ
  pub closed : List Socket

-- EasyTcpServer(), with the values of the options nSendBuffSize, nRecvBuffSize and nMaxClient.
pub create : ℕ → ℕ → ℤ → TcpServer
create send_size recv_size max = record {
  sock = invalid_socket;
  send_buff_size = send_size;
  recv_buff_size = recv_size;
  max_client = max;
  servers = [];
  counters = record { recv_count = 0; msg_count = 0; client_count = pos 0 };
  next_id = 1;
  closed = [];
}

-- OnNetJoin, OnNetLeave, OnNetMsg and OnNetRecv.
unfoldable pub on_net_join : Counters → CellClient → Counters
on_net_join n c = record n { client_count = n.client_count +ℤ pos 1 }

unfoldable pub on_net_leave : Counters → CellClient → Counters
on_net_leave n c = record n { client_count = n.client_count +ℤ negsuc 0 }

unfoldable pub on_net_msg : Counters → CellClient → Counters
on_net_msg n c = record n { msg_count = n.msg_count + 1 }

unfoldable pub on_net_recv : Counters → CellClient → Counters
on_net_recv n c = record n { recv_count = n.recv_count + 1 }

-- time4msg, where `elapsed` says whether a second has passed.
unfoldable pub time4msg : Bool → Counters → Counters
time4msg elapsed n = if elapsed then record n { recv_count = 0; msg_count = 0 } else n

-- The search for the worker with the fewest clients: the index of pMinServer.
unfoldable pub min_index : ℕ → ℕ → ℕ → List CellServer → ℕ
min_index best count i [] = best
min_index best count i (srv ∷ rest) =
    let n = get_client_count srv in
    if ltb n count then min_index i n (i + 1) rest else min_index best count (i + 1) rest

-- The workers, with one more client at that index.
unfoldable pub add_at : ℕ → CellClient → List CellServer → List CellServer
add_at i c [] = []
add_at zero c (srv ∷ rest) = add_client srv c ∷ rest
add_at (suc i) c (srv ∷ rest) = srv ∷ add_at i c rest

-- addClientToCELLServer; _cellServers[0] is undefined where there is no worker.
unfoldable pub add_client_to_servers : CellClient → List CellServer → Option (List CellServer)
unfolding min_index add_at
add_client_to_servers c [] = none
add_client_to_servers c (srv ∷ rest) =
    some (add_at (min_index 0 (get_client_count srv) 0 (srv ∷ rest)) c (srv ∷ rest))

-- Accept, where accept() returned `reply`, over the unset bytes of a new client's buffers.
unfoldable pub accept : TcpServer → Socket → List ℕ → List ℕ → Option (Socket × TcpServer)
unfolding add_client_to_servers
accept t invalid_socket send_raw recv_raw = some (invalid_socket, t)
accept t (fd n) send_raw recv_raw =
    if leb_ℤ t.max_client t.counters.client_count
    then some (fd n, record t { closed = t.closed ++ fd n ∷ [] })
    else (let (c, next) =
          Client.create t.next_id (fd n) t.send_buff_size t.recv_buff_size send_raw recv_raw in
        add_client_to_servers c t.servers >>= λ servers.
        some (fd n, record t { servers = servers; next_id = next }))

-- Start<ServerT>(n): workers with the ids 1 to n, at the time `now`.
unfoldable pub new_servers : ℕ → ℕ → ℕ → List CellServer
new_servers zero i now = []
new_servers (suc n) i now = Server.create (i + 1) now ∷ new_servers n (i + 1) now

unfoldable pub start : ℕ → ℕ → TcpServer → TcpServer
unfolding new_servers
start n now t = record t { servers = t.servers ++ new_servers n 0 now }

-- Close: a worker that is deleted ends its thread, which clears its clients.
unfoldable pub close : TcpServer → TcpServer
unfolding clear_clients
close t =
    if is_valid t.sock
    then record t {
      sock = invalid_socket;
      servers = [];
      closed =
          t.closed ++ (concat (map (λ srv. (clear_clients srv).closed) t.servers) ++ t.sock ∷ []);
    }
    else t

-- InitSocket, where socket() returned `reply`.
unfoldable pub init_socket : Socket → TcpServer → Socket × TcpServer
unfolding close
init_socket reply t =
    let t' = if is_valid t.sock then close t else t in (reply, record t' { sock = reply })
