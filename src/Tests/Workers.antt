-- ===== src/Tests/Workers.antt =====
-- Workers and the server at concrete inputs.
use cpp_network_obj.Base.{
  ℕ, ◌≡◌, refl, Bool, ℤ, negsuc, ◌+ℤ◌, leb_ℤ, true, false, some, [], ◌∷◌, ◌++◌, if◌then◌else◌, ◌==◌,
  replicate, arith, pos,
}
use mathlib.Core.List.{Perm}
use cpp_network_obj.Buffer.{fd, invalid_socket}
use cpp_network_obj.Client.{CellClient}
use cpp_network_obj.Server.{CellServer, add_client, notify_leave}
use cpp_network_obj.Server.Heart.{Checked, check_time-Checked}
use cpp_network_obj.TcpServer.{TcpServer, add_client_to_servers, accept, close, on_net_leave}
use cpp_network_obj.TcpServer.Balance.{Fewest, add_client_to_servers_lem}
use cpp_network_obj.TcpServer.Accepting.{connections, accept-connections}
use cpp_network_obj.TcpServer.Closing.{closed_by, close-closed}
use cpp_network_obj.MyServer.{State, event}
use cpp_network_obj.Tests.Net.{options, start, holding}
use cpp_network_obj.FdSet.{FdBits}

-- A bitmap as a function.
abbrev put : ℕ → Bool → (ℕ → Bool) → ℕ → Bool
put n v b m = if n == m then v else b m

abbrev pub bits : FdBits
bits = record {
  Bits = ℕ → Bool;
  zeros = λ n. false;
  set = λ n b. put n true b;
  clr = λ n b. put n false b;
  is_set = λ n b. b n;
  is_set-zeros = λ n. refl;
  is_set-set_self = λ n b. ground arith;
  is_set-set_ne = λ n m b h. ground arith;
  is_set-clr_self = λ n b. ground arith;
  is_set-clr_ne = λ n m b h. ground arith;
}

-- A client of the given socket that has been silent for so long.
abbrev pub silent_for : ℕ → ℕ → CellClient
silent_for n dt = record (holding (replicate 16 0) 0) { sockfd = fd n; dt_heart = pos dt }

-- A worker with a client that is alive, one that is dead and one that waits.
abbrev pub worker : CellServer
worker = record {
  clients = (fd 7, silent_for 7 100) ∷ (fd 8, silent_for 8 59900) ∷ [];
  clients_buff = silent_for 9 0 ∷ [];
  old_time = 1000;
  id = 1;
  clients_change = false;
  closed = [];
}

abbrev pub idle_worker : CellServer
idle_worker = record worker { clients = []; clients_buff = []; id = 2 }

abbrev pub client_count : State → ℤ
client_count s = s.counters.client_count

one_less :
    (s : State) (c : CellClient)
    → client_count (notify_leave (some (event options)) s c) ≡ client_count s +ℤ negsuc 0
unfolding on_net_leave event
one_less s c = refl

check_time-Checked_example : Checked (some (event options)) client_count 1200 start worker
check_time-Checked_example =
    check_time-Checked (some (event options)) client_count 1200 start worker one_less
      ((refl, refl), ((refl, refl), tt))

add_client_to_servers_lem_example :
    (f : Fewest (worker ∷ idle_worker ∷ [])) × (add_client_to_servers
        (silent_for 5 0)
        (worker ∷ idle_worker ∷ [])
      ≡ some (f.before ++ (add_client f.chosen (silent_for 5 0) ∷ f.behind)))
add_client_to_servers_lem_example =
    add_client_to_servers_lem (silent_for 5 0) worker (idle_worker ∷ [])

abbrev pub server : TcpServer
server = record {
  sock = fd 3;
  send_buff_size = 64;
  recv_buff_size = 64;
  max_client = pos 10;
  servers = worker ∷ idle_worker ∷ [];
  counters = start.counters;
  next_id = 3;
  closed = [];
}

accept-connections_example :
    (t' : TcpServer) × (accept server (fd 10) (replicate 64 0) (replicate 64 0) ≡ some (fd 10, t'))
    × Perm (connections t') (fd 10 ∷ connections server)
    × (leb_ℤ server.max_client server.counters.client_count ≡ true → t'.servers ≡ server.servers)
    × (leb_ℤ server.max_client server.counters.client_count ≡ false → t'.closed ≡ server.closed)
accept-connections_example =
    accept-connections 10 server (replicate 64 0) (replicate 64 0) worker (idle_worker ∷ []) refl

close-closed_example :
    ((close server).servers ≡ [])
    × ((close server).sock ≡ invalid_socket)
    × ((close server).closed ≡ server.closed ++ (closed_by server.servers ++ server.sock ∷ []))
    × (close (close server) ≡ close server)
close-closed_example =
    close-closed server refl ((((refl, refl), ((refl, refl), tt)), (refl, tt)), ((tt, tt), tt))
