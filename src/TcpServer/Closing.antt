-- ===== src/TcpServer/Closing.antt =====
-- What is closed when a server is shut down.
use mathlib.Core.List.{Mem, mem-cons_self, mem-cons_of_mem, mem-append_left, mem-append_right}
use cpp_network_obj.Base.{◌≡◌, refl, ap, ap₂, true, List, [], ◌∷◌, ◌++◌, All, map, concat}
use cpp_network_obj.Buffer.{Socket, invalid_socket, is_valid}
use cpp_network_obj.Client.{CellClient, destroy}
use cpp_network_obj.Server.{CellServer, Clients, clear_clients}
use cpp_network_obj.Server.Sweep.{sockets, worker_sockets, Each}
use cpp_network_obj.TcpServer.{TcpServer, close}

-- All clients of a worker have a socket.
abbrev pub Connected : CellServer → Type 0
Connected srv = Each (λ c. c ≡ c) srv.clients × All (λ c. is_valid c.sockfd ≡ true) srv.clients_buff

destroy-served :
    (m : Clients) → Each (λ c. c ≡ c) m → concat (map (λ kc. destroy kc.1) m) ≡ sockets m
unfolding destroy
destroy-served [] h = refl
destroy-served ((k, c) ∷ m) ((v, p), h) = rw v (ap (◌∷◌ c.sockfd) (destroy-served m h))

destroy-waiting :
    (cs : List CellClient)
    → All (λ c. is_valid c.sockfd ≡ true) cs
    → concat (map destroy cs) ≡ map (λ c. c.sockfd) cs
unfolding destroy
destroy-waiting [] h = refl
destroy-waiting (c ∷ cs) (v, h) = rw v (ap (◌∷◌ c.sockfd) (destroy-waiting cs h))

Each-valid :
    (m : Clients) → ((k : Socket) → Mem k (sockets m) → is_valid k ≡ true) → Each (λ c. c ≡ c) m
Each-valid [] valid = tt
Each-valid ((k, c) ∷ m) valid = (
  (valid c.sockfd mem-cons_self, refl),
  Each-valid m (λ j mem. valid j (mem-cons_of_mem c.sockfd mem)),
)

All-valid :
    (cs : List CellClient)
    → ((k : Socket) → Mem k (map (λ c. c.sockfd) cs) → is_valid k ≡ true)
    → All (λ c. is_valid c.sockfd ≡ true) cs
All-valid [] valid = tt
All-valid (c ∷ cs) valid =
    (valid c.sockfd mem-cons_self, All-valid cs (λ j mem. valid j (mem-cons_of_mem c.sockfd mem)))

pub valid-Connected :
    (srv : CellServer)
    → ((k : Socket) → Mem k (worker_sockets srv) → is_valid k ≡ true)
    → Connected srv
valid-Connected srv valid = (
  Each-valid srv.clients (λ k mem. valid k (mem-append_left _ mem)),
  All-valid srv.clients_buff (λ k mem. valid k (mem-append_right (sockets srv.clients) mem)),
)

pub clear-closed :
    (srv : CellServer)
    → Connected srv
    → (clear_clients srv).closed ≡ srv.closed ++ worker_sockets srv
unfolding clear_clients
clear-closed srv (served, waiting) =
    ap (λ l. srv.closed ++ l)
      (ap₂ (λ a b. a ++ b) (destroy-served srv.clients served)
        (destroy-waiting srv.clients_buff waiting))

-- What each worker has closed at its end: the sockets that it closed before, and those that it has.
abbrev pub closed_by : List CellServer → List Socket
closed_by [] = []
closed_by (srv ∷ rest) = (srv.closed ++ worker_sockets srv) ++ closed_by rest

closed_by_lem :
    (servers : List CellServer)
    → All Connected servers
    → concat (map (λ srv. (clear_clients srv).closed) servers) ≡ closed_by servers
closed_by_lem [] h = refl
closed_by_lem (srv ∷ rest) (connected, h) =
    ap₂ (λ a b. a ++ b) (clear-closed srv connected) (closed_by_lem rest h)

-- Close of an open server whose clients all have a socket leaves no worker and no listening socket;
-- it closes the socket of each client, served or waiting, once, and then the listening socket. A
-- second Close changes nothing.
pub close-closed :
    (t : TcpServer)
    → is_valid t.sock ≡ true
    → All Connected t.servers
    → ((close t).servers ≡ [])
      × ((close t).sock ≡ invalid_socket)
      × ((close t).closed ≡ t.closed ++ (closed_by t.servers ++ t.sock ∷ []))
      × (close (close t) ≡ close t)
unfolding close
close-closed t v h =
    (rw v, rw v, rw v (ap (λ l. t.closed ++ (l ++ t.sock ∷ [])) (closed_by_lem t.servers h)), rw v)
