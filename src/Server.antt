-- ===== src/Server.antt =====
-- depends/include/CELLServer.hpp: one worker, with the clients that it serves. The thread, its lock
-- and the sleep are left out: a call of `on_run_step` is one round of the loop of OnRun.
pub mod Heart
pub mod Served
pub mod Joining
pub mod Dispatch
pub mod Turn
pub mod Sweep
pub mod Select
pub mod Epoll
use cpp_network_obj.Base.{
  ℕ, suc, ◌+◌, Bool, true, false, not, ◌||◌, Option, none, some, List, [], ◌∷◌, ◌++◌, ℤ, pos,
  negsuc, sub_ℕ, length, ltb, leb, ◌==◌, if◌then◌else◌, ◌>>=◌, map, concat,
}
use cpp_network_obj.Buffer.{Socket, invalid_socket, fd, RecvReply, SendReply}
use cpp_network_obj.Client.{CellClient, check_heart, destroy}
use cpp_network_obj.Client
use cpp_network_obj.Client.Drain.{Handler, drain}
use cpp_network_obj.NetEvent.{NetEvent}

-- The order of SOCKET values; INVALID_SOCKET is -1.
abbrev pub sock_lt : Socket → Socket → Bool
sock_lt invalid_socket invalid_socket = false
sock_lt invalid_socket (fd b) = true
sock_lt (fd a) invalid_socket = false
sock_lt (fd a) (fd b) = ltb a b

abbrev pub sock_eq : Socket → Socket → Bool
sock_eq invalid_socket invalid_socket = true
sock_eq invalid_socket (fd b) = false
sock_eq (fd a) invalid_socket = false
sock_eq (fd a) (fd b) = a == b

abbrev pub is_error : ℤ → Bool
is_error (pos n) = false
is_error (negsuc n) = n == 0

-- std::map<SOCKET, CELLClient*>, in the order of the keys.
abbrev pub Clients : Type 0
Clients = List (Socket × CellClient)

-- clients[sock] = client
unfoldable pub assign : Socket → CellClient → Clients → Clients
assign k c [] = (k, c) ∷ []
assign k c ((j, d) ∷ m) =
    if sock_eq j k
    then (k, c) ∷ m
    else if sock_lt k j
    then (k, c) ∷ (j, d) ∷ m
    else (j, d) ∷ assign k c m

-- `closed` are the sockets that the destructors of its clients have closed.
pub record CellServer : Type 0 where
  pub clients : Clients
  pub clients_buff : List CellClient
  pub old_time : ℕ
  pub id : ℕ
  pub clients_change : Bool
  pub closed : List Socket

-- A new worker after setId, where the clock shows `now`.
unfoldable pub create : ℕ → ℕ → CellServer
create n now = record {
  clients = [];
  clients_buff = [];
  old_time = now;
  id = n;
  clients_change = true;
  closed = [];
}

unfoldable pub add_client : CellServer → CellClient → CellServer
add_client srv c = record srv { clients_buff = srv.clients_buff ++ c ∷ [] }

unfoldable pub get_client_count : CellServer → ℕ
get_client_count srv = length srv.clients + length srv.clients_buff

-- ClearClients, with the sockets that the destructors close.
unfoldable pub clear_clients : CellServer → CellServer
clear_clients srv = record srv {
  clients = [];
  clients_buff = [];
  closed =
      srv.closed
      ++ (concat (map (λ kc. destroy kc.1) srv.clients) ++ concat (map destroy srv.clients_buff));
}

-- An epoll_event: the client that its pointer shows, known by its socket, and the bits EPOLLIN and
-- EPOLLOUT.
pub record EpollEvent : Type 0 where
  pub client : Option Socket
  pub input : Bool
  pub output : Bool

-- What the kernel does for a worker in one round: the time, the result of select or epoll_wait (and
-- whether errno is EINTR), which sockets it finds ready or the events that it stores, and the results
-- of recv and send.
pub record Round : Type 0 where
  pub now : ℕ
  pub selected : ℤ
  pub eintr : Bool
  pub readable : ℕ → Bool
  pub writable : ℕ → Bool
  pub events : List EpollEvent
  pub recv : Socket → RecvReply
  pub send : Socket → SendReply

-- The two virtual functions of a worker, where `P` are the fields that a subclass adds.
pub record Poller (S P : Type 0) : Type 0 where
  pub on_client_join : P → CellClient → P
  pub do_net_events : Round → S → P → CellServer → Option (Bool × S × P × CellServer)

-- After a walk over the clients that may erase some: the owner's state, the clients left, the sockets
-- closed, and whether any client was erased.
pub record Swept (S : Type 0) : Type 0 where
  pub state : S
  pub kept : Clients
  pub shut : List Socket
  pub any : Bool

module _ {S : Type 0} (event : Option (NetEvent S)) where
  abbrev pub notify_join : S → CellClient → S
  notify_join s c = elim event [ none ↦ s | some e ↦ e.on_net_join s c ]

  abbrev pub notify_leave : S → CellClient → S
  notify_leave s c = elim event [ none ↦ s | some e ↦ e.on_net_leave s c ]

  -- for (iter = _clients.begin(); …), where a visit says whether the client stays. One that goes is
  -- told to the owner, deleted and erased.
  unfoldable pub sweep :
      (S → CellClient → Option (Bool × S × CellClient)) → S → Clients → Option (Swept S)
  sweep visit s [] = some (record { state = s; kept = []; shut = []; any = false })
  sweep visit s ((k, c) ∷ m) = visit s c >>= λ (stays, s', c').
      sweep visit (if stays then s' else notify_leave s' c') m >>= λ r. some (
        if stays
        then record r { kept = (k, c') ∷ r.kept }
        else record r { shut = destroy c' ++ r.shut; any = true })

  abbrev pub swept_into : CellServer → Swept S → S × CellServer
  swept_into srv r = (
    r.state,
    record srv {
      clients = r.kept;
      closed = srv.closed ++ r.shut;
      clients_change = srv.clients_change || r.any;
    },
  )

  abbrev pub heart_visit : ℤ → S → CellClient → Option (Bool × S × CellClient)
  heart_visit dt s c = let (dead, c') = check_heart c dt in some (not dead, s, c')

  unfoldable pub check_time : ℕ → S → CellServer → Option (S × CellServer)
  unfolding sweep check_heart
  check_time now s srv = sweep (heart_visit (sub_ℕ now srv.old_time)) s srv.clients >>= λ r.
      some (swept_into (record srv { old_time = now }) r)

  -- RecvData: without an owner its call of OnNetRecv is undefined.
  unfoldable pub recv_data : RecvReply → S → CellClient → Option (ℤ × S × CellClient)
  recv_data reply s c =
      Client.recv_data c reply >>= λ (ret, c'). event >>= λ e. some (ret, e.on_net_recv s c', c')

  -- OnNetMsg
  unfoldable pub on_net_msg : Handler S
  on_net_msg s c mem = event >>= λ e. e.on_net_msg s c mem

  -- DoMsg, with the fuel for the loop over the messages of one client.
  unfoldable pub do_msg_clients : ℕ → S → Clients → Option (S × Clients)
  unfolding on_net_msg
  do_msg_clients fuel s [] = some (s, [])
  do_msg_clients fuel s ((k, c) ∷ m) = drain on_net_msg fuel s c >>= λ (s', c').
      do_msg_clients fuel s' m >>= λ (s'', m'). some (s'', (k, c') ∷ m')

  unfoldable pub do_msg : ℕ → S → CellServer → Option (S × CellServer)
  unfolding do_msg_clients
  do_msg fuel s srv =
      do_msg_clients fuel s srv.clients >>= λ (s', m). some (s', record srv { clients = m })

  module _ {P : Type 0} (poller : Poller S P) where
    -- The clients that the accepting thread added become clients of the worker.
    unfoldable pub take_in : List CellClient → S → P → CellServer → S × P × CellServer
    take_in [] s p srv = (s, p, srv)
    take_in (c ∷ cs) s p srv =
        let c' : CellClient = record c { server_id = some srv.id } in
        take_in cs (notify_join s c') (poller.on_client_join p c')
          (record srv { clients = assign c.sockfd c' srv.clients })

    abbrev pub is_empty : {A : Type 0} → List A → Bool
    is_empty [] = true
    is_empty (x ∷ xs) = false

    -- The first part of a round: the clients that wait are taken in.
    unfoldable pub join_waiting : S → P → CellServer → S × P × CellServer
    join_waiting s p srv =
        if is_empty srv.clients_buff
        then (s, p, srv)
        else (let (s', p', srv') = take_in srv.clients_buff s p srv in
            (s', p', record srv' { clients_buff = []; clients_change = true }))

    -- The second part, for a worker that has clients; false if it leaves the loop.
    unfoldable pub serve : ℕ → Round → S → P → CellServer → Option (Bool × S × P × CellServer)
    serve fuel round s p srv = check_time round.now s srv >>= λ (s₁, srv₁).
        poller.do_net_events round s₁ p srv₁ >>= λ (go, s₂, p₂, srv₂).
        if go
        then (do_msg fuel s₂ srv₂ >>= λ (s₃, srv₃). some (true, s₃, p₂, srv₃))
        else some (false, s₂, p₂, srv₂)

    -- One round of OnRun.
    unfoldable pub on_run_step : ℕ → Round → S → P → CellServer → Option (Bool × S × P × CellServer)
    unfolding join_waiting serve
    on_run_step fuel round s p srv =
        let (s', p', srv') = join_waiting s p srv in
        if is_empty srv'.clients
        then some (true, s', p', record srv' { old_time = round.now })
        else serve fuel round s' p' srv'
