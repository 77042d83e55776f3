-- ===== src/Server/Epoll.antt =====
-- depends/include/CELLEpollServer.hpp: the worker that waits with epoll. The pointer to a client in an
-- event is the client's socket, which is its key in the map; `none` is a client that is not there.
pub mod Keys
pub mod Handled
pub mod Events
pub mod Waits
use cpp_network_obj.Base.{
  ℕ, Bool, true, false, Option, none, some, List, [], ◌∷◌, ◌++◌, ℤ, pos, negsuc, take,
  if◌then◌else◌, ◌>>=◌,
}
use cpp_network_obj.Buffer.{Socket}
use cpp_network_obj.Client.{CellClient, need_write, send_data_real, destroy}
use cpp_network_obj.Epoll.{Epoll, CtlOp, ctl, wait}
use cpp_network_obj.NetEvent.{NetEvent}
use cpp_network_obj.Server.{
  CellServer, Clients, Round, EpollEvent, Poller, notify_leave, recv_data, is_error, sock_eq,
}

-- _clients.find(k), with the client.
abbrev pub find_client : Socket → Clients → Option CellClient
find_client k [] = none
find_client k ((j, c) ∷ m) = if sock_eq j k then some c else find_client k m

-- _clients.erase(_clients.find(k)), where it is there.
abbrev pub erase : Socket → Clients → Clients
erase k [] = []
erase k ((j, c) ∷ m) = if sock_eq j k then m else (j, c) ∷ erase k m

-- The map after the client at `k` has changed.
abbrev pub change : Socket → CellClient → Clients → Clients
change k c [] = []
change k c ((j, d) ∷ m) = if sock_eq j k then (j, c) ∷ m else (j, d) ∷ change k c m

-- The loop that asks for EPOLLOUT for the clients that have something to send.
unfoldable pub ctl_all : Clients → Epoll → Epoll
ctl_all [] ep = ep
ctl_all ((k, c) ∷ m) ep = ctl_all m (ctl CtlOp.ctl_mod c.sockfd (need_write c) ep)

-- The second part of the loop's body for a client: whether it is to be removed, and what has changed.
unfoldable pub write_event : Round → EpollEvent → CellClient → Option (Bool × CellClient)
write_event round ev c =
    if ev.output
    then (send_data_real c (round.send c.sockfd) >>= λ (ret, c'). some (is_error ret, c'))
    else some (false, c)

module _ {S : Type 0} (event : Option (NetEvent S)) where
  -- rmClient with OnClientLeave: the client is erased, reported and deleted.
  unfoldable pub rm_client : CellClient → S → CellServer → S × CellServer
  rm_client c s srv = (
    notify_leave event s c,
    record srv {
      clients = erase c.sockfd srv.clients;
      clients_change = true;
      closed = srv.closed ++ destroy c;
    },
  )

  -- The first part of the loop's body.
  unfoldable pub read_event : Round → EpollEvent → S → CellClient → Option (Bool × S × CellClient)
  read_event round ev s c =
      if ev.input
      then (recv_data event (round.recv c.sockfd) s c >>= λ (ret, s', c').
          some (is_error ret, s', c'))
      else some (false, s, c)

  -- The body of the loop over the events, for an event with a client.
  unfoldable pub client_event :
      Round → EpollEvent → Socket → CellClient → S → CellServer → Option (S × CellServer)
  unfolding read_event write_event rm_client
  client_event round ev k c s srv = read_event round ev s c >>= λ (gone, s', c').
      if gone
      then some (rm_client c' s' srv)
      else (write_event round ev c' >>= λ (gone', c''). some (
          if gone'
          then rm_client c'' s' srv
          else (s', record srv { clients = change k c'' srv.clients })))

  -- The body of the loop, for the pointer of the event.
  unfoldable pub do_event :
      Round → EpollEvent → Option Socket → S → CellServer → Option (S × CellServer)
  unfolding client_event
  do_event round ev none s srv = some (s, srv)
  do_event round ev (some k) s srv =
      find_client k srv.clients >>= λ c. client_event round ev k c s srv

  unfoldable pub do_events : Round → List EpollEvent → S → CellServer → Option (S × CellServer)
  unfolding do_event
  do_events round [] s srv = some (s, srv)
  do_events round (ev ∷ evs) s srv =
      do_event round ev ev.client s srv >>= λ (s', srv'). do_events round evs s' srv'

  -- The rest of DoNetEvents, after wait() returned.
  unfoldable pub after_wait :
      ℤ → Round → S → Epoll → CellServer → Option (Bool × S × Epoll × CellServer)
  unfolding do_events
  after_wait (negsuc n) round s ep srv = some (false, s, ep, srv)
  after_wait (pos n) round s ep srv =
      do_events round (take n round.events) s srv >>= λ (s', srv'). some (true, s', ep, srv')

  -- DoNetEvents
  unfoldable pub do_net_events :
      Round → S → Epoll → CellServer → Option (Bool × S × Epoll × CellServer)
  unfolding ctl_all wait after_wait
  do_net_events round s ep srv =
      after_wait (wait round.selected round.eintr) round s (ctl_all srv.clients ep) srv

  -- OnClientJoin
  abbrev pub on_client_join : Epoll → CellClient → Epoll
  on_client_join ep c = ctl CtlOp.ctl_add c.sockfd false ep

  abbrev pub poller : Poller S Epoll
  poller = record { on_client_join = on_client_join; do_net_events = do_net_events }
