-- ===== src/Server/Select.antt =====
-- depends/include/CELLSelectServer.hpp, as built on Linux: the worker that waits with select().
pub mod Events
pub mod Waiting
pub mod LastClient
pub mod Serving
pub mod Waits
use cpp_network_obj.Base.{
  ℕ, suc, Bool, true, false, not, Option, none, some, [], ◌∷◌, ℤ, pos, negsuc, if◌then◌else◌, ◌>>=◌,
}
use cpp_network_obj.Buffer.{Socket, invalid_socket, fd}
use cpp_network_obj.Client.{CellClient, need_write, send_data_real}
use cpp_network_obj.FdSet.{FdBits, add, has, zero, copy}
use cpp_network_obj.NetEvent.{NetEvent}
use cpp_network_obj.Server.{
  CellServer, Clients, Round, Poller, sweep, swept_into, recv_data, is_error, sock_lt,
}

module _ (bits : FdBits) where
  open bits use {Bits, clr, is_set}

  -- The fields that CELLSelectServer adds.
  pub record Sets : Type 0 where
    pub fd_read : Bits
    pub fd_write : Bits
    pub fd_read_bak : Bits
    pub max_sock : Socket

  -- select() leaves in a set those of its descriptors that are ready.
  abbrev leave_ready : (ℕ → Bool) → Clients → Bits → Bits
  leave_ready ready [] b = b
  leave_ready ready ((k, c) ∷ m) b = elim c.sockfd [
    | invalid_socket ↦ leave_ready ready m b
    | fd n ↦ leave_ready ready m (if ready n then b else clr n b)
  ]

  -- The loop that fills the read set and finds the greatest socket.
  unfoldable pub fill_read : Clients → Socket → Bits → Option (Socket × Bits)
  fill_read [] top b = some (top, b)
  fill_read ((k, c) ∷ m) top b =
      add bits c.sockfd b >>= λ b'. fill_read m (if sock_lt top c.sockfd then c.sockfd else top) b'

  -- The loop that fills the write set with the clients that have something to send.
  unfoldable pub fill_write : Clients → Bool → Bits → Option (Bool × Bits)
  fill_write [] any b = some (any, b)
  fill_write ((k, c) ∷ m) any b = (if need_write c then add bits c.sockfd b else some b) >>= λ b'.
      fill_write m (if need_write c then true else any) b'

  -- _clients.begin()->second->sockfd(), which is undefined where there is no client.
  abbrev first_sock : Clients → Option Socket
  first_sock [] = none
  first_sock ((k, c) ∷ m) = some c.sockfd

  -- The read set of a round.
  unfoldable pub read_set : Sets → CellServer → Option (Sets × CellServer)
  unfolding fill_read zero copy
  read_set p srv =
      if srv.clients_change
      then (first_sock srv.clients >>= λ top.
          fill_read srv.clients top (zero bits p.fd_read) >>= λ (max, b). some (
            record p { fd_read = b; max_sock = max; fd_read_bak = copy bits p.fd_read_bak b },
            record srv { clients_change = false },
          ))
      else some (record p { fd_read = copy bits p.fd_read p.fd_read_bak }, srv)

  module _ {S : Type 0} (event : Option (NetEvent S)) where
    -- What ReadData does for a client.
    abbrev pub read_visit : Bits → Round → S → CellClient → Option (Bool × S × CellClient)
    read_visit b round s c = has bits c.sockfd b >>= λ ready.
        if ready
        then (recv_data event (round.recv c.sockfd) s c >>= λ (ret, s', c').
            some (not (is_error ret), s', c'))
        else some (true, s, c)

    -- What WriteData does for a client.
    abbrev pub write_visit : Bits → Round → S → CellClient → Option (Bool × S × CellClient)
    write_visit b round s c =
        (if need_write c then has bits c.sockfd b else some false) >>= λ ready.
        if ready
        then (send_data_real c (round.send c.sockfd) >>= λ (ret, c').
            some (not (is_error ret), s, c'))
        else some (true, s, c)

    unfoldable pub read_data : Bits → Round → S → CellServer → Option (S × CellServer)
    read_data b round s srv =
        sweep event (read_visit b round) s srv.clients >>= λ r. some (swept_into event srv r)

    unfoldable pub write_data : Bits → Round → S → CellServer → Option (S × CellServer)
    write_data b round s srv =
        sweep event (write_visit b round) s srv.clients >>= λ r. some (swept_into event srv r)

    -- The last part of DoNetEvents, where select() returned `ret` and left the sets `r` and `w'` from
    -- the sets of `p` and `w`.
    unfoldable pub after_select :
        ℤ
        → Bits
        → Bits
        → Bits
        → Round
        → S
        → Sets
        → CellServer
        → Option (Bool × S × Sets × CellServer)
    unfolding read_data write_data
    after_select (pos ℕ.zero) r w w' round s p srv =
        some (true, s, record p { fd_read = r; fd_write = w' }, srv)
    after_select (pos (suc n)) r w w' round s p srv = read_data r round s srv >>= λ (s₂, srv₂).
        write_data w' round s₂ srv₂ >>= λ (s₃, srv₃).
        some (true, s₃, record p { fd_read = r; fd_write = w' }, srv₃)
    after_select (negsuc n) r w w' round s p srv =
        some (round.eintr, s, record p { fd_write = w }, srv)

    -- DoNetEvents
    unfoldable pub do_net_events :
        Round → S → Sets → CellServer → Option (Bool × S × Sets × CellServer)
    unfolding read_set fill_write zero after_select
    do_net_events round s p srv = read_set p srv >>= λ (p₁, srv₁).
        fill_write srv₁.clients false (zero bits p₁.fd_write) >>= λ (write, w).
        let r = leave_ready round.readable srv₁.clients p₁.fd_read in
        let w' = if write then leave_ready round.writable srv₁.clients w else w in
        after_select round.selected r w w' round s p₁ srv₁

    -- The worker's poller; OnClientJoin is that of CELLServer, which does nothing.
    abbrev pub poller : Poller S Sets
    poller = record { on_client_join = λ p c. p; do_net_events = do_net_events }
