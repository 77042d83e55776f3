-- ===== src/TcpServer/Waiting.antt =====
-- depends/include/EasySelectServer.hpp and EasyEpollServer.hpp: one round of the accepting thread, with
-- select() and with epoll. The thread and the log are left out; `false` is a thread that has left its
-- loop.
use cpp_network_obj.Base.{
  ℕ, Bool, true, false, ◌&&◌, Option, some, List, [], ◌∷◌, ℤ, pos, negsuc, take, if◌then◌else◌,
  ◌>>=◌,
}
use cpp_network_obj.Buffer.{Socket, invalid_socket, fd}
use cpp_network_obj.Epoll.{Epoll, CtlOp, ctl, wait, create, unset}
use cpp_network_obj.FdSet.{FdBits, add, has, zero}
use cpp_network_obj.Server.{sock_eq}
use cpp_network_obj.TcpServer.{TcpServer, time4msg, accept}

-- What a call of Accept finds: the result of accept(), and the unset bytes of a new client's buffers.
pub record Arrival : Type 0 where
  pub reply : Socket
  pub send_raw : List ℕ
  pub recv_raw : List ℕ

-- An epoll_event of the accepting thread: its data.fd, whether EPOLLIN is set, and what Accept finds.
pub record ListenEvent : Type 0 where
  pub sock : Socket
  pub input : Bool
  pub arrival : Arrival

abbrev tick : Bool → TcpServer → TcpServer
tick elapsed t = record t { counters = time4msg elapsed t.counters }

-- Accept(), whose result the accepting thread does not look at.
abbrev accept_one : Arrival → TcpServer → Option TcpServer
accept_one a t = accept t a.reply a.send_raw a.recv_raw >>= λ (sock, t'). some t'

-- What is left of the read set if select() finds the listening socket ready, or does not.
abbrev leave_listening : (bits : FdBits) → Bool → Socket → bits.Bits → bits.Bits
leave_listening bits ready invalid_socket b = b
leave_listening bits ready (fd n) b = if ready then b else bits.clr n b

-- The body of the loop of EasySelectServer::OnRun, where select() returned `ret`.
unfoldable pub select_round :
    (bits : FdBits)
    → Bool
    → ℤ
    → Bool
    → Bool
    → Arrival
    → bits.Bits
    → TcpServer
    → Option (Bool × bits.Bits × TcpServer)
unfolding time4msg zero
select_round bits elapsed ret eintr ready a b t =
    let t₁ = tick elapsed t in
    add bits t₁.sock (zero bits b) >>= λ asked. elim ret [
      | negsuc n ↦ some (eintr, asked, t₁)
      | pos n ↦
          let found = leave_listening bits ready t₁.sock asked in
          has bits t₁.sock found >>= λ is_ready.
          if is_ready
          then (accept_one a t₁ >>= λ t₂. some (true, found, t₂))
          else some (true, found, t₁)
    ]

-- Before the loop of EasyEpollServer::OnRun, where epoll_create returned `reply`.
unfoldable pub watch_listening : ℤ → TcpServer → Epoll
unfolding ctl
watch_listening reply t = ctl CtlOp.ctl_add t.sock false (create reply 1 unset).1

-- The loop over the events.
unfoldable pub accept_events : List ListenEvent → TcpServer → Option TcpServer
accept_events [] t = some t
accept_events (ev ∷ evs) t =
    (if sock_eq ev.sock t.sock && ev.input then accept_one ev.arrival t else some t) >>= λ t'.
    accept_events evs t'

-- The body of the loop of EasyEpollServer::OnRun, where epoll_wait returned `ret`.
unfoldable pub epoll_round :
    Bool → ℤ → Bool → List ListenEvent → TcpServer → Option (Bool × TcpServer)
unfolding time4msg wait accept_events
epoll_round elapsed ret eintr events t =
    let t₁ = tick elapsed t in
    elim (wait ret eintr) [
      | negsuc n ↦ some (false, t₁)
      | pos n ↦ accept_events (take n events) t₁ >>= λ t₂. some (true, t₂)
    ]
