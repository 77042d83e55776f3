-- ===== src/TcpServer/Listening.antt =====
-- The two accepting threads do the same.
use cpp_network_obj.Base.{
  ℕ, ◌≡◌, refl, ◌<◌, lt→ltb, Bool, true, false, Option, none, some, List, ◌∷◌, ℤ, pos, negsuc,
  ◌>>=◌, arith,
}
use cpp_network_obj.Buffer.{Socket, fd}
use cpp_network_obj.Epoll.{wait}
use cpp_network_obj.FdSet.{FdBits, max_fd, add, has, zero}
use cpp_network_obj.Server.{sock_eq}
use cpp_network_obj.TcpServer.{TcpServer, time4msg, accept}
use cpp_network_obj.TcpServer.Waiting.{
  Arrival, ListenEvent, select_round, accept_events, epoll_round,
}

-- How a wait for the listening socket can end.
pub data Waited : Type 0 where
  ready timed_out interrupted failed : Waited

-- The result of the call, of select() and of epoll_wait().
abbrev pub returned : Waited → ℤ
returned Waited.ready = pos 1
returned Waited.timed_out = pos 0
returned Waited.interrupted = negsuc 0
returned Waited.failed = negsuc 0

abbrev pub is_ready : Waited → Bool
is_ready Waited.ready = true
is_ready w = false

-- Whether errno is EINTR.
abbrev pub is_eintr : Waited → Bool
is_eintr Waited.interrupted = true
is_eintr w = false

-- What a round leaves, without the read set.
abbrev pub without_set : {B : Type 0} → Option (Bool × B × TcpServer) → Option (Bool × TcpServer)
without_set r = r >>= λ (go, b, t). some (go, t)

if_same : (n : ℕ) → sock_eq (fd n) (fd n) ≡ true
if_same n = ground arith

accepted :
    {B : Type 0} (b : B) (r : Option (Socket × TcpServer))
    → without_set ((r >>= λ (sock, t'). some t') >>= λ t'. some (true, b, t'))
      ≡ ((r >>= λ (sock, t'). some t') >>= λ t'. some t') >>= λ t'. some (true, t')
accepted b none = refl
accepted b (some r) = refl

-- For a listening socket inside the bitmap, and however the wait ends, a round of EasySelectServer and
-- a round of EasyEpollServer, whose event is of the listening socket, leave the same server, accept the
-- same connection, and go on or leave the loop alike.
pub select_round-epoll_round :
    (bits : FdBits)
    → (n : ℕ) → n < max_fd
    → (w : Waited) → (elapsed : Bool) → (a : Arrival) → (b : bits.Bits) → (evs : List ListenEvent)
    → (t : TcpServer) → t.sock ≡ fd n
    → without_set (select_round bits elapsed (returned w) (is_eintr w) (is_ready w) a b t)
      ≡ epoll_round elapsed
          (returned w)
          (is_eintr w)
          ((record { sock = fd n; input = true; arrival = a }) ∷ evs)
          t
unfolding select_round epoll_round accept_events add has zero wait
select_round-epoll_round bits n inside Waited.ready elapsed a b evs t e = rw e (
    rw (lt→ltb n max_fd inside) (
      rw (bits.is_set-set_self n bits.zeros) (
        rw (if_same n) (
          accepted _ (
            accept (record t { sock = fd n; counters = time4msg elapsed t.counters }) a.reply
              a.send_raw a.recv_raw)))))
select_round-epoll_round bits n inside Waited.timed_out elapsed a b evs t e =
    rw e (rw (lt→ltb n max_fd inside) (rw (bits.is_set-clr_self n (bits.set n bits.zeros)) refl))
select_round-epoll_round bits n inside Waited.interrupted elapsed a b evs t e =
    rw e (rw (lt→ltb n max_fd inside) refl)
select_round-epoll_round bits n inside Waited.failed elapsed a b evs t e =
    rw e (rw (lt→ltb n max_fd inside) refl)
