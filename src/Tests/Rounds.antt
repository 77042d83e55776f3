-- ===== src/Tests/Rounds.antt =====
-- Rounds of a worker at concrete inputs.
use cpp_network_obj.Base.{
  inl, ◌>>=◌, ℕ, ◌<◌, ◌+ℤ◌, ◌≡◌, refl, ◌==◌, ◌&&◌, Bool, true, false, none, some, [], ◌∷◌, ◌++◌,
  arith, pos, leb_ℤ, if◌then◌else◌,
}
use cpp_network_obj.Buffer.{fd, received, recv_failed, sent}
use cpp_network_obj.Epoll.{Epoll}
use cpp_network_obj.MyServer.{State, event}
use cpp_network_obj.TcpServer.{on_net_leave, on_net_recv}
use cpp_network_obj.Server.{CellServer, EpollEvent, Round, is_error, do_msg, serve}
use cpp_network_obj.Server.Served.{Served}
use cpp_network_obj.Server.Sweep.{Each}
use cpp_network_obj.Server.Select.{Sets, poller}
use cpp_network_obj.Server.Select.Events.{Counting, IsSound}
use cpp_network_obj.Server.Select.LastClient.{serve-overdue}
use cpp_network_obj.Server.Select.Serving.{serve-Served}
use cpp_network_obj.Server
use cpp_network_obj.Server.Epoll.Events.{epoll_events-Served, watches}
use cpp_network_obj.Tests.Net.{options, start}
use cpp_network_obj.Tests.Workers.{bits, worker, silent_for, client_count}

-- Both clients are ready; the first one sends three bytes, the second one has closed the connection.
abbrev round : Round
round = record {
  now = 1200;
  selected = pos 2;
  eintr = false;
  readable = λ n. true;
  writable = λ n. true;
  events =
      (record { client = some (fd 8); input = true; output = true })
      ∷ (record { client = some (fd 7); input = true; output = false })
      ∷ [];
  recv = λ k. elim k [
    | fd n ↦ if n == 7 then received (1 ∷ 2 ∷ 3 ∷ []) else recv_failed
    | _ ↦ recv_failed
  ];
  send = λ k. sent 0;
}

abbrev sets : Sets bits
sets = record {
  fd_read = bits.zeros;
  fd_write = bits.zeros;
  fd_read_bak = bits.zeros;
  max_sock = fd 0;
}

abbrev epoll : Epoll
epoll = record { epfd = pos 3; max_events = 64; has_events = true; calls = []; closed = [] }

abbrev counting : Counting (event options) client_count
unfolding on_net_leave on_net_recv event
counting = record { leaves = λ s c. refl; receives = λ s c. refl }

sound : (n dt : ℕ) → n < 10240 → IsSound (silent_for n dt)
sound n dt h = record {
  number = n;
  open_socket = refl;
  inside = h;
  recv_valid = omega arith;
  send_valid = omega arith;
}

serve-overdue_example :
    serve
      (some (event options))
      (poller bits (some (event options)))
      10
      round
      start
      sets
      (record worker { clients = (fd 8, silent_for 8 59900) ∷ [] })
    ≡ none
unfolding ◌+ℤ◌
serve-overdue_example =
    serve-overdue (some (event options)) bits 10 round start sets
      (record worker { clients = (fd 8, silent_for 8 59900) ∷ [] }) (refl, tt) (omega arith)

epoll_events-Served_example :
    (go : Bool) × (s' : State) × (ep' : Epoll) × (srv' : CellServer) × (Server.Epoll.do_net_events
        (some (event options))
        round
        start
        epoll
        worker
      ≡ some (go, s', ep', srv'))
    × Served client_count start worker s' srv'
    × (ep'.calls ≡ epoll.calls ++ watches worker.clients)
    × (go
        ≡ (if leb_ℤ (pos 0) round.selected then true else (is_error round.selected && round.eintr)))
epoll_events-Served_example =
    epoll_events-Served counting round start epoll worker
      (
        (
          _,
          refl,
          record {
            key = refl;
            open_socket = refl;
            recv_valid = omega arith;
            send_valid = omega arith;
            store = tt;
            take = omega arith;
          },
        ),
        (
          (
            _,
            refl,
            record {
              key = refl;
              open_socket = refl;
              recv_valid = omega arith;
              send_valid = omega arith;
              store = omega arith;
              take = omega arith;
            },
          ),
          tt,
        ),
      )
      ((refl, tt), (tt, tt))

serve-Served_example :
    (go : Bool) × (s' : State) × (p' : Sets bits) × (srv' : CellServer) × (serve
        (some (event options))
        (poller bits (some (event options)))
        5
        round
        start
        sets
        worker
      ≡ (if go
          then (do_msg (some (event options)) 5 s' srv' >>= λ (s'', srv'').
              some (true, s'', p', srv''))
          else some (false, s', p', srv')))
    × Served client_count start worker s' srv'
    × Each IsSound srv'.clients
unfolding ◌+ℤ◌
serve-Served_example =
    serve-Served counting bits 5 round start sets worker
      (
        (refl, (sound 7 100 (omega arith), omega arith, omega arith)),
        ((refl, (sound 8 59900 (omega arith), tt, omega arith)), tt),
      )
      (inl refl)
