-- ===== src/Tests/Lifetime.antt =====
-- The workers of a server from its start, at concrete inputs: a client comes, is taken in, and its
-- connection breaks.
use mathlib.Core.List.{Perm, not-mem-nil}
use cpp_network_obj.Base.{◌≡◌, refl, subst, true, false, some, [], ◌∷◌, pos, arith, ◌+ℤ◌}
use cpp_network_obj.Buffer.{Socket, fd, recv_failed, sent, read_from_socket}
use cpp_network_obj.Buffer
use cpp_network_obj.Client
use cpp_network_obj.TcpServer.{on_net_leave, on_net_recv, on_net_join}
use cpp_network_obj.Client.{CellClient}
use cpp_network_obj.Epoll.{Epoll, CtlOp, ctl}
use cpp_network_obj.MyServer.{State, event}
use cpp_network_obj.MyServer.Answers.{event-OwnerLaws}
use cpp_network_obj.Server.{CellServer, Round, add_client, clear_clients, create, on_run_step}
use cpp_network_obj.Server.Epoll.{poller, do_net_events}
use cpp_network_obj.Server.Epoll.Waits.{epoll_laws, IsHonest}
use cpp_network_obj.Server.Dispatch.{same_some}
use cpp_network_obj.Server.Turn.{IsPossible}
use cpp_network_obj.Server
use cpp_network_obj.TcpServer.Gather.{gather}
use cpp_network_obj.TcpServer.Lifetime.{Reach, Kept, workers-Kept}
use cpp_network_obj.Tests.Net.{options, start}
use cpp_network_obj.Tests.Workers.{silent_for}

abbrev epoll : Epoll
epoll = record { epfd = pos 3; max_events = 64; has_events = true; calls = []; closed = [] }

abbrev nobody : State
nobody = record start { counters = record start.counters { client_count = pos 0 } }

-- The connection of the new client is found broken.
abbrev breaks : Round
breaks = record {
  now = 1200;
  selected = pos 1;
  eintr = false;
  readable = λ n. false;
  writable = λ n. false;
  events = (record { client = some (fd 5); input = true; output = false }) ∷ [];
  recv = λ k. recv_failed;
  send = λ k. sent 0;
}

abbrev after : State
after = record nobody { counters = record nobody.counters { recv_count = 1 } }

abbrev epoll_after : Epoll
epoll_after = record epoll {
  calls =
      (record { op = CtlOp.ctl_add; sock = fd 5; output = false })
      ∷ (record { op = CtlOp.ctl_mod; sock = fd 5; output = false })
      ∷ [];
}

abbrev first_after : CellServer
first_after = record (create 1 1000) { old_time = 1200; closed = fd 5 ∷ [] }

abbrev newcomer : CellClient
newcomer = silent_for 5 0

runs :
    on_run_step
      (some (event options))
      (poller (some (event options)))
      3
      breaks
      nobody
      epoll
      (add_client (create 1 1000) newcomer)
    ≡ some (true, after, epoll_after, first_after)
unfolding create on_run_step add_client event Server.take_in Server.assign Server.check_time
    do_net_events ◌+ℤ◌ Server.recv_data Client.recv_data read_from_socket Server.do_msg on_net_leave
    ctl Client.destroy on_net_recv Client.need_write on_net_join Buffer.need_write
runs = refl

possible :
    IsPossible
      (event-OwnerLaws options)
      (epoll_laws (event-OwnerLaws options).counting)
      breaks
      nobody
      epoll
      (add_client (create 1 1000) newcomer)
unfolding create Server.check_time Server.join_waiting add_client Server.take_in Server.assign ◌+ℤ◌
possible = λ s₁ srv₁ h.
    subst (λ r. IsHonest breaks r.1) (same_some h)
      (
        ((record newcomer { server_id = some 1; dt_heart = pos 200 }, refl, tt, omega arith), tt),
        (tt, tt),
      )

workers-Kept_example :
    Kept
      (event-OwnerLaws options)
      (epoll_laws (event-OwnerLaws options).counting)
      (fd 5 ∷ [])
      after
      ((epoll_after, first_after) ∷ (epoll, create 2 1000) ∷ [])
    × Perm
        (gather
          (λ srv. (clear_clients srv).closed)
          ((epoll_after, first_after) ∷ (epoll, create 2 1000) ∷ []))
        (fd 5 ∷ [])
unfolding create
workers-Kept_example =
    workers-Kept (event-OwnerLaws options) (epoll_laws (event-OwnerLaws options).counting) (
      Reach.turned [] ((epoll, create 2 1000) ∷ []) epoll epoll_after
        (add_client (create 1 1000) newcomer) first_after 3 breaks true
        (Reach.accepted [] ((epoll, create 2 1000) ∷ []) epoll (create 1 1000) newcomer
          (Reach.started nobody ((epoll, create 1 1000) ∷ (epoll, create 2 1000) ∷ []) refl
            ((refl, refl, refl), ((refl, refl, refl), tt)))
          (omega arith, omega arith) refl not-mem-nil)
        possible runs)
