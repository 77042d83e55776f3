-- ===== src/Tests/Echo.antt =====
-- The stand-alone epoll server at a concrete round: a new connection, and a client that goes.
use mathlib.Core.List.{Perm}
use cpp_network_obj.Base.{◌≡◌, refl, true, false, some, [], ◌∷◌, ◌++◌, List, pos}
use cpp_network_obj.Buffer.{fd, recv_failed, received, sent}
use cpp_network_obj.EchoServer.{EchoServer, Event, do_events, shut_down}
use cpp_network_obj.EchoServer.Accounts.{arrivals, owned, do_events-accounts}

abbrev server : EchoServer
server = record {
  clients = 7 ∷ 8 ∷ [];
  buff = [];
  len = pos 0;
  msg_count = 0;
  count = 2;
  calls = [];
  sent_data = [];
  closed = 6 ∷ [];
}

abbrev events : List Event
events =
    (record {
      sock = 3;
      input = true;
      output = false;
      accepted = fd 9;
      recv = recv_failed;
      send = sent 0;
    })
    ∷ (record {
      sock = 8;
      input = true;
      output = false;
      accepted = fd 0;
      recv = recv_failed;
      send = sent 0;
    })
    ∷ (record {
      sock = 7;
      input = true;
      output = false;
      accepted = fd 0;
      recv = received (1 ∷ []);
      send = sent 0;
    })
    ∷ []

do_events-accounts_example :
    (s' : EchoServer) × (do_events 3 events server ≡ some s')
    × Perm (owned s') (arrivals 3 events ++ owned server)
    × Perm (shut_down 4 3 s').closed ((arrivals 3 events ++ owned server) ++ 4 ∷ 3 ∷ [])
do_events-accounts_example =
    do_events-accounts 4 3 events server
      ((refl, λ h. absurd (differ h)), ((refl, λ h. refl), ((refl, λ h. refl), tt)))
      ((refl, (refl, tt)), ((refl, tt), (tt, tt)))
  where
    differ : true ≡ false → ⊥
    differ h = cc
