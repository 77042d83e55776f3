-- ===== src/Tests/Clients.antt =====
-- The client's loops and the client application at concrete inputs.
use cpp_network_obj.Base.{
  ℕ, ◌+◌, ◌*◌, ◌≤◌, ◌≡◌, refl, Bool, true, false, not, ◌&&◌, some, List, [], ◌∷◌, ◌++◌, length,
  ◌+ℤ◌, le_decode, le_encode, concat, replicate, pos, leb_ℤ, ◌>>=◌, arith,
}
use cpp_network_obj.Message.{data_length, bytes}
use cpp_network_obj.Client
use cpp_network_obj.Buffer.{push, fd, send_failed, recv_failed}
use cpp_network_obj.Client.{CellClient, need_write}
use cpp_network_obj.Epoll.{wait}
use cpp_network_obj.TcpClient.{TcpClient}
use cpp_network_obj.TcpClient.Select.{ClientRound, on_run}
use cpp_network_obj.TcpClient.Epoll.{EpollClient, EpollRound}
use cpp_network_obj.TcpClient.Epoll
use cpp_network_obj.TcpClient.Ends.{Leaves, send_fails, on_run-Leaves}
use cpp_network_obj.TcpClient.Alike.{one_event}
use cpp_network_obj.TcpServer.Waiting.{select_round, epoll_round}
use cpp_network_obj.TcpServer.Listening.{Waited, returned, without_set, select_round-epoll_round}
use cpp_network_obj.MyServer.{State}
use cpp_network_obj.MyServer
use cpp_network_obj.MyServer.Logins.{InStep, handle_all, logins, followed, answers}
use cpp_network_obj.MyClient.{
  MyClient, SendOptions, Login, create, on_net_msg, send_test, check_send,
}
use cpp_network_obj.MyClient.Rate.{Call, test, check, sent_by, elapsed, sent_by-bound}
use cpp_network_obj.MyClient.Queue.{send_tests, CanSend}
use cpp_network_obj.MyClient.Exchange.{exchange}
use cpp_network_obj.MyClient.Work.{Member, run_each, count_of, run_each-count}
use cpp_network_obj.Config.{Config, Str, init, empty, get_str, get_int, has_key, value_or}
use cpp_network_obj.Config.Last.{last_value, init-last}
use cpp_network_obj.Tests.Net.{options, start, ready_client, empty_client, tcp_client, heart}
use cpp_network_obj.Tests.Workers.{bits, server}

-- A client that has a message to send.
abbrev sending : TcpClient
sending = record tcp_client {
  client = some (record ready_client {
    send_buff = record { mem = heart ++ replicate 60 0; last = 4; size = 64; full_count = 0 };
  });
}

abbrev sender : CellClient
sender = record ready_client {
  send_buff = record { mem = heart ++ replicate 60 0; last = 4; size = 64; full_count = 0 };
}

-- The socket is writable, but send() fails.
abbrev broken : ClientRound
broken = record {
  selected = pos 1;
  readable = false;
  writable = true;
  recv = recv_failed;
  send = send_failed;
}

abbrev my_client : MyClient
my_client = create true

on_run-Leaves_example :
    (go : Bool) × (s' : MyClient) × (t' : TcpClient) × (on_run on_net_msg bits 5 broken my_client
        sending
      ≡ some (go, s', t'))
    × Leaves go (fd 5) sending t'
    × (go ≡ (
        leb_ℤ (pos 0) broken.selected
        && (not false
            && not ((need_write sender && broken.writable) && send_fails sender broken.send))))
on_run-Leaves_example =
    on_run-Leaves on_net_msg bits 5 broken my_client sending sender 5 refl refl (omega arith)
      (pos 0) my_client sender refl refl (omega arith) tt

abbrev epoll_client : EpollClient
epoll_client = record {
  tcp = sending;
  ep = record { epfd = pos 3; max_events = 1; has_events = true; calls = []; closed = [] };
}

select_round-epoll_round_example :
    without_set (
      select_round bits true
        (returned Waited.ready)
        false
        true
        (record { reply = fd 10; send_raw = replicate 64 0; recv_raw = replicate 64 0 })
        bits.zeros
        server)
    ≡ epoll_round true
        (returned Waited.ready)
        false
        ((record {
          sock = fd 3;
          input = true;
          arrival = record { reply = fd 10; send_raw = replicate 64 0; recv_raw = replicate 64 0 };
        })
          ∷ [])
        server
select_round-epoll_round_example =
    select_round-epoll_round bits 3 (omega arith) Waited.ready true
      (record { reply = fd 10; send_raw = replicate 64 0; recv_raw = replicate 64 0 }) bits.zeros []
      server refl

abbrev send_options : SendOptions
send_options = record { n_msg = 2; send_sleep = 100 }

abbrev login : Login
login = record { user_name = replicate 32 0; pass_word = replicate 32 0; chars = replicate 28 0 }

-- A server's client with room for two answers.
abbrev roomy : CellClient
roomy = record ready_client {
  send_buff = record { mem = replicate 256 0; last = 0; size = 256; full_count = 0 };
}

-- A connection with room for two messages.
abbrev roomy_tcp : TcpClient
roomy_tcp = record tcp_client { client = some roomy }

abbrev calls : List Call
calls =
    check 100 ∷ test login roomy_tcp ∷ test login roomy_tcp ∷ test login roomy_tcp ∷ check 60 ∷ []

-- The third is not sent.
sent_by-calls : sent_by send_options calls my_client ≡ 2
unfolding sent_by send_test check_send ◌+ℤ◌ Client.send_header push data_length le_decode bytes
    le_encode
sent_by-calls = refl

-- After a stall of ten periods each call of checkSend refills the counter.
abbrev stalled : List Call
stalled =
    check 1000
    ∷ test login roomy_tcp
    ∷ test login roomy_tcp
    ∷ check 0
    ∷ test login roomy_tcp
    ∷ test login roomy_tcp
    ∷ []

sent_by-stalled : sent_by send_options stalled my_client ≡ 4
unfolding sent_by send_test check_send ◌+ℤ◌ Client.send_header push data_length le_decode bytes
    le_encode
sent_by-stalled = refl

sent_by-bound_example :
    send_options.send_sleep * sent_by send_options calls my_client
    ≤ send_options.send_sleep * my_client.send_count
      + send_options.n_msg * (0 + elapsed send_options calls)
sent_by-bound_example = sent_by-bound send_options calls my_client 0 refl

-- A client that may send two messages.
abbrev eager : MyClient
eager = record my_client { send_count = 2 }

abbrev tails : ℕ → List ℕ
tails n = heart

exchange_example :
    let ms = logins login.user_name login.pass_word login.chars 1 2 in
    let (m₁, t₁) = send_tests login 2 eager roomy_tcp in
    CanSend m₁ t₁ (1 + 2) 0 ([] ++ concat ms)
    × ((s₁ : State) × (c₁ : CellClient) × (handle_all
            (MyServer.on_net_msg options)
            start
            roomy
            (followed tails 1 ms)
          ≡ some (s₁, c₁))
        × (s₁.id_errors ≡ start.id_errors)
        × InStep c₁ (1 + 2) (1 + 2) 0 ([] ++ concat (answers options 1 2)))
    × (handle_all on_net_msg m₁ empty_client (followed tails 1 (answers options 1 2))
        ≡ some (record m₁ { recv_msg_id = 1 + 2 }, empty_client))
exchange_example =
    exchange options refl login tails tails 2 eager roomy_tcp start roomy empty_client 1 1 [] []
      refl refl (refl, refl, refl) refl refl
      (record {
        client = roomy;
        runs = refl;
        next_id = refl;
        allowed = omega arith;
        valid = omega arith;
        has_room = omega arith;
        holds = refl;
      })
      (record {
        expects = refl;
        replies = refl;
        valid = omega arith;
        has_room = omega arith;
        holds = refl;
      })

abbrev members : List Member
members = (my_client, epoll_client) ∷ []

run_each-count_example :
    count_of (run_each send_options 5 (λ i. one_event sender broken) (pos 1) 0 (pos 1) members) ≡ (
      run_each send_options 5 (λ i. one_event sender broken) (pos 1) 0 (pos 1) members >>= λ r.
      some (pos 1))
unfolding wait
run_each-count_example =
    run_each-count send_options 5 (λ i. one_event sender broken) (pos 1) members 0 (pos 1)
      (λ i. refl)

-- The name `a`, and the arguments `a=1` and `a=2`.
abbrev arguments : List Str
arguments = (97 ∷ 61 ∷ 49 ∷ []) ∷ (97 ∷ 61 ∷ 50 ∷ []) ∷ []

init-last_example :
    (c : Config) × (init ([] ∷ arguments) empty ≡ some c)
    × (get_str c (97 ∷ []) [] ≡ value_or (λ v. v) [] (last_value (97 ∷ []) arguments))
    × (get_int (λ v. pos (length v)) c (97 ∷ []) (pos 0)
        ≡ value_or (λ v. pos (length v)) (pos 0) (last_value (97 ∷ []) arguments))
    × (has_key c (97 ∷ []) ≡ value_or (λ v. true) false (last_value (97 ∷ []) arguments))
init-last_example = init-last [] arguments (97 ∷ []) [] (λ v. pos (length v)) (pos 0)
