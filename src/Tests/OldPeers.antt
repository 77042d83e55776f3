-- ===== src/Tests/OldPeers.antt =====
-- The old client and the old listening server at concrete inputs.
use cpp_network_obj.Base.{
  ℕ, ◌+◌, ◌*◌, ◌^◌, ◌<◌, ◌≡◌, refl, Bool, true, false, some, List, [], ◌∷◌, ◌++◌, pos, concat, map,
  length, take, replicate, length-replicate, arith, le_decode,
}
use cpp_network_obj.Message.{data_length}
use cpp_network_obj.Buffer.{invalid_socket, fd, received, recv_failed}
use cpp_network_obj.OldServer.{ClientSocket, recv_data}
use cpp_network_obj.OldServer.Draining.{Handled}
use cpp_network_obj.OldServer.Receiving.{recv_data-messages}
use cpp_network_obj.OldClient.{TcpClient, buff_size, is_run, on_run, close}
use cpp_network_obj.OldClient
use cpp_network_obj.OldClient.Sockets.{Op, do_init_socket, do_connect, do_on_run, calls-owned}
use cpp_network_obj.OldClient.Owned.{owned}
use cpp_network_obj.OldClient.Running.{notices_of, on_run-messages}
use cpp_network_obj.OldTcpServer.{TcpServer, CellServer, new_worker, accept}
use cpp_network_obj.OldTcpServer
use cpp_network_obj.OldTcpServer.Rounds.{failing, failing-closed}
use cpp_network_obj.OldTcpServer.Joins.{total, accept-total}
use cpp_network_obj.Tests.Net.{heart}

-- A client of the old server with two bytes of a message, of which two more and a byte of the next come.
abbrev half : ClientSocket
half = record {
  sockfd = fd 5;
  msg_buf = 4 ∷ 0 ∷ replicate 51198 0;
  last_pos = 2;
  send_buf = [];
  last_send_pos = 0;
}

abbrev lengths : List ℕ → List ℕ → List ℕ
lengths log mem = data_length mem ∷ log

recv_data-messages_example :
    (s' : List ℕ) × (c' : ClientSocket) × (recv_data
        (λ log mem. some (lengths log mem))
        (λ log. log)
        2
        (received (15 ∷ 0 ∷ 8 ∷ []))
        []
        half
      ≡ some (pos 0, s', c'))
    × Handled (λ log mem. some (lengths log mem)) [] (heart ∷ []) s'
    × (take c'.last_pos c'.msg_buf ≡ 8 ∷ [])
    × (length c'.msg_buf ≡ 10240 * 5)
    × (c'.last_pos < 2 ^ 15)
unfolding data_length le_decode
recv_data-messages_example =
    recv_data-messages (λ s mem h. (lengths s mem, refl)) (λ log. log) 2 (heart ∷ []) (8 ∷ [])
      (15 ∷ 0 ∷ 8 ∷ []) [] half (omega arith) (omega arith)
      (omega (arith, length-replicate {A = ℕ} 51198 0)) refl
      (((omega arith, refl), omega arith), tt) (λ h. absurd (omega arith)) (omega arith)

abbrev connected : TcpClient
connected = record {
  sock = fd 5;
  is_connect = true;
  msg_buf = replicate 102400 0;
  last_pos = 0;
  notices = [];
  closed = [];
}

on_run-messages_example :
    (c' : TcpClient) × (on_run 1024 2 (pos 1) true (received (heart ++ 8 ∷ [])) connected
      ≡ some (true, c'))
    × (is_run c' ≡ true)
    × (c'.sock ≡ fd 5)
    × (c'.notices ≡ [] ++ concat (map notices_of (heart ∷ [])))
    × (take c'.last_pos c'.msg_buf ≡ 8 ∷ [])
    × (length c'.msg_buf ≡ buff_size * 10)
    × (c'.last_pos < 2 ^ 15)
unfolding data_length le_decode
on_run-messages_example =
    on_run-messages 1024 2 5 (pos 1) (heart ∷ []) (8 ∷ []) (heart ++ 8 ∷ []) connected refl refl
      (omega arith) refl (omega arith) (omega arith) (length-replicate {A = ℕ} 102400 0) refl
      (((omega arith, refl), omega arith), tt) (λ h. absurd (omega arith)) (omega arith)

-- A client is set up twice and loses its connection.
abbrev ops : List Op
ops =
    do_init_socket (fd 4)
    ∷ do_init_socket (fd 5)
    ∷ do_connect (fd 6) (pos 0)
    ∷ do_on_run 3 (pos 1) true recv_failed
    ∷ do_connect (fd 7) (pos 0)
    ∷ []

abbrev finished : TcpClient
finished = record {
  sock = fd 7;
  is_connect = true;
  msg_buf = [];
  last_pos = 0;
  notices = [];
  closed = fd 4 ∷ fd 5 ∷ [];
}

calls-owned_example :
    (owned finished ≡ owned (OldClient.create []) ++ fd 4 ∷ fd 5 ∷ fd 7 ∷ [])
    × ((close finished).sock ≡ invalid_socket)
    × ((close finished).closed ≡ owned (OldClient.create []) ++ fd 4 ∷ fd 5 ∷ fd 7 ∷ [])
unfolding OldClient.create on_run OldClient.connect
calls-owned_example =
    calls-owned 1024 ops (OldClient.create []) finished (fd 4 ∷ fd 5 ∷ fd 7 ∷ []) refl

abbrev server : TcpServer
server = record {
  sock = fd 3;
  servers = (new_worker (fd 3)) ∷ (new_worker (fd 3)) ∷ [];
  recv_count = 0;
  msg_count = 0;
  client_count = pos 0;
  closed = [];
}

failing-closed_example :
    (t' : TcpServer) × (failing 1024 ((true, 0) ∷ (false, 0) ∷ []) server ≡ some t')
    × (t'.closed ≡ [] ++ replicate (length {A = Bool × ℕ} ((true, 0) ∷ (false, 0) ∷ [])) (fd 3))
    × (OldTcpServer.is_run t' ≡ true)
    × ((OldTcpServer.close t').closed
        ≡ []
          ++ (replicate (length {A = Bool × ℕ} ((true, 0) ∷ (false, 0) ∷ [])) (fd 3) ++ fd 3 ∷ []))
failing-closed_example =
    failing-closed 1024 3 ((true, 0) ∷ (false, 0) ∷ []) server refl (omega arith)

accept-total_example :
    (t' : TcpServer) × (accept (fd 9) server ≡ some (fd 9, t'))
    × (total t'.servers ≡ total server.servers + 1)
    × (t'.client_count ≡ pos (total t'.servers))
    × (t'.closed ≡ [])
unfolding OldTcpServer.get_client_count new_worker
accept-total_example = accept-total 9 server (new_worker (fd 3)) (new_worker (fd 3) ∷ []) refl refl
