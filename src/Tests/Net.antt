-- ===== src/Tests/Net.antt =====
-- Buffers, clients and the dispatch loop at concrete inputs.
use cpp_network_obj.Base.{
  ℕ, ◌≡◌, refl, true, false, none, some, List, [], ◌∷◌, ◌++◌, concat, replicate, arith, pos,
  le_decode,
}
use cpp_network_obj.Message.{data_length, cmd_field}
use cpp_network_obj.Buffer.{contents, fd, sent, received}
use cpp_network_obj.Buffer.Framing.{is_ready}
use cpp_network_obj.Buffer.Spec.{Op, do_push, do_pop, do_write, do_read, do_has_msg, do_data}
use cpp_network_obj.Buffer.Spec
use cpp_network_obj.Buffer.Refine.{run, run_refines}
use cpp_network_obj.Client.{CellClient, reset_dt_heart}
use cpp_network_obj.Client.Sending.{submit, flush, fail, Sent, sends-Sent}
use cpp_network_obj.Client
use cpp_network_obj.Client.Flushing.{flushes, flushes-empty}
use cpp_network_obj.Client.Drain.{drain}
use cpp_network_obj.Client.Drain.Reassembly.{reassembly, Delivered}
use cpp_network_obj.Client.Drain.Stuck.{drain_never}
use cpp_network_obj.TcpClient.{TcpClient}
use cpp_network_obj.MyServer.{Options, State, on_net_msg}
use cpp_network_obj.MyServer.Laws.{reads_inside, on_net_msg-total, handler_laws}

abbrev pub options : Options
options = record {
  send_back = true;
  send_full = true;
  check_msg_id = true;
  result_chars = replicate 88 0;
  stream_raw = replicate 128 0;
}

-- A server that does not check message IDs.
abbrev unchecked : Options
unchecked = record options { check_msg_id = false }

abbrev pub start : State
start = record {
  counters = record { recv_count = 0; msg_count = 0; client_count = pos 1 };
  id_errors = 0;
}

-- A client whose receive buffer holds some bytes in a block of 16.
abbrev pub holding : List ℕ → ℕ → CellClient
holding mem n = record {
  id = 1;
  server_id = some 1;
  recv_msg_id = 1;
  send_msg_id = 1;
  sockfd = fd 5;
  recv_buff = record { mem = mem; last = n; size = 16; full_count = 0 };
  send_buff = record { mem = replicate 64 0; last = 0; size = 64; full_count = 0 };
  dt_heart = pos 0;
  dt_send = pos 0;
}

abbrev pub heart : List ℕ
heart = 4 ∷ 0 ∷ 15 ∷ 0 ∷ []

abbrev pub empty_client : CellClient
empty_client = holding (replicate 16 0) 0

abbrev pub ready_client : CellClient
ready_client = holding (heart ++ 8 ∷ replicate 11 0) 5

abbrev zero_client : CellClient
zero_client = holding (replicate 16 0) 4

-- Two messages and a part of a third, in pieces of two bytes.
reassembly_example :
    Delivered
      (on_net_msg unchecked)
      (replicate 9 2)
      (concat (heart ∷ heart ∷ []) ++ 4 ∷ [])
      start
      empty_client
      (heart ∷ heart ∷ [])
      (4 ∷ [])
unfolding data_length is_ready le_decode
reassembly_example =
    reassembly (handler_laws unchecked refl refl) (replicate 9 2) (heart ∷ heart ∷ []) (4 ∷ [])
      start empty_client (omega arith) tt refl ((omega arith, refl), ((omega arith, refl), tt))
      (omega arith, (omega arith, tt)) (omega arith) refl
      (
        omega arith,
        (
          omega arith,
          (
            omega arith,
            (
              omega arith,
              (omega arith, (omega arith, (omega arith, (omega arith, (omega arith, tt))))),
            ),
          ),
        ),
      )
      (omega arith)

drain_never_example : drain (on_net_msg unchecked) 1000 start zero_client ≡ none
unfolding data_length le_decode
drain_never_example =
    drain_never (handler_laws unchecked refl refl) 1000 start zero_client tt
      (record { valid = omega arith; header = omega arith; zero_length = refl })

abbrev ops : List Op
ops =
    do_push (1 ∷ 2 ∷ [])
    ∷ do_read (received (3 ∷ []))
    ∷ do_write (fd 5) (sent 2)
    ∷ do_has_msg
    ∷ do_data 3
    ∷ do_pop 2
    ∷ do_data 3
    ∷ []

ops_run :
    (outs : List Spec.Output) × (Spec.run 16 (contents ready_client.recv_buff) ops ≡ some outs)
unfolding Spec.run Spec.step is_ready data_length le_decode
ops_run = (_, refl)

run_refines_example :
    run ready_client.recv_buff ops ≡ Spec.run 16 (contents ready_client.recv_buff) ops
run_refines_example = run_refines ready_client.recv_buff ops (omega arith)

-- A login that is cut off behind its header.
abbrev short_login : List ℕ
short_login = 4 ∷ 0 ∷ 10 ∷ 0 ∷ []

on_net_msg-total_example :
    (reads_inside options short_login ≡ true
      → (r : State × CellClient) × (on_net_msg options start ready_client short_login ≡ some r)
        × (r.1.recv_buff ≡ ready_client.recv_buff))
    × (reads_inside options short_login ≡ false
        → on_net_msg options start ready_client short_login ≡ none)
unfolding data_length le_decode
on_net_msg-total_example =
    on_net_msg-total options refl start ready_client short_login (omega arith)

short_login-outside : reads_inside options short_login ≡ false
unfolding cmd_field le_decode
short_login-outside = refl

sends-Sent_example : Sent ready_client (submit heart ∷ flush 3 ∷ submit heart ∷ fail ∷ flush 9 ∷ [])
sends-Sent_example =
    sends-Sent (submit heart ∷ flush 3 ∷ submit heart ∷ fail ∷ flush 9 ∷ []) ready_client
      (omega arith)

abbrev pub tcp_client : TcpClient
tcp_client = record { client = some ready_client; is_connect = true; next_id = 2; closed = [] }

-- A client with four bytes to send.
abbrev pending_client : CellClient
pending_client = record empty_client {
  send_buff = record { mem = heart ++ replicate 60 0; last = 4; size = 64; full_count = 0 };
}

flushes-empty_example :
    (c' : CellClient) × (flushes (1 ∷ 7 ∷ 1 ∷ 9 ∷ []) pending_client ≡ some c')
    × (c'.send_buff.last ≡ 0)
    × (Client.need_write c' ≡ false)
flushes-empty_example =
    flushes-empty (1 ∷ 7 ∷ 1 ∷ 9 ∷ []) pending_client refl
      (omega arith, (omega arith, (omega arith, (omega arith, tt)))) (omega arith)
