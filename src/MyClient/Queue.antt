-- ===== src/MyClient/Queue.antt =====
-- The logins that a client of the client application puts into its send buffer.
use cpp_network_obj.Base.{
  ℕ, zero, suc, ◌+◌, ◌*◌, ◌≤◌, ◌≡◌, refl, ap, sym, ◌∙◌, true, some, List, [], ◌++◌, pos, length,
  concat, append_assoc, append-nil, ltb, lt→ltb, arith,
}
use cpp_network_obj.Message.{bytes, login_msg, data_length}
use cpp_network_obj.Message.Layout.{bytes_framed}
use cpp_network_obj.Buffer.{contents, push}
use cpp_network_obj.Buffer.Invariant.{IsValid, push-IsValid}
use cpp_network_obj.Buffer.Queue.{contents-push}
use cpp_network_obj.Client.{CellClient}
use cpp_network_obj.Client
use cpp_network_obj.TcpClient.{TcpClient, is_run, send_header}
use cpp_network_obj.TcpClient.Ends.{is_run-connected}
use cpp_network_obj.MyServer.{int_bits}
use cpp_network_obj.MyServer.Logins.{
  IsSized, logins, int_bits-lt, plus_zero, plus_suc, push-room, send_header-room,
}
use cpp_network_obj.MyClient.{MyClient, Login, login_bytes, send_test}

-- SendTest, so many times.
unfoldable pub send_tests : Login → ℕ → MyClient → TcpClient → MyClient × TcpClient
send_tests l zero m t = (m, t)
send_tests l (suc k) m t = let (ret, m', t') = send_test l m t in send_tests l k m' t'

-- A client that may still send some messages, and has room for them.
pub record CanSend (m : MyClient) (t : TcpClient) (n k : ℕ) (queued : List ℕ) : Type 0 where
  pub client : CellClient
  pub runs : is_run t ≡ some client
  pub next_id : m.send_msg_id ≡ n
  pub allowed : k ≤ m.send_count
  pub valid : IsValid client.send_buff
  pub has_room : client.send_buff.last + 100 * k ≤ client.send_buff.size
  pub holds : contents client.send_buff ≡ queued

tcp_send :
    (mem : List ℕ) (t : TcpClient) (c c' : CellClient) (n : ℕ)
    → is_run t ≡ some c
    → Client.send_header c mem ≡ (pos n, c')
    → send_header mem t ≡ (pos n, record t { client = some c' })
unfolding send_header
tcp_send mem t c c' n run sends = rw (run, send_header) (rw sends refl)

-- One call of SendTest.
send_test-CanSend :
    (l : Login) (m : MyClient) (t : TcpClient) (n k : ℕ) (queued : List ℕ)
    → IsSized l.user_name l.pass_word l.chars
    → CanSend m t n (suc k) queued
    → let (ret, m', t') = send_test l m t in
      CanSend m' t'
        (n + 1)
        k
        (queued ++ bytes (login_msg l.user_name l.pass_word l.chars (int_bits n)))
      × (m'.recv_msg_id ≡ m.recv_msg_id)
      × (m'.check_msg_id ≡ m.check_msg_id)
unfolding send_test
send_test-CanSend l m t n k queued sized h =
    let c = h.client in
    let login = login_bytes l m.send_msg_id in
    let (long, framed, command) =
      bytes_framed (login_msg l.user_name l.pass_word l.chars (int_bits m.send_msg_id)) []
        (sized.0, sized.1, sized.2, int_bits-lt m.send_msg_id) in
    let hundred : length login ≡ 100 = long ∙ framed in
    let whole : data_length login ≡ length login =
      ap data_length (sym (append-nil login)) ∙ sym long in
    let fits : c.send_buff.last + length login ≤ c.send_buff.size =
      omega (arith, hundred, h.has_room) in
    let (pushed, last, size) = push-room c.send_buff login fits in
    let c' : CellClient = record c { send_buff = (push c.send_buff login).1 } in
    let sends = tcp_send login t c c' (length login) h.runs (send_header-room c login whole fits) in
    let some_left : ltb 0 m.send_count ≡ true = lt→ltb 0 m.send_count (omega (arith, h.allowed)) in
    rw some_left (
      rw sends (
        record {
          client = c';
          runs = rw (is_run-connected t c h.runs) refl;
          next_id = ap (λ x. x + 1) h.next_id;
          allowed = omega (arith, h.allowed);
          valid = push-IsValid {b = c.send_buff} login h.valid;
          has_room = omega (arith, last, size, hundred, h.has_room);
          holds =
              contents-push {b = c.send_buff} login h.valid fits
              ∙ ap (λ q. q ++ login) h.holds
              ∙ ap (λ x. queued ++ login_bytes l x) h.next_id;
        },
        refl,
        refl,
      ))

-- Calls of SendTest, of a connected client that may still send so many messages and has room for them: the
-- client queues that many logins with consecutive message IDs, in order, behind what it had to send.
pub send_tests-CanSend :
    (l : Login) (k : ℕ) (m : MyClient) (t : TcpClient) (n : ℕ) (queued : List ℕ)
    → IsSized l.user_name l.pass_word l.chars
    → CanSend m t n k queued
    → let (m', t') = send_tests l k m t in
      CanSend m' t' (n + k) 0 (queued ++ concat (logins l.user_name l.pass_word l.chars n k))
      × (m'.recv_msg_id ≡ m.recv_msg_id)
      × (m'.check_msg_id ≡ m.check_msg_id)
unfolding send_tests
send_tests-CanSend l zero m t n queued sized h = (
  record {
    client = h.client;
    runs = h.runs;
    next_id = h.next_id ∙ sym (plus_zero n);
    allowed = omega arith;
    valid = h.valid;
    has_room = omega (arith, h.valid.within);
    holds = h.holds ∙ sym (append-nil queued);
  },
  refl,
  refl,
)
send_tests-CanSend l (suc k) m t n queued sized h =
    let (ret, m', t') = send_test l m t in
    let (h', same, same') = send_test-CanSend l m t n k queued sized h in
    let (h'', rest, rest') = send_tests-CanSend l k m' t' (n + 1) _ sized h' in
    (
      record {
        client = h''.client;
        runs = h''.runs;
        next_id = h''.next_id ∙ plus_suc n k;
        allowed = h''.allowed;
        valid = h''.valid;
        has_room = h''.has_room;
        holds =
            h''.holds
            ∙ append_assoc queued (login_bytes l n)
                (concat (logins l.user_name l.pass_word l.chars (n + 1) k));
      },
      rest ∙ same,
      rest' ∙ same',
    )
