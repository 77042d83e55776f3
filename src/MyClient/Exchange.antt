-- ===== src/MyClient/Exchange.antt =====
-- The message IDs of a client and a server application that exchange logins and answers.
use cpp_network_obj.Base.{
  ℕ, zero, suc, ◌+◌, ◌*◌, ◌≡◌, refl, ap, sym, ◌∙◌, true, some, List, ◌++◌, length, concat, ◌==◌,
  ◌>>=◌,
}
use cpp_network_obj.Message.{bytes, login_r, cmd_field, read_msg_id}
use cpp_network_obj.Message.Layout.{cmd_field-bytes}
use cpp_network_obj.Message.Ids.{read_msg_id-login_r}
use cpp_network_obj.Client.{CellClient}
use cpp_network_obj.MyServer.{Options, State, int_bits}
use cpp_network_obj.MyServer
use cpp_network_obj.MyServer.Logins.{
  handle_all, IsSized, InStep, logins, followed, answers, logins-InStep, int_bits-lt, ==-true,
  plus_zero, plus_suc,
}
use cpp_network_obj.TcpClient.{TcpClient}
use cpp_network_obj.MyClient.{MyClient, Login, check_id, answer, on_net_msg}
use cpp_network_obj.MyClient.Queue.{send_tests, CanSend, send_tests-CanSend}

module _ (o : Options) (chars : length o.result_chars ≡ 88) where
  answer_lem :
      (tail : List ℕ) (m : MyClient) (i : ℕ)
      → m.check_msg_id ≡ true
      → m.recv_msg_id ≡ i
      → answer (bytes (login_r 0 o.result_chars (int_bits i)) ++ tail) m
        ≡ some (record m { recv_msg_id = m.recv_msg_id + 1 })
  unfolding answer check_id
  answer_lem tail m i check expects =
      let mem = bytes (login_r 0 o.result_chars (int_bits i)) ++ tail in
      let command : cmd_field mem ≡ 11 =
        cmd_field-bytes (login_r 0 o.result_chars (int_bits i)) tail in
      let read : read_msg_id mem ≡ some (int_bits i) =
        read_msg_id-login_r 0 o.result_chars tail (int_bits i) (chars, int_bits-lt i) in
      let same_id : (int_bits i == int_bits m.recv_msg_id) ≡ true =
        ==-true (ap int_bits (sym expects)) in
      rw command (rw check (rw read (rw same_id refl)))

  answers_lem :
      (tails : ℕ → List ℕ) (k : ℕ) (m : MyClient) (c : CellClient) (i : ℕ)
      → m.check_msg_id ≡ true
      → m.recv_msg_id ≡ i
      → handle_all on_net_msg m c (followed tails i (answers o i k))
        ≡ some (record m { recv_msg_id = m.recv_msg_id + k }, c)
  unfolding handle_all on_net_msg
  answers_lem tails zero m c i check expects =
      ap (λ n. some (record m { recv_msg_id = n }, c)) (sym (plus_zero m.recv_msg_id))
  answers_lem tails (suc k) m c i check expects =
      ap
        (λ r. (r >>= λ m'. some (m', c)) >>= λ (m', c').
          handle_all on_net_msg m' c' (followed tails (i + 1) (answers o (i + 1) k)))
        (answer_lem (tails i) m i check expects)
      ∙ answers_lem tails k (record m { recv_msg_id = m.recv_msg_id + 1 }) c (i + 1) check
          (ap (λ x. x + 1) expects)
      ∙ ap (λ n. some (record m { recv_msg_id = n }, c)) (plus_suc m.recv_msg_id k)

  -- Let a client and a server be in step: both check message IDs and the server answers logins, each
  -- expects the other's next ID, the client may send some more messages, and both have room for them.
  -- That many calls of SendTest queue as many logins with consecutive IDs, in order, behind what the
  -- client had to send. The server handles these logins, whatever lies behind them in memory, without an
  -- error of an ID, and queues one answer to each, in order and with consecutive IDs. The client handles
  -- these answers without an error of an ID or an undefined message; and both are in step again.
  pub exchange :
      (l : Login) (tails tails' : ℕ → List ℕ) (k : ℕ) (m : MyClient) (t : TcpClient)
      → (s : State) (c c' : CellClient) (n i : ℕ) (queued waiting : List ℕ) → o.send_back ≡ true
      → o.check_msg_id ≡ true
      → IsSized l.user_name l.pass_word l.chars
      → m.check_msg_id ≡ true
      → m.recv_msg_id ≡ i
      → CanSend m t n k queued
      → InStep c n i (100 * k) waiting
      → let ms = logins l.user_name l.pass_word l.chars n k in
        let (m₁, t₁) = send_tests l k m t in
        CanSend m₁ t₁ (n + k) 0 (queued ++ concat ms)
        × ((s₁ : State) × (c₁ : CellClient) × (handle_all
                (MyServer.on_net_msg o)
                s
                c
                (followed tails n ms)
              ≡ some (s₁, c₁))
            × (s₁.id_errors ≡ s.id_errors)
            × InStep c₁ (n + k) (i + k) 0 (waiting ++ concat (answers o i k)))
        × (handle_all on_net_msg m₁ c' (followed tails' i (answers o i k))
            ≡ some (record m₁ { recv_msg_id = i + k }, c'))
  exchange l tails tails' k m t s c c' n i queued waiting back checks sized check expects can h =
      let (m₁, t₁) = send_tests l k m t in
      let (sends, same, same') = send_tests-CanSend l k m t n queued sized can in
      let (s₁, c₁, runs, errors, h₁) =
        logins-InStep o back checks chars l.user_name l.pass_word l.chars tails k s c n i waiting
          sized h in
      (
        sends,
        (s₁, c₁, runs, errors, h₁),
        answers_lem tails' k m₁ c' i (same' ∙ check) (same ∙ expects)
            ∙ ap (λ x. some (record m₁ { recv_msg_id = x + k }, c')) (same ∙ expects),
      )
