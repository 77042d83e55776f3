-- ===== src/MyServer/Answers.antt =====
-- The server application is an owner that counts its clients and answers them.
use cpp_network_obj.Base.{
  ◌+◌, Option, if◌then◌else◌, ◌≡◌, refl, sym, subst, ◌∙◌, some, List, ℕ, ℤ, ◌==◌, ◌>>=◌,
  >>=-eq-some, Bool-cases, inl, inr,
}
use cpp_network_obj.Message.{cmd_field, bytes, login_r, s2c_heart_msg, read_msg_id}
use cpp_network_obj.Buffer.Invariant.{IsValid, push-IsValid}
use cpp_network_obj.Client.{CellClient, reset_dt_heart, send_data, send_header}
use cpp_network_obj.Server.{is_error}
use cpp_network_obj.Server.Dispatch.{OwnerLaws, same_some}
use cpp_network_obj.TcpServer
use cpp_network_obj.MyServer.{
  Options, State, int_bits, read_logout, write_logout, check_id, answer_login, answer_logout,
  dispatch, on_net_msg, event,
}

-- The client's socket and receive buffer are as before, and its send buffer is valid if it was.
record Answered (c c' : CellClient) : Type 0 where
  socket : c'.sockfd ≡ c.sockfd
  recv : c'.recv_buff ≡ c.recv_buff
  send : IsValid c.send_buff → IsValid c'.send_buff

Answered-refl : (c : CellClient) → Answered c c
Answered-refl c = record { socket = refl; recv = refl; send = λ v. v }

Answered-trans : {a b c : CellClient} → Answered a b → Answered b c → Answered a c
Answered-trans p q = record {
  socket = q.socket ∙ p.socket;
  recv = q.recv ∙ p.recv;
  send = λ v. q.send (p.send v);
}

send_data-Answered : (c : CellClient) (msg : List ℕ) → Answered c (send_data c msg).1
unfolding send_data
send_data-Answered c msg = record {
  socket = refl;
  recv = refl;
  send = λ v. push-IsValid {b = c.send_buff} msg v;
}

send_header-Answered : (c : CellClient) (mem : List ℕ) → Answered c (send_header c mem).1
unfolding send_header
send_header-Answered c mem = send_data-Answered c _

reset-Answered : (c : CellClient) → Answered c (reset_dt_heart c)
unfolding reset_dt_heart
reset-Answered c = record { socket = refl; recv = refl; send = λ v. v }

module _ (o : Options) where
  check_id-Answered :
      (mem : List ℕ) (s s' : State) (c c' : CellClient)
      → check_id o mem s c ≡ some (s', c')
      → Answered c c' × (s'.counters.client_count ≡ s.counters.client_count)
  unfolding check_id
  check_id-Answered mem s s' c c' h = elim (Bool-cases o.check_msg_id) [
    | inr skips ↦
        let kept : check_id o mem s c ≡ some (s, c) = rw skips refl in
        let h₀ : some (s, c) ≡ some (s', c') = sym kept ∙ h in
        subst (λ x. Answered c x.1 × (x.0.counters.client_count ≡ s.counters.client_count))
          (same_some h₀) (Answered-refl c, refl)
    | inl checks ↦
        let follow : ℕ → Option (State × CellClient) = λ id. some (
          if id == int_bits c.recv_msg_id then s else record s { id_errors = s.id_errors + 1 },
          record c { recv_msg_id = c.recv_msg_id + 1 },
        ) in
        let reads : check_id o mem s c ≡ (read_msg_id mem >>= follow) = rw checks refl in
        let (id, read, h₁) = >>=-eq-some (read_msg_id mem) follow (sym reads ∙ h) in
        subst (λ x. Answered c x.1 × (x.0.counters.client_count ≡ s.counters.client_count))
          (same_some h₁)
          (
            record { socket = refl; recv = refl; send = λ v. v },
            elim (Bool-cases (id == int_bits c.recv_msg_id)) [
              | inl same ↦ rw same refl
              | inr wrong ↦ rw wrong refl
            ],
          )
  ]

  answer_login-Answered : (c : CellClient) → Answered c (answer_login o c)
  unfolding answer_login
  answer_login-Answered c =
      let mem = bytes (login_r 0 o.result_chars (int_bits c.send_msg_id)) in
      let sent = send_header-Answered c mem in
      elim (Bool-cases o.send_back) [
        | inr silent ↦ rw silent (Answered-refl c)
        | inl answers ↦ elim (Bool-cases (is_error (send_header c mem).0)) [
          | inl failed ↦ rw answers (rw failed sent)
          | inr stored ↦
              rw answers
                (rw stored (record { socket = sent.socket; recv = sent.recv; send = sent.send }))
        ]
      ]

  answer_logout-Answered :
      (mem : List ℕ) (c c' : CellClient) → answer_logout o mem c ≡ some c' → Answered c c'
  unfolding answer_logout
  answer_logout-Answered mem c c' h =
      let (f, readable, h₁) =
        >>=-eq-some (read_logout mem)
          (λ f. write_logout o.stream_raw f >>= λ msg. some ((send_data c msg).1)) h in
      let (msg, written, h₂) =
        >>=-eq-some (write_logout o.stream_raw f) (λ msg. some ((send_data c msg).1)) h₁ in
      subst (Answered c) (same_some h₂) (send_data-Answered c msg)

  -- A client that is answered, and the count afterwards.
  abbrev Kept : State → CellClient → State → CellClient → Type 0
  Kept s c s' c' = Answered c c' × (s'.counters.client_count ≡ s.counters.client_count)

  dispatch-Answered :
      (mem : List ℕ) (s s' : State) (c c' : CellClient)
      → dispatch o mem s c ≡ some (s', c')
      → Kept s c s' c'
  unfolding dispatch
  dispatch-Answered mem s s' c c' h =
      let c₀ = reset_dt_heart c in
      elim (Bool-cases (cmd_field mem == 10)) [
        | inl login ↦
            let h₁ : (check_id o mem s c₀ >>= λ (s₁, c₁). some (s₁, answer_login o c₁))
                ≡ some (s', c') =
              sym (rw login refl) ∙ h in
            let (r, checks, h₂) =
              >>=-eq-some (check_id o mem s c₀) (λ (s₁, c₁). some (s₁, answer_login o c₁)) h₁ in
            let (checked, kept) = check_id-Answered mem s r.0 c₀ r.1 checks in
            subst (λ x. Kept s c x.0 x.1) (same_some h₂)
              (
                Answered-trans (reset-Answered c)
                    (Answered-trans checked (answer_login-Answered r.1)),
                kept,
              )
        | inr other ↦ elim (Bool-cases (cmd_field mem == 12)) [
          | inl logout ↦
              let h₁ : (answer_logout o mem c₀ >>= λ x. some (s, x)) ≡ some (s', c') =
                sym (rw other (rw logout refl)) ∙ h in
              let (c₁, answered, h₂) = >>=-eq-some (answer_logout o mem c₀) (λ x. some (s, x)) h₁ in
              subst (λ x. Kept s c x.0 x.1) (same_some h₂)
                (
                  Answered-trans (reset-Answered c) (answer_logout-Answered mem c₀ c₁ answered),
                  refl,
                )
          | inr other₂ ↦ elim (Bool-cases (cmd_field mem == 15)) [
            | inl heart ↦
                let h₁ : some (s, (send_header c₀ (bytes s2c_heart_msg)).1) ≡ some (s', c') =
                  sym (rw other (rw other₂ (rw heart refl))) ∙ h in
                subst (λ x. Kept s c x.0 x.1) (same_some h₁)
                  (
                    Answered-trans (reset-Answered c)
                        (send_header-Answered c₀ (bytes s2c_heart_msg)),
                    refl,
                  )
            | inr unknown ↦
                let h₁ : some (s, c) ≡ some (s', c') =
                  sym (rw other (rw other₂ (rw unknown refl))) ∙ h in
                subst (λ x. Kept s c x.0 x.1) (same_some h₁) (Answered-refl c, refl)
          ]
        ]
      ]

  abbrev pub client_count : State → ℤ
  client_count s = s.counters.client_count

  -- The application counts a client more at each OnNetJoin and one less at each OnNetLeave; an answer
  -- that returns leaves the count, the socket and the receive buffer alone and the send buffer valid.
  pub event-OwnerLaws : OwnerLaws (event o) client_count
  unfolding event on_net_msg TcpServer.on_net_join TcpServer.on_net_leave TcpServer.on_net_recv
      TcpServer.on_net_msg
  event-OwnerLaws = record {
    counting = record { leaves = λ s c. refl; receives = λ s c. refl };
    joins = λ s c. refl;
    answers = λ s s' c c' mem h.
        let (a, kept) =
          dispatch-Answered mem (record s { counters = TcpServer.on_net_msg s.counters c }) s' c c'
            h in
        (a.socket, a.recv, a.send, kept);
  }
