-- ===== src/MyServer/Laws.antt =====
-- The answers of the server application never leave defined behaviour.
use cpp_network_obj.Base.{
  ◌+◌, leb, Bool, true, false, none, if◌then◌else◌, ℕ, ◌≤◌, ◌≡◌, refl, sym, subst, ◌∙◌, some, List,
  length, ◌==◌, arith, Bool-cases, inl, inr,
}
use cpp_network_obj.Message.{
  read_msg_id, msg_id_field, cmd_field, data_length, bytes, login_r, s2c_heart_msg,
}
use cpp_network_obj.Client.{CellClient, reset_dt_heart, send_data, send_header}
use cpp_network_obj.Client.Drain.Messages.{HandlerLaws}
use cpp_network_obj.Stream.{CellStream, read_or, only_read, read_array, write, write_array}
use cpp_network_obj.Stream.Total.{
  InBlock, read_or-InBlock, only_read-same, read_array-total, write_array-total, write-block,
}
use cpp_network_obj.Stream
use cpp_network_obj.MsgStream.{read_stream, get_net_cmd, write_stream, set_net_cmd, finish, message}
use cpp_network_obj.TcpServer
use cpp_network_obj.MyServer.{
  Options, State, LogoutFields, read_scalars, read_logout, write_scalars, write_logout, int_bits,
  check_id, answer_login, answer_logout, dispatch, on_net_msg,
}

read_stream-InBlock : (mem : List ℕ) → data_length mem ≤ length mem → InBlock (read_stream mem)
unfolding read_stream
read_stream-InBlock mem h = h

read_scalars-InBlock : (mem : List ℕ) → data_length mem ≤ length mem → InBlock (read_scalars mem).1
unfolding read_scalars get_net_cmd
read_scalars-InBlock mem h =
    let r₁ = (read_or 2 0 (read_stream mem)).1 in
    let r₂ = (read_or 2 17 r₁).1 in
    let r₃ = (read_or 1 0 r₂).1 in
    let r₄ = (read_or 2 0 r₃).1 in
    let r₅ = (read_or 4 0 r₄).1 in
    let r₆ = (read_or 4 0 r₅).1 in
    let r₇ = (read_or 8 0 r₆).1 in
    let i₂ =
      read_or-InBlock 2 17 r₁ (read_or-InBlock 2 0 (read_stream mem) (read_stream-InBlock mem h)) in
    let i₄ = read_or-InBlock 2 0 r₃ (read_or-InBlock 1 0 r₂ i₂) in
    let i₆ = read_or-InBlock 4 0 r₅ (read_or-InBlock 4 0 r₄ i₄) in
    subst InBlock (sym (only_read-same 4 r₇)) (read_or-InBlock 8 0 r₆ i₆)

read_logout-total :
    (mem : List ℕ)
    → data_length mem ≤ length mem
    → (f : LogoutFields) × (read_logout mem ≡ some f)
      × (length f.name ≤ 32)
      × (length f.pw ≤ 32)
      × (length f.ata ≤ 10)
unfolding read_logout
read_logout-total mem h =
    let (n, r) = read_scalars mem in
    let (name, r₁, e₁, i₁, l₁) =
      read_array-total 1 32 r (read_scalars-InBlock mem h) (omega arith) in
    let (pw, r₂, e₂, i₂, l₂) = read_array-total 1 32 r₁ i₁ (omega arith) in
    let (ata, r₃, e₃, i₃, l₃) = read_array-total 4 10 r₂ i₂ (omega arith) in
    (
      record { n1 = n.0; n2 = n.1; n3 = n.2; n4 = n.3; n5 = n.4; name = name; pw = pw; ata = ata },
      rw e₁ (rw e₂ (rw e₃)),
      l₁,
      l₂,
      l₃,
    )

-- The stream that an answer is written to has the size of its block.
write_scalars-block :
    (raw : List ℕ) (f : LogoutFields)
    → length raw ≡ 128
    → length (write_scalars raw f).mem ≡ (write_scalars raw f).size
unfolding write_scalars set_net_cmd write_stream Stream.create
write_scalars-block raw f e =
    let s₀ : CellStream = Stream.create 128 raw in
    let s₁ = (write 2 0 s₀).1 in
    let s₂ = (write 2 13 s₁).1 in
    let s₃ = (write 1 f.n1 s₂).1 in
    let s₄ = (write 2 f.n2 s₃).1 in
    let s₅ = (write 4 f.n3 s₄).1 in
    let s₆ = (write 4 f.n4 s₅).1 in
    write-block 8 f.n5 s₆ (
      write-block 4 f.n4 s₅ (
        write-block 4 f.n3 s₄ (
          write-block 2 f.n2 s₃
            (write-block 1 f.n1 s₂ (write-block 2 13 s₁ (write-block 2 0 s₀ e))))))

write_logout-total :
    (raw : List ℕ) (f : LogoutFields)
    → length raw ≡ 128
    → length f.name ≤ 32
    → length f.pw ≤ 32
    → length f.ata ≤ 10
    → (msg : List ℕ) × (write_logout raw f ≡ some msg)
unfolding write_logout
write_logout-total raw f e a b c =
    let (ok₁, s₁, e₁, b₁) =
      write_array-total 1 f.name (write_scalars raw f) (write_scalars-block raw f e)
        (omega arith) in
    let (ok₂, s₂, e₂, b₂) = write_array-total 1 f.pw s₁ b₁ (omega arith) in
    let (ok₃, s₃, e₃, b₃) = write_array-total 4 f.ata s₂ b₂ (omega arith) in
    (message (finish s₃), rw e₁ (rw e₂ (rw e₃)))

not_both : true ≡ false → ⊥
not_both e = cc

recv_buff-send_header :
    (c : CellClient) (mem : List ℕ) → (send_header c mem).1.recv_buff ≡ c.recv_buff
unfolding send_header
recv_buff-send_header c mem = refl

module _ (o : Options) where
  -- The message ID lies in memory where it is read.
  abbrev pub reads_inside : List ℕ → Bool
  reads_inside mem =
      if cmd_field mem == 10 then (if o.check_msg_id then leb 100 (length mem) else true) else true

  check_id-total :
      (mem : List ℕ) (s : State) (c : CellClient)
      → (if o.check_msg_id then leb 100 (length mem) else true) ≡ true
      → (r : State × CellClient) × (check_id o mem s c ≡ some r) × (r.1.recv_buff ≡ c.recv_buff)
  unfolding check_id read_msg_id
  check_id-total mem s c h = elim (Bool-cases o.check_msg_id) [
    | inr skips ↦ ((s, c), rw skips refl, refl)
    | inl checks ↦
        let inside : leb 100 (length mem) ≡ true = sym (rw checks refl) ∙ h in
        (
          (
            if msg_id_field mem == int_bits c.recv_msg_id
                then s
                else record s { id_errors = s.id_errors + 1 },
            record c { recv_msg_id = c.recv_msg_id + 1 },
          ),
          rw checks (rw inside refl),
          refl,
        )
  ]

  check_id-outside :
      (mem : List ℕ) (s : State) (c : CellClient)
      → (if o.check_msg_id then leb 100 (length mem) else true) ≡ false
      → check_id o mem s c ≡ none
  unfolding check_id read_msg_id
  check_id-outside mem s c h = elim (Bool-cases o.check_msg_id) [
    | inr skips ↦ absurd (not_both (sym (rw skips refl) ∙ h))
    | inl checks ↦
        let outside : leb 100 (length mem) ≡ false = sym (rw checks refl) ∙ h in
        rw checks (rw outside refl)
  ]

  recv_buff-answer_login : (c : CellClient) → (answer_login o c).recv_buff ≡ c.recv_buff
  unfolding answer_login
  recv_buff-answer_login c =
      ground
        (arith, recv_buff-send_header c (bytes (login_r 0 o.result_chars (int_bits c.send_msg_id))))

pub unchecked_inside :
    (o : Options) (mem : List ℕ) → o.check_msg_id ≡ false → reads_inside o mem ≡ true
unchecked_inside o mem h = elim (Bool-cases (cmd_field mem == 10)) [
  | inl e ↦ rw e (rw h refl)
  | inr e ↦ rw e refl
]

module _ (o : Options) (raw : length o.stream_raw ≡ 128) where
  answer_logout-total :
      (mem : List ℕ) (c : CellClient)
      → data_length mem ≤ length mem
      → (c' : CellClient) × (answer_logout o mem c ≡ some c') × (c'.recv_buff ≡ c.recv_buff)
  unfolding answer_logout send_data
  answer_logout-total mem c h =
      let (f, e, a, b, d) = read_logout-total mem h in
      let (msg, e') = write_logout-total o.stream_raw f raw a b d in
      ((send_data c msg).1, rw e (rw e'), refl)

  dispatch-total :
      (mem : List ℕ) (s : State) (c : CellClient)
      → data_length mem ≤ length mem
      → reads_inside o mem ≡ true
      → (r : State × CellClient) × (dispatch o mem s c ≡ some r) × (r.1.recv_buff ≡ c.recv_buff)
  unfolding dispatch reset_dt_heart
  dispatch-total mem s c h reads = elim (Bool-cases (cmd_field mem == 10)) [
    | inl e ↦
        let (r, e', same) = check_id-total o mem s (reset_dt_heart c) (sym (rw e refl) ∙ reads) in
        ((r.0, answer_login o r.1), rw e (rw e' refl), recv_buff-answer_login o r.1 ∙ same)
    | inr e ↦ elim (Bool-cases (cmd_field mem == 12)) [
      | inl e' ↦
          let (c', e'', same) = answer_logout-total mem (reset_dt_heart c) h in
          ((s, c'), rw e (rw e' (rw e'')), same)
      | inr e' ↦ elim (Bool-cases (cmd_field mem == 15)) [
        | inl e'' ↦ (
          (s, (send_header (reset_dt_heart c) (bytes s2c_heart_msg)).1),
          rw e (rw e' (rw e'')),
          recv_buff-send_header (reset_dt_heart c) (bytes s2c_heart_msg),
        )
        | inr e'' ↦ ((s, c), rw e (rw e' (rw e'')), refl)
      ]
    ]
  ]

  dispatch-outside :
      (mem : List ℕ) (s : State) (c : CellClient)
      → reads_inside o mem ≡ false
      → dispatch o mem s c ≡ none
  unfolding dispatch reset_dt_heart
  dispatch-outside mem s c h = elim (Bool-cases (cmd_field mem == 10)) [
    | inl e ↦ rw e (rw (check_id-outside o mem s (reset_dt_heart c) (sym (rw e refl) ∙ h)) refl)
    | inr e ↦ absurd (not_both (sym (rw e refl) ∙ h))
  ]

  -- With the 128 unset bytes of the answer's stream, for any client and any message that lies in memory,
  -- whatever its fields say: OnNetMsg returns, and leaves the receive buffer alone, unless message IDs
  -- are checked and the message is a login at the start of less than 100 bytes of memory; then its msgID
  -- is read from outside the memory.
  pub on_net_msg-total :
      (s : State) (c : CellClient) (mem : List ℕ)
      → data_length mem ≤ length mem
      → (reads_inside o mem ≡ true
          → (r : State × CellClient) × (on_net_msg o s c mem ≡ some r)
            × (r.1.recv_buff ≡ c.recv_buff))
        × (reads_inside o mem ≡ false → on_net_msg o s c mem ≡ none)
  unfolding on_net_msg
  on_net_msg-total s c mem h =
      let s' = record s { counters = TcpServer.on_net_msg s.counters c } in
      (dispatch-total mem s' c h, dispatch-outside mem s' c)

  -- Where message IDs are not checked, the application is a handler of any client's messages.
  abbrev pub handler_laws : o.check_msg_id ≡ false → HandlerLaws (on_net_msg o)
  handler_laws unchecked = record {
    Inv = λ c. Unit {0};
    Inv-recv_buff = λ c b i. tt;
    returns = λ s c mem i h.
        let (r, e, same) = (on_net_msg-total s c mem h).0 (unchecked_inside o mem unchecked) in
        (r, e, same, tt);
  }
