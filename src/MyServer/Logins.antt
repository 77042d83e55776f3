-- ===== src/MyServer/Logins.antt =====
-- The answers of the server application to logins that come one after the other.
use cpp_network_obj.Base.{
  ℕ, zero, suc, ◌+◌, ◌*◌, ◌≤◌, ◌<◌, ◌^◌, ◌≡◌, refl, ap, sym, subst, ◌∙◌, true, Option, some, List,
  [], ◌∷◌, ◌++◌, pos, length, take, concat, append_assoc, append-nil, take-append_eq, ◌==◌, ◌>>=◌,
  arith, le→leb,
}
use cpp_network_obj.Message.{
  bytes, login_msg, login_r, cmd_field, read_msg_id, data_length, IsWellSized,
}
use cpp_network_obj.Message.Layout.{bytes_framed, cmd_field-bytes}
use cpp_network_obj.Message.Ids.{read_msg_id-login}
use cpp_network_obj.Buffer.{CellBuffer, contents, push}
use cpp_network_obj.Buffer.Invariant.{IsValid, push-IsValid}
use cpp_network_obj.Buffer.Queue.{contents-push}
use cpp_network_obj.Client.{CellClient, send_header, send_data, reset_dt_heart}
use cpp_network_obj.Client.Drain.{Handler}
use cpp_network_obj.TcpServer
use cpp_network_obj.MyServer.{
  Options, State, int_bits, check_id, answer_login, dispatch, on_net_msg,
}

-- A handler that is given messages one after the other.
unfoldable pub handle_all :
    {S : Type 0} → Handler S → S → CellClient → List (List ℕ) → Option (S × CellClient)
handle_all handle s c [] = some (s, c)
handle_all handle s c (m ∷ ms) = handle s c m >>= λ (s', c'). handle_all handle s' c' ms

abbrev pub IsSized : List ℕ → List ℕ → List ℕ → Type 0
IsSized u p d = (length u ≡ 32) × (length p ≡ 32) × (length d ≡ 28)

-- Messages that lie in memory, the one with the number `n` and on each with something behind it.
abbrev pub followed : (ℕ → List ℕ) → ℕ → List (List ℕ) → List (List ℕ)
followed tails n [] = []
followed tails n (m ∷ ms) = (m ++ tails n) ∷ followed tails (n + 1) ms

-- Logins with consecutive message IDs from `n` on.
abbrev pub logins : List ℕ → List ℕ → List ℕ → ℕ → ℕ → List (List ℕ)
logins u p d n zero = []
logins u p d n (suc k) = bytes (login_msg u p d (int_bits n)) ∷ logins u p d (n + 1) k

-- The answers with consecutive message IDs from `i` on.
abbrev pub answers : Options → ℕ → ℕ → List (List ℕ)
answers o i zero = []
answers o i (suc k) = bytes (login_r 0 o.result_chars (int_bits i)) ∷ answers o (i + 1) k

pub int_bits-lt : (n : ℕ) → int_bits n < 2 ^ 32
int_bits-lt n = omega arith

take_bytes : (xs : List ℕ) (n : ℕ) → length xs ≡ n → take n xs ≡ xs
take_bytes xs n h = ap (take n) (sym (append-nil xs)) ∙ take-append_eq n xs [] (sym h)

pub plus_zero : (n : ℕ) → n + 0 ≡ n
plus_zero n = omega arith

pub plus_suc : (n k : ℕ) → n + 1 + k ≡ n + suc k
plus_suc n k = omega arith

-- Bytes that fit into a buffer.
pub push-room :
    (b : CellBuffer) (bytes : List ℕ)
    → b.last + length bytes ≤ b.size
    → ((push b bytes).0 ≡ true)
      × ((push b bytes).1.last ≡ b.last + length bytes)
      × ((push b bytes).1.size ≡ b.size)
unfolding push
push-room b bytes h =
    let fits = le→leb (b.last + length bytes) b.size h in (rw fits refl, rw fits refl, rw fits refl)

-- A message that fits into the send buffer.
pub send_header-room :
    (c : CellClient) (bytes : List ℕ)
    → data_length bytes ≡ length bytes
    → c.send_buff.last + length bytes ≤ c.send_buff.size
    → send_header c bytes
      ≡ (pos (length bytes), record c { send_buff = (push c.send_buff bytes).1 })
unfolding send_header send_data
send_header-room c bytes e room =
    ap (send_data c) (ap (λ n. take n bytes) e ∙ take_bytes bytes (length bytes) refl)
    ∙ rw (push-room c.send_buff bytes room).0 refl

pub ==-true : {a b : ℕ} → a ≡ b → (a == b) ≡ true
==-true {a} {b} h = ground arith

-- A server's client in step: what it expects next, what it answers next, and what it has to send.
pub record InStep (c : CellClient) (n i room : ℕ) (queued : List ℕ) : Type 0 where
  pub expects : c.recv_msg_id ≡ n
  pub replies : c.send_msg_id ≡ i
  pub valid : IsValid c.send_buff
  pub has_room : c.send_buff.last + room ≤ c.send_buff.size
  pub holds : contents c.send_buff ≡ queued

module _ (o : Options) (back : o.send_back ≡ true) (check : o.check_msg_id ≡ true)
    (chars : length o.result_chars ≡ 88) where
  answer_login-InStep :
      (c : CellClient) (n i room : ℕ) (queued : List ℕ)
      → InStep c n i (100 + room) queued
      → InStep
          (answer_login o c)
          n
          (i + 1)
          room
          (queued ++ bytes (login_r 0 o.result_chars (int_bits i)))
  unfolding answer_login
  answer_login-InStep c n i room queued h =
      let answer = bytes (login_r 0 o.result_chars (int_bits c.send_msg_id)) in
      let (long, framed, command) =
        bytes_framed (login_r 0 o.result_chars (int_bits c.send_msg_id)) []
          (chars, int_bits-lt c.send_msg_id) in
      let whole : data_length answer ≡ 100 = ap data_length (sym (append-nil answer)) ∙ framed in
      let hundred : length answer ≡ 100 = long ∙ framed in
      let fits : c.send_buff.last + length answer ≤ c.send_buff.size =
        omega (arith, hundred, h.has_room) in
      let (pushed, last, size) = push-room c.send_buff answer fits in
      let sends = send_header-room c answer (whole ∙ sym hundred) fits in
      let result : answer_login o c
          ≡ record c { send_buff = (push c.send_buff answer).1; send_msg_id = c.send_msg_id + 1 } =
        rw back (rw sends refl) in
      subst (λ x. InStep x n (i + 1) room (queued ++ bytes (login_r 0 o.result_chars (int_bits i))))
        (sym result)
        (record {
          expects = h.expects;
          replies = ap (λ x. x + 1) h.replies;
          valid = push-IsValid {b = c.send_buff} answer h.valid;
          has_room = omega (arith, last, size, hundred, h.has_room);
          holds =
              contents-push {b = c.send_buff} answer h.valid fits
              ∙ ap (λ l. l ++ answer) h.holds
              ∙ ap (λ x. queued ++ bytes (login_r 0 o.result_chars (int_bits x))) h.replies;
        })

  login-InStep :
      (u p d tail : List ℕ) (s : State) (c : CellClient) (n i room : ℕ) (queued : List ℕ)
      → IsSized u p d
      → InStep c n i (100 + room) queued
      → (s' : State) × (c' : CellClient) × (on_net_msg o s c
            (bytes (login_msg u p d (int_bits n)) ++ tail)
          ≡ some (s', c'))
        × (s'.id_errors ≡ s.id_errors)
        × InStep c' (n + 1) (i + 1) room (queued ++ bytes (login_r 0 o.result_chars (int_bits i)))
  unfolding on_net_msg dispatch check_id reset_dt_heart
  login-InStep u p d tail s c n i room queued sized h =
      let m = bytes (login_msg u p d (int_bits n)) ++ tail in
      let sized' : IsWellSized (login_msg u p d (int_bits n)) =
        (sized.0, sized.1, sized.2, int_bits-lt n) in
      let command : cmd_field m ≡ 10 = cmd_field-bytes (login_msg u p d (int_bits n)) tail in
      let same_id : (int_bits n == int_bits c.recv_msg_id) ≡ true =
        ==-true (ap int_bits (sym h.expects)) in
      let read : read_msg_id m ≡ some (int_bits n) =
        read_msg_id-login u p d tail (int_bits n) sized' in
      let c' : CellClient = record (reset_dt_heart c) { recv_msg_id = c.recv_msg_id + 1 } in
      (
        record s { counters = TcpServer.on_net_msg s.counters c },
        answer_login o c',
        rw command (rw check (rw read (rw same_id refl))),
        refl,
        answer_login-InStep c' (n + 1) i room queued (record {
          expects = ap (λ x. x + 1) h.expects;
          replies = h.replies;
          valid = h.valid;
          has_room = h.has_room;
          holds = h.holds;
        }),
      )

  -- Logins one after the other.
  pub logins-InStep :
      (u p d : List ℕ) (tails : ℕ → List ℕ) (k : ℕ) (s : State) (c : CellClient) (n i : ℕ)
      (queued : List ℕ)
      → IsSized u p d
      → InStep c n i (100 * k) queued
      → (s' : State) × (c' : CellClient) × (handle_all
            (on_net_msg o)
            s
            c
            (followed tails n (logins u p d n k))
          ≡ some (s', c'))
        × (s'.id_errors ≡ s.id_errors)
        × InStep c' (n + k) (i + k) 0 (queued ++ concat (answers o i k))
  unfolding handle_all
  logins-InStep u p d tails zero s c n i queued sized h = (
    s,
    c,
    refl,
    refl,
    record {
      expects = h.expects ∙ sym (plus_zero n);
      replies = h.replies ∙ sym (plus_zero i);
      valid = h.valid;
      has_room = omega (arith, h.valid.within);
      holds = h.holds ∙ sym (append-nil queued);
    },
  )
  logins-InStep u p d tails (suc k) s c n i queued sized h =
      let (s₁, c₁, first, same, h₁) =
        login-InStep u p d (tails n) s c n i (100 * k) queued sized
          (subst (λ r. InStep c n i r queued) (omega arith) h) in
      let (s₂, c₂, rest, same', h₂) =
        logins-InStep u p d tails k s₁ c₁ (n + 1) (i + 1) _ sized h₁ in
      (
        s₂,
        c₂,
        rw first rest,
        same' ∙ same,
        record {
          expects = h₂.expects ∙ plus_suc n k;
          replies = h₂.replies ∙ plus_suc i k;
          valid = h₂.valid;
          has_room = h₂.has_room;
          holds =
              h₂.holds
              ∙ append_assoc queued (bytes (login_r 0 o.result_chars (int_bits i)))
                  (concat (answers o (i + 1) k));
        },
      )
