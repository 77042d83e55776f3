-- ===== src/TcpClient/Ends.antt =====
-- How a call of OnRun ends, of a client that waits with select() and of one that waits with epoll.
use cpp_network_obj.Base.{
  ℕ, ◌<◌, ◌≡◌, refl, ap, ◌∙◌, Bool, true, false, not, ◌&&◌, Option, none, some, [], ◌∷◌, ◌++◌, ℤ,
  pos, negsuc, leb_ℤ, if◌then◌else◌, ◌>>=◌, arith, Bool-cases, inl, inr,
}
use cpp_network_obj.Buffer.{Socket, fd, RecvReply, SendReply}
use cpp_network_obj.Buffer.Invariant.{IsValid}
use cpp_network_obj.Buffer.Honest.{CanTake, write_to_socket-total}
use cpp_network_obj.Client.{CellClient, need_write, send_data_real, reset_dt_send, destroy}
use cpp_network_obj.Client.Drain.{Handler}
use cpp_network_obj.FdSet.{FdBits, max_fd}
use cpp_network_obj.Server.{is_error}
use cpp_network_obj.TcpClient.{TcpClient, is_run, close, recv_run, recv_messages}
use cpp_network_obj.TcpClient.Select.{ClientRound, send_part, transfer, on_run}
use cpp_network_obj.TcpClient.Sets.{sign_cases, selected, on_run-sets}

-- What OnRun leaves of a client with the socket: connected as before, or closed, with the socket closed
-- once.
abbrev pub Leaves : Bool → Socket → TcpClient → TcpClient → Type 0
Leaves true sock t t' =
    (c : CellClient) × (is_run t' ≡ some c) × (c.sockfd ≡ sock) × (t'.closed ≡ t.closed)
Leaves false sock t t' =
    (t'.client ≡ none) × (t'.is_connect ≡ false) × (t'.closed ≡ t.closed ++ sock ∷ [])

-- Whether SendDataReal reports an error.
abbrev pub send_fails : CellClient → SendReply → Bool
send_fails c reply = elim (send_data_real c reply) [ none ↦ false | some r ↦ is_error r.0 ]

negative : (n : ℕ) → leb_ℤ (pos 0) (negsuc n) ≡ false
negative n = ground arith

non_negative : (n : ℕ) → leb_ℤ (pos 0) (pos n) ≡ true
non_negative n = ground arith

is_run-client : (t : TcpClient) (c : CellClient) → is_run t ≡ some c → t.client ≡ some c
is_run-client t c h = elim (Bool-cases t.is_connect) [
  | inl e ↦ ground (arith, e, h)
  | inr e ↦ ground (arith, e, h)
]

pub is_run-connected : (t : TcpClient) (c : CellClient) → is_run t ≡ some c → t.is_connect ≡ true
is_run-connected t c h = elim (Bool-cases t.is_connect) [ inl e ↦ e | inr e ↦ ground (arith, e, h) ]

module _ {S : Type 0} (handle : Handler S) where
  -- RecvData, where the socket is readable.
  abbrev pub receives : ℕ → Bool → RecvReply → S → CellClient → Option (ℤ × S × CellClient)
  receives fuel ready reply s c =
      if ready then recv_run handle fuel reply s c else some (pos 0, s, c)

  close-Leaves :
      (t t' : TcpClient) (c : CellClient) (n : ℕ)
      → t'.client ≡ some c
      → c.sockfd ≡ fd n
      → t'.closed ≡ t.closed
      → Leaves false (fd n) t (close t')
  unfolding close destroy
  close-Leaves t t' c n e sock same = (rw e refl, rw e refl, rw e (rw sock (rw same refl)))

  send_part-Leaves :
      (reply : SendReply) (s : S) (t t' : TcpClient) (c : CellClient) (n : ℕ)
      → t'.client ≡ some c
      → t'.is_connect ≡ true
      → c.sockfd ≡ fd n
      → t'.closed ≡ t.closed
      → IsValid c.send_buff
      → CanTake reply c.send_buff
      → (lost : Bool) × (t'' : TcpClient) × (send_fails c reply ≡ lost)
        × (send_part handle reply s t' ≡ some (not lost, s, t''))
        × Leaves (not lost) (fd n) t t''
  unfolding send_part send_data_real reset_dt_send
  send_part-Leaves reply s t t' c n e connected sock same valid can =
      let ((ret, b), runs, valid') =
        write_to_socket-total {b = c.send_buff} c.sockfd reply valid can in
      let c' : CellClient = record c { send_buff = b; dt_send = pos 0 } in
      elim (Bool-cases (is_error ret)) [
        | inl h ↦ (
          true,
          close (record t' { client = some c' }),
          rw (runs, send_fails) h,
          rw e (rw runs (rw h refl)),
          close-Leaves t (record t' { client = some c' }) c' n refl sock same,
        )
        | inr h ↦ (
          false,
          record t' { client = some c' },
          rw (runs, send_fails) h,
          rw e (rw runs (rw h refl)),
          (c', rw connected refl, sock, same),
        )
      ]

  -- RecvData, where the socket is readable, of a client that runs.
  pub recv_part :
      (fuel : ℕ) (ready : Bool) (reply : RecvReply) (s : S) (t : TcpClient) (c : CellClient)
      → is_run t ≡ some c
      → (ret : ℤ) (s₁ : S) (c₁ : CellClient) → receives fuel ready reply s c ≡ some (ret, s₁, c₁)
      → (if ready then recv_messages handle fuel reply s t else some (pos 0, s, t))
        ≡ some (ret, s₁, record t { client = some c₁ })
  unfolding recv_messages
  recv_part fuel true reply s t c run ret s₁ c₁ got = rw (run, recv_messages) (rw got refl)
  recv_part fuel false reply s t c run ret s₁ c₁ got =
      ap (λ o. some (pos 0, s, record t { client = o })) (is_run-client t c run)
      ∙ ap (λ o. o >>= λ (r, s', c'). some (r, s', record t { client = some c' })) got

  transfer-Leaves :
      (fuel : ℕ) (readable writable : Bool) (round : ClientRound) (s : S) (t : TcpClient)
      (c : CellClient)
      → (n : ℕ) → is_run t ≡ some c
      → c.sockfd ≡ fd n
      → (ret : ℤ) (s₁ : S) (c₁ : CellClient)
      → receives fuel readable round.recv s c ≡ some (ret, s₁, c₁)
      → c₁.sockfd ≡ c.sockfd
      → IsValid c₁.send_buff
      → CanTake round.send c₁.send_buff
      → (go : Bool) × (t' : TcpClient) × (transfer handle fuel readable writable round s t
          ≡ some (go, s₁, t'))
        × Leaves go (fd n) t t'
        × (go ≡ (not (is_error ret) && not (writable && send_fails c₁ round.send)))
  unfolding transfer recv_messages
  transfer-Leaves fuel readable writable round s t c n run sock ret s₁ c₁ got same valid can =
      let t₁ : TcpClient = record t { client = some c₁ } in
      let received = recv_part fuel readable round.recv s t c run ret s₁ c₁ got in
      let connected = is_run-connected t c run in
      let (lost, t₂, fails, sends, leaves) =
        send_part-Leaves round.send s₁ t t₁ c₁ n refl connected (same ∙ sock) refl valid can in
      elim (Bool-cases (is_error ret)) [
        | inl h ↦ (
          false,
          close t₁,
          rw received (rw h refl),
          close-Leaves t t₁ c₁ n refl (same ∙ sock) refl,
          rw h refl,
        )
        | inr h ↦ elim (Bool-cases writable) [
          | inl w ↦
              (not lost, t₂, rw received (rw h (rw w sends)), leaves, rw h (rw w (rw fails refl)))
          | inr w ↦ (
            true,
            t₁,
            rw received (rw h (rw w refl)),
            (c₁, rw connected refl, same ∙ sock, refl),
            rw h (rw w refl),
          )
        ]
      ]

  -- Let a client be connected, with its socket inside the bitmap; let RecvData, if the socket
  -- is readable, return, keep the socket and leave a valid send buffer; and let send() take no
  -- more than it is offered. Then OnRun with select() returns. Its result is true exactly if
  -- select() has not failed, RecvData has not, and SendDataReal, which is called if there was
  -- something to send and the socket is writable, has not; the client is then connected as
  -- before. Else OnRun has closed the client, and its socket once.
  pub on_run-Leaves :
      (bits : FdBits) (fuel : ℕ) (round : ClientRound) (s : S) (t : TcpClient) (c : CellClient)
      (n : ℕ)
      → is_run t ≡ some c
      → c.sockfd ≡ fd n
      → n < max_fd
      → (ret : ℤ) (s₁ : S) (c₁ : CellClient)
      → receives fuel round.readable round.recv s c ≡ some (ret, s₁, c₁)
      → c₁.sockfd ≡ c.sockfd
      → IsValid c₁.send_buff
      → CanTake round.send c₁.send_buff
      → (go : Bool) × (s' : S) × (t' : TcpClient) × (on_run handle bits fuel round s t
          ≡ some (go, s', t'))
        × Leaves go (fd n) t t'
        × (go ≡ (
            leb_ℤ (pos 0) round.selected
            && (not (is_error ret)
                && not ((need_write c && round.writable) && send_fails c₁ round.send))))
  on_run-Leaves bits fuel round s t c n run sock inside ret s₁ c₁ got same valid can =
      let connected = is_run-connected t c run in
      elim (sign_cases round.selected) [
        | inl (m, e) ↦ (
          false,
          s,
          close t,
          on_run-sets handle bits fuel n round s t c run sock inside
              ∙ ap (selected handle fuel (need_write c) round s t) e,
          close-Leaves t t c n (is_run-client t c run) sock refl,
          rw e (rw (negative m) refl),
        )
        | inr (m, e) ↦
            let (go, t', runs, leaves, goes) =
              transfer-Leaves fuel round.readable (need_write c && round.writable) round s t c n run
                sock ret s₁ c₁ got same valid can in
            (
              go,
              s₁,
              t',
              on_run-sets handle bits fuel n round s t c run sock inside
                  ∙ ap (selected handle fuel (need_write c) round s t) e
                  ∙ runs,
              leaves,
              goes ∙ rw e (rw (non_negative m) refl),
            )
      ]
