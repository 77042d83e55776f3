-- ===== src/OldClient/Owned.antt =====
-- The socket of the old client, call by call.
use cpp_network_obj.Base.{
  ℕ, ◌≡◌, refl, sym, ap, ap₂, subst, ◌⊎◌, ◌+◌, ◌*◌, ◌==◌, ltb, leb_ℤ, pos, negsuc, length,
  overwrite, ◌∙◌, Bool, true, false, Option, none, some, List, [], ◌∷◌, ◌++◌, ℤ, append-nil,
  if◌then◌else◌, ◌>>=◌, >>=-eq-some, Bool-cases, inl, inr,
}
use cpp_network_obj.Buffer.{
  Socket, invalid_socket, fd, is_valid, SendReply, send_failed, sent, RecvReply, recv_failed,
  received,
}
use cpp_network_obj.OldServer.{message_loop}
use cpp_network_obj.Server.{is_error}
use cpp_network_obj.Server.Dispatch.{same_some}
use cpp_network_obj.OldClient.{
  TcpClient, Notice, buff_size, close, init_socket, connect, is_run, in_set, on_net_msg, recv_data,
  on_run, send_data,
}

abbrev pub one : Socket → List Socket
one invalid_socket = []
one (fd n) = fd n ∷ []

-- The sockets that the client has closed, and the one that it has.
abbrev pub owned : TcpClient → List Socket
owned c = c.closed ++ one c.sock

Socket-cases : (k : Socket) → (k ≡ invalid_socket) ⊎ ((n : ℕ) × (k ≡ fd n))
Socket-cases invalid_socket = inl refl
Socket-cases (fd n) = inr (n, refl)

pub close-owned : (c : TcpClient) → (owned (close c) ≡ owned c) × ((close c).sock ≡ invalid_socket)
unfolding close
close-owned c = elim (Socket-cases c.sock) [
  | inl e ↦ (rw e refl, rw e refl)
  | inr (n, e) ↦ (rw e (append-nil (c.closed ++ fd n ∷ [])), rw e refl)
]

pub init_socket-owned_lem :
    (reply : Socket) (c : TcpClient) → owned (init_socket reply c).1 ≡ owned c ++ one reply
unfolding init_socket close
init_socket-owned_lem reply c = elim (Socket-cases c.sock) [
  | inl e ↦ rw e (ap (λ l. l ++ one reply) (sym (append-nil c.closed)))
  | inr (n, e) ↦ rw e refl
]

-- Connect first makes a socket, where there is none.
with_socket-owned :
    (reply : Socket) (ret : ℤ) (c : TcpClient)
    → owned (if is_valid c.sock then c else (init_socket reply c).1)
      ≡ owned c ++ (if is_valid c.sock then [] else one reply)
unfolding init_socket close
with_socket-owned reply ret c = elim (Socket-cases c.sock) [
  | inl e ↦ rw e (ap (λ l. l ++ one reply) (sym (append-nil c.closed)))
  | inr (n, e) ↦ rw e (sym (append-nil (c.closed ++ fd n ∷ [])))
]

pub connect-owned :
    (reply : Socket) (ret : ℤ) (c : TcpClient)
    → owned (connect reply ret c).1 ≡ owned c ++ (if is_valid c.sock then [] else one reply)
unfolding connect
connect-owned reply ret c = elim (Bool-cases (is_error ret)) [
  | inl fails ↦ rw fails (with_socket-owned reply ret c)
  | inr works ↦ rw works (with_socket-owned reply ret c)
]

-- RecvData leaves the sockets alone.
abbrev pub Same : TcpClient → TcpClient → Type 0
Same c c' = (c'.sock ≡ c.sock) × (c'.closed ≡ c.closed) × (c'.is_connect ≡ c.is_connect)

not_some : {A : Type 0} {a : A} → none ≡ some a → ⊥
not_some h = cc

abbrev stored : TcpClient → List Notice × List ℕ × ℕ → Option (ℤ × TcpClient)
stored c (notices, buf, last) =
    some (pos 0, record c { msg_buf = buf; last_pos = last; notices = notices })

recv_data-Same :
    (fuel : ℕ) (reply : RecvReply) (c : TcpClient) (r : ℤ × TcpClient)
    → recv_data fuel reply c ≡ some r
    → Same c r.1
unfolding recv_data
recv_data-Same fuel recv_failed c r h = subst (λ x. Same c x.1) (same_some h) (refl, refl, refl)
recv_data-Same fuel (received bytes) c r h = elim (Bool-cases (length bytes == 0)) [
  | inl closes ↦
      let h₁ : some (negsuc 0, c) ≡ some r = sym (rw closes refl) ∙ h in
      subst (λ x. Same c x.1) (same_some h₁) (refl, refl, refl)
  | inr some_bytes ↦ elim (Bool-cases (ltb (buff_size * 5) (c.last_pos + length bytes))) [
    | inl over ↦
        let h₁ : none ≡ some r = sym (rw some_bytes (rw over refl)) ∙ h in absurd (not_some h₁)
    | inr fits ↦
        let looped =
          message_loop on_net_msg fuel c.notices (overwrite c.last_pos bytes c.msg_buf)
            (c.last_pos + length bytes) in
        let h₁ : (looped >>= λ x. stored c x) ≡ some r = sym (rw some_bytes (rw fits refl)) ∙ h in
        let (x, ran, ends) = >>=-eq-some looped (stored c) h₁ in
        subst (λ x. Same c x.1) (same_some ends) (refl, refl, refl)
  ]
]

-- What OnRun makes of the result of RecvData.
abbrev judged : ℤ × TcpClient → Bool × TcpClient
judged (n, c) = if is_error n then (false, close c) else (true, c)

judged-owned : (c : TcpClient) (x : ℤ × TcpClient) → Same c x.1 → owned (judged x).1 ≡ owned c
judged-owned c (n, c') (sock, closed, connected) =
    let same : owned c' ≡ owned c = ap₂ (λ l k. l ++ one k) closed sock in
    elim (Bool-cases (is_error n)) [ inl e ↦ rw e ((close-owned c').0 ∙ same) | inr e ↦ rw e same ]

pub on_run-owned :
    (fd_setsize fuel : ℕ) (ret : ℤ) (ready : Bool) (reply : RecvReply) (c : TcpClient)
    (r : Bool × TcpClient)
    → on_run fd_setsize fuel ret ready reply c ≡ some r
    → owned r.1 ≡ owned c
unfolding on_run
on_run-owned fd_setsize fuel ret ready reply c r h = elim (Bool-cases (is_run c)) [
  | inr stopped ↦
      let h₁ : some (false, c) ≡ some r = sym (rw stopped refl) ∙ h in
      ap (λ x. owned x.1) (sym (same_some h₁))
  | inl runs ↦ elim (Bool-cases (in_set fd_setsize c.sock)) [
    | inr outside ↦ absurd (not_some (sym (rw runs (rw outside refl)) ∙ h))
    | inl inside ↦ elim (Bool-cases (leb_ℤ (pos 0) ret)) [
      | inr fails ↦
          let h₁ : some (false, c) ≡ some r = sym (rw runs (rw inside (rw fails refl))) ∙ h in
          ap (λ x. owned x.1) (sym (same_some h₁))
      | inl selects ↦ elim (Bool-cases ready) [
        | inr idle ↦
            let h₁ : some (true, c) ≡ some r =
              sym (rw runs (rw inside (rw selects (rw idle refl)))) ∙ h in
            ap (λ x. owned x.1) (sym (same_some h₁))
        | inl reads ↦
            let h₁ : (recv_data fuel reply c >>= λ x. some (judged x)) ≡ some r =
              sym (rw runs (rw inside (rw selects (rw reads refl)))) ∙ h in
            let (x, ran, ends) = >>=-eq-some (recv_data fuel reply c) (λ x. some (judged x)) h₁ in
            ap (λ x. owned x.1) (sym (same_some ends))
            ∙ judged-owned c x (recv_data-Same fuel reply c x ran)
      ]
    ]
  ]
]

pub send_data-owned :
    (mem : Option (List ℕ)) (reply : SendReply) (c : TcpClient)
    → owned (send_data mem reply c).1 ≡ owned c
unfolding send_data
send_data-owned none reply c = refl
send_data-owned (some mem) send_failed c = elim (Bool-cases (is_run c)) [
  | inl runs ↦ rw runs ((close-owned c).0)
  | inr stopped ↦ rw stopped refl
]
send_data-owned (some mem) (sent n) c = elim (Bool-cases (is_run c)) [
  | inl runs ↦ rw runs refl
  | inr stopped ↦ rw stopped refl
]
