-- ===== src/MyClient/Work.antt =====
-- client/client.cpp: a round of the loop of WorkThread over its clients. The waits, the connecting and
-- the threads are left out.
use cpp_network_obj.Base.{
  ◌⊎◌, take, ℕ, zero, suc, ◌+◌, ◌≡◌, refl, ap, Bool, true, false, Option, none, some, List, [], ◌∷◌,
  ℤ, pos, negsuc, ◌+ℤ◌, leb_ℤ, leb→le, if◌then◌else◌, ◌>>=◌, Option-cases, inl, inr, arith,
}
use cpp_network_obj.Client.{CellClient, need_write}
use cpp_network_obj.Epoll.{CtlOp, ctl, wait}
use cpp_network_obj.TcpClient.{is_run, is_positive}
use cpp_network_obj.TcpClient.Epoll.{EpollClient, EpollRound, do_events, on_run}
use cpp_network_obj.MyClient.{MyClient, SendOptions, Login, send_test, check_send, on_net_msg}

-- A MyClient and the parts that it has from EasyEpollClient.
abbrev pub Member : Type 0
Member = MyClient × EpollClient

-- The clients of a thread, and the counters sendCount and nConnect, which the threads share.
pub record Worker : Type 0 where
  pub clients : List Member
  pub send_count : ℕ
  pub connects : ℤ

abbrev has_client : Option CellClient → Bool
has_client none = false
has_client (some c) = true

abbrev is_running : EpollClient → Bool
is_running e = has_client (is_run e.tcp)

-- The inner loop that sends one message for each client, with the count of those sent.
unfoldable pub send_each : Login → ℕ → List Member → ℕ × List Member
unfolding send_test
send_each l n [] = (n, [])
send_each l n ((m, e) ∷ clients) =
    if is_running e
    then (let (ret, m', t') = send_test l m e.tcp in
        let (n', rest) = send_each l (if is_positive ret then n + 1 else n) clients in
        (n', (m', record e { tcp = t' }) ∷ rest))
    else (let (n', rest) = send_each l n clients in (n', (m, e) ∷ rest))

-- The loop around it.
unfoldable pub send_rounds : Login → ℕ → ℕ → List Member → ℕ × List Member
unfolding send_each
send_rounds l zero n clients = (n, clients)
send_rounds l (suc k) n clients =
    let (n', clients') = send_each l n clients in send_rounds l k n' clients'

module _ (o : SendOptions) where
  -- The body of the second loop, for a client that runs.
  unfoldable pub run_one : ℕ → EpollRound → ℤ → ℤ → Member → Option (ℤ × Member)
  unfolding on_run check_send
  run_one fuel round dt connects (m, e) = on_run on_net_msg fuel round m e >>= λ (go, m', e').
      some
        (if go then (connects, ((check_send o dt m').1, e')) else (connects +ℤ negsuc 0, (m', e')))

  -- The second loop, where `rounds` is what the kernel does for each client.
  unfoldable pub run_each :
      ℕ → (ℕ → EpollRound) → ℤ → ℕ → ℤ → List Member → Option (ℤ × List Member)
  unfolding run_one
  run_each fuel rounds dt n connects [] = some (connects, [])
  run_each fuel rounds dt n connects ((m, e) ∷ clients) =
      (if is_running e then run_one fuel (rounds n) dt connects (m, e) else some (connects, (m, e)))
      >>= λ (connects', member).
          run_each fuel rounds dt (n + 1) connects' clients >>= λ (connects'', rest).
          some (connects'', member ∷ rest)

  -- The work of a round.
  unfoldable pub work : Login → ℕ → (ℕ → EpollRound) → ℤ → Worker → Option Worker
  unfolding send_rounds run_each
  work l fuel rounds dt w =
      let (n, clients) = send_rounds l o.n_msg w.send_count w.clients in
      run_each fuel rounds dt 0 w.connects clients >>= λ (connects, clients').
      some (record { clients = clients'; send_count = n; connects = connects })

-- Whether a wait with epoll_wait succeeds.
abbrev pub Succeeds : EpollRound → Type 0
Succeeds round = leb_ℤ (pos 0) (wait round.waited round.eintr) ≡ true

-- The count of connections after some clients ran, where that is defined.
abbrev pub count_of : Option (ℤ × List Member) → Option ℤ
count_of r = r >>= λ (connects, clients). some connects

non_negative : (z : ℤ) → leb_ℤ (pos 0) z ≡ true → (n : ℕ) × (z ≡ pos n)
non_negative (pos n) h = (n, refl)
non_negative (negsuc n) h = absurd (omega (arith, leb→le (0 + suc n) 0 h))

-- OnRun of a client, where the wait succeeds, has the result true or is undefined.
on_run-goes :
    (fuel : ℕ) (round : EpollRound) (m : MyClient) (e : EpollClient) (c : CellClient)
    → is_run e.tcp ≡ some c
    → Succeeds round
    → (on_run on_net_msg fuel round m e ≡ none)
      ⊎ ((r : MyClient × EpollClient) × (on_run on_net_msg fuel round m e ≡ some (true, r.0, r.1)))
unfolding on_run
on_run-goes fuel round m e c run ok =
    let (n, waited) = non_negative (wait round.waited round.eintr) ok in
    let e' : EpollClient = record e { ep = ctl CtlOp.ctl_mod c.sockfd (need_write c) e.ep } in
    elim (Option-cases (do_events on_net_msg fuel (take n round.events) m e')) [
      | inl fails ↦ inl (rw (run, on_run) (rw waited (rw fails refl)))
      | inr (r, runs) ↦ inr (r, rw (run, on_run) (rw waited (rw runs refl)))
    ]

module _ (o : SendOptions) where
  run_member-count :
      (fuel : ℕ) (round : EpollRound) (dt connects : ℤ) (m : MyClient) (e : EpollClient)
      → Succeeds round
      → let r =
          if is_running e
          then run_one o fuel round dt connects (m, e)
          else some (connects, (m, e)) in
        (r ≡ none) ⊎ ((member : Member) × (r ≡ some (connects, member)))
  unfolding run_one
  run_member-count fuel round dt connects m e ok = elim (Option-cases (is_run e.tcp)) [
    | inl idle ↦ inr ((m, e), rw (ap has_client idle) refl)
    | inr (c, run) ↦ elim (on_run-goes fuel round m e c run ok) [
      | inl fails ↦ inl (rw (ap has_client run) (rw fails refl))
      | inr (r, runs) ↦ inr (((check_send o dt r.0).1, r.1), rw (ap has_client run) (rw runs refl))
    ]
  ]

  cons_count :
      (member : Member) (connects : ℤ) (r : Option (ℤ × List Member))
      → count_of r ≡ (r >>= λ x. some connects)
      → (let all : Option (ℤ × List Member) = r >>= λ x. some (x.0, member ∷ x.1) in
          count_of all ≡ (all >>= λ x. some connects))
  cons_count member connects none h = refl
  cons_count member connects (some r) h = h

  -- Where every wait succeeds, the second loop of a round leaves nConnect as it was, whatever recv and
  -- send report and however many clients the round closes.
  pub run_each-count :
      (fuel : ℕ) (rounds : ℕ → EpollRound) (dt : ℤ) (clients : List Member) (n : ℕ) (connects : ℤ)
      → ((i : ℕ) → Succeeds (rounds i))
      → count_of (run_each o fuel rounds dt n connects clients)
        ≡ (run_each o fuel rounds dt n connects clients >>= λ r. some connects)
  unfolding run_each
  run_each-count fuel rounds dt [] n connects ok = refl
  run_each-count fuel rounds dt ((m, e) ∷ clients) n connects ok =
      elim (run_member-count fuel (rounds n) dt connects m e (ok n)) [
        | inl fails ↦ rw fails refl
        | inr (member, runs) ↦ rw runs (
            cons_count member connects (run_each o fuel rounds dt (n + 1) connects clients)
              (run_each-count fuel rounds dt clients (n + 1) connects ok))
      ]
