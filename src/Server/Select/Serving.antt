-- ===== src/Server/Select/Serving.antt =====
-- A round of a worker that waits with select, up to the messages.
use cpp_network_obj.Base.{
  ℕ, ◌<◌, ◌≡◌, All-map, refl, sym, subst, ◌∙◌, Bool, true, false, not, ◌||◌, some, [], ◌∷◌, ◌++◌, ℤ,
  ◌+ℤ◌, sub_ℕ, leb_ℤ, length, if◌then◌else◌, ◌>>=◌, arith, Bool-cases, inl, inr, ◌⊎◌,
}
use cpp_network_obj.Client.{CellClient, check_heart, destroy, heart_dead_time}
use cpp_network_obj.FdSet.{FdBits}
use cpp_network_obj.NetEvent.{NetEvent}
use cpp_network_obj.Server.{
  CellServer, Clients, Round, Swept, sweep, notify_leave, heart_visit, check_time, do_msg, serve,
}
use cpp_network_obj.Server.Sweep.{Each, VisitLaws, sweep-Outcome}
use cpp_network_obj.Server.Served.{Served, Served-trans}
use cpp_network_obj.Server.Select.{Sets, poller}
use cpp_network_obj.Server.Select.Events.{IsSound, IsSound-IsWell, CanServe, Counting}
use cpp_network_obj.Server.Select.Waiting.{do_net_events-Served}

-- Some client is not found dead by the next check.
abbrev pub SomeAlive : ℤ → Clients → Type 0
SomeAlive dt [] = ⊥
SomeAlive dt ((k, c) ∷ m) = (leb_ℤ heart_dead_time (c.dt_heart +ℤ dt) ≡ false) ⊎ SomeAlive dt m

not_both : {b : Bool} → b ≡ true → b ≡ false → ⊥
not_both h h' = cc

same_some : {A : Type 0} {a b : A} → some a ≡ some b → a ≡ b
same_some h = cc

module _ {S : Type 0} {e : NetEvent S} {count : S → ℤ} (counting : Counting e count) where
  heart_visit-CanServe :
      (dt : ℤ) (round : Round)
      → VisitLaws (some e) (heart_visit (some e) dt) (CanServe round) (CanServe round) count
  unfolding check_heart
  heart_visit-CanServe dt round = record {
    visits = λ s c (sound, store, take). (
      (not (leb_ℤ heart_dead_time (c.dt_heart +ℤ dt)), s, record c { dt_heart = c.dt_heart +ℤ dt }),
      refl,
      refl,
      (λ h. (
        record {
          number = sound.number;
          open_socket = sound.open_socket;
          inside = sound.inside;
          recv_valid = sound.recv_valid;
          send_valid = sound.send_valid;
        },
        store,
        take,
      )),
      refl,
    );
    leaves = counting.leaves;
  }

  -- The check's walk returns, and a client that is not overdue stays.
  sweep_stays :
      (dt : ℤ) (m : Clients) (s : S)
      → (r : Swept S) × (sweep (some e) (heart_visit (some e) dt) s m ≡ some r)
        × (SomeAlive dt m → 0 < length r.kept)
  unfolding sweep check_heart
  sweep_stays dt [] s =
      (record { state = s; kept = []; shut = []; any = false }, refl, (λ alive. absurd alive))
  sweep_stays dt ((k, c) ∷ m) s =
      let c' : CellClient = record c { dt_heart = c.dt_heart +ℤ dt } in
      elim (Bool-cases (leb_ℤ heart_dead_time (c.dt_heart +ℤ dt))) [
        | inr stays ↦
            let (r, runs, kept) = sweep_stays dt m s in
            (record r { kept = (k, c') ∷ r.kept }, rw stays (rw runs refl), (λ alive. omega arith))
        | inl dead ↦
            let (r, runs, kept) = sweep_stays dt m (notify_leave (some e) s c') in
            (
              record r { shut = destroy c' ++ r.shut; any = true },
              rw dead (rw runs refl),
              (λ alive. kept (elim alive [ inl h ↦ absurd (not_both dead h) | inr h ↦ h ])),
            )
      ]

  sweep-kept :
      (dt : ℤ) (m : Clients) (s : S) (r : Swept S)
      → sweep (some e) (heart_visit (some e) dt) s m ≡ some r
      → SomeAlive dt m
      → 0 < length r.kept
  sweep-kept dt m s r runs alive =
      let (r', runs', kept) = sweep_stays dt m s in
      let same : r' ≡ r = same_some (sym runs' ∙ runs) in
      subst (λ x. 0 < length x.kept) same (kept alive)

  -- A round's heartbeat check and DoNetEvents with select, of a worker that has clients, not all of them
  -- overdue, each with a socket inside the bitmap, valid buffers and possible replies of the kernel,
  -- return, and what is left of the round is DoMsg, or the end of the loop. The sockets are split
  -- between the clients still served and those closed, by the check or after an error, none lost and
  -- none closed twice; the owner's count falls by the number of those closed; and the clients still
  -- served have valid buffers, and stand under their own sockets if they did so before.
  pub serve-Served :
      (bits : FdBits) (fuel : ℕ) (round : Round) (s : S) (p : Sets bits) (srv : CellServer)
      → Each (CanServe round) srv.clients
      → SomeAlive (sub_ℕ round.now srv.old_time) srv.clients
      → (go : Bool) × (s' : S) × (p' : Sets bits) × (srv' : CellServer) × (serve
            (some e)
            (poller bits (some e))
            fuel
            round
            s
            p
            srv
          ≡ (if go
              then (do_msg (some e) fuel s' srv' >>= λ (s'', srv''). some (true, s'', p', srv''))
              else some (false, s', p', srv')))
        × Served count s srv s' srv'
        × Each IsSound srv'.clients
  unfolding serve check_time
  serve-Served bits fuel round s p srv h alive =
      let dt = sub_ℕ round.now srv.old_time in
      let o = sweep-Outcome (some e) (heart_visit-CanServe dt round) srv.clients s h in
      let srv₁ : CellServer = record srv {
        old_time = round.now;
        clients = o.result.kept;
        closed = srv.closed ++ o.result.shut;
        clients_change = srv.clients_change || o.result.any;
      } in
      let (go, s', p', srv', runs, served, sound, goes) =
        do_net_events-Served bits counting round o.result.state p srv₁ o.each
          (λ changed. sweep-kept dt srv.clients s o.result o.runs alive) in
      (
        go,
        s',
        p',
        srv',
        rw o.runs (rw runs refl),
        Served-trans {s₁ = s} {srv₁ = srv} {srv₂ = srv₁}
            (record {
              shut = o.result.shut;
              closes = refl;
              balance = o.balance;
              counted = o.counted;
              keyed = o.keyed;
              well =
                  λ valid. All-map o.result.kept (λ kc (v, can). IsSound-IsWell kc.1 can.0) o.each;
              waiting = refl;
            })
            served,
        sound,
      )
