-- ===== src/Server/Heart.antt =====
-- The heartbeat check of a worker: who is closed, and what stays.
use mathlib.Core.List.{Perm}
use cpp_network_obj.Base.{
  [], ◌∷◌, ap, sym, subst, ◌∙◌, if◌then◌else◌, Bool-cases, inl, inr, ℕ, ◌≡◌, refl, Bool, true,
  false, not, Option, some, List, ◌++◌, ℤ, pos, negsuc, sub_ℕ, leb_ℤ, ◌+ℤ◌, ◌||◌, length, arith,
}
use cpp_network_obj.Buffer.{Socket}
use cpp_network_obj.Client.{CellClient, check_heart, heart_dead_time, destroy}
use cpp_network_obj.NetEvent.{NetEvent}
use cpp_network_obj.Server.Dispatch.{same_some}
use cpp_network_obj.Server.{
  Swept, sweep, CellServer, Clients, notify_leave, heart_visit, check_time,
}
use cpp_network_obj.Server.Sweep.{sockets, Each, VisitLaws, sweep-Outcome, destroy-valid}

-- The client has been heard of, or was taken in, less than CLIENT_HREAT_DEAD_TIME ago.
abbrev pub IsAlive : CellClient → Type 0
IsAlive c = leb_ℤ heart_dead_time c.dt_heart ≡ false

-- All clients have a socket.
abbrev pub HaveSockets : Clients → Type 0
HaveSockets = Each (λ c. c ≡ c)

-- The clients that a check after `dt` milliseconds keeps, each with its timer advanced.
abbrev pub survivors : ℤ → Clients → Clients
survivors dt [] = []
survivors dt ((k, c) ∷ m) =
    let rest = survivors dt m in
    if leb_ℤ heart_dead_time (c.dt_heart +ℤ dt)
    then rest
    else (k, record c { dt_heart = c.dt_heart +ℤ dt }) ∷ rest

-- The sockets of those whose time in silence reaches the limit with these milliseconds.
abbrev pub silent : ℤ → Clients → List Socket
silent dt [] = []
silent dt ((k, c) ∷ m) =
    let rest = silent dt m in
    if leb_ℤ heart_dead_time (c.dt_heart +ℤ dt) then c.sockfd ∷ rest else rest

-- The result of a check at the time `now`, where the owner counts its clients with `count`.
pub record Checked {S : Type 0} (event : Option (NetEvent S)) (count : S → ℤ) (now : ℕ) (s : S)
    (srv : CellServer) : Type 0 where
  pub state : S
  pub server : CellServer
  pub runs : check_time event now s srv ≡ some (state, server)
  pub keeps : server.clients ≡ survivors (sub_ℕ now srv.old_time) srv.clients
  pub closes : server.closed ≡ srv.closed ++ silent (sub_ℕ now srv.old_time) srv.clients
  pub balance :
      Perm
        (sockets server.clients ++ silent (sub_ℕ now srv.old_time) srv.clients)
        (sockets srv.clients)
  pub alive : Each IsAlive server.clients
  pub counted : count state +ℤ pos (length srv.clients) ≡ count s +ℤ pos (length server.clients)
  pub time : server.old_time ≡ now

module _ {S : Type 0} (event : Option (NetEvent S)) (count : S → ℤ) where
  pub heart_visit-VisitLaws :
      (dt : ℤ)
      → ((s : S) (c : CellClient) → count (notify_leave event s c) ≡ count s +ℤ negsuc 0)
      → VisitLaws event (heart_visit event dt) (λ c. c ≡ c) IsAlive count
  unfolding check_heart
  heart_visit-VisitLaws dt leaves = record {
    visits = λ s c p. (
      (not (leb_ℤ heart_dead_time (c.dt_heart +ℤ dt)), s, record c { dt_heart = c.dt_heart +ℤ dt }),
      refl,
      refl,
      (λ h. not-true _ h),
      refl,
    );
    leaves = leaves;
  }
    where
      not-true : (b : Bool) → not b ≡ true → b ≡ false
      not-true b h = ground arith

  -- A walk of the check, told without the walk.
  sweep-silent :
      (dt : ℤ) (m : Clients) (s : S)
      → HaveSockets m
      → (r : Swept S) × (sweep event (heart_visit event dt) s m ≡ some r)
        × (r.kept ≡ survivors dt m)
        × (r.shut ≡ silent dt m)
  unfolding sweep check_heart
  sweep-silent dt [] s h =
      (record { state = s; kept = []; shut = []; any = false }, refl, refl, refl)
  sweep-silent dt ((k, c) ∷ m) s ((valid, p), h) =
      let c' : CellClient = record c { dt_heart = c.dt_heart +ℤ dt } in
      elim (Bool-cases (leb_ℤ heart_dead_time (c.dt_heart +ℤ dt))) [
        | inl dead ↦
            let (r, runs, keeps, shuts) = sweep-silent dt m (notify_leave event s c') h in
            (
              record r { shut = destroy c' ++ r.shut; any = true },
              rw dead (rw runs refl),
              rw dead keeps,
              rw dead (ap (λ l. l ++ r.shut) (destroy-valid c' valid) ∙ ap (◌∷◌ c.sockfd) shuts),
            )
        | inr alive ↦
            let (r, runs, keeps, shuts) = sweep-silent dt m s h in
            (
              record r { kept = (k, c') ∷ r.kept },
              rw alive (rw runs refl),
              rw alive (ap (◌∷◌ (k, c')) keeps),
              rw alive shuts,
            )
      ]

  -- For clients that all have a socket, and an owner that counts one client less at each OnNetLeave:
  -- CheckTime returns; it advances the timer of every client by the milliseconds since the last check,
  -- closes exactly the clients whose timer has then reached 60 seconds, in their order, and keeps
  -- exactly the others; the sockets are split between those kept and those closed, none lost and none
  -- closed twice; the owner's count falls by the number of clients closed; the time is remembered.
  pub check_time-Checked :
      (now : ℕ) (s : S) (srv : CellServer)
      → ((s : S) (c : CellClient) → count (notify_leave event s c) ≡ count s +ℤ negsuc 0)
      → HaveSockets srv.clients
      → Checked event count now s srv
  unfolding check_time check_heart
  check_time-Checked now s srv leaves sock =
      let dt = sub_ℕ now srv.old_time in
      let o = sweep-Outcome event (heart_visit-VisitLaws dt leaves) srv.clients s sock in
      let (r, runs, keeps, shuts) = sweep-silent dt srv.clients s sock in
      let same : r ≡ o.result = same_some (sym runs ∙ o.runs) in
      let shut : o.result.shut ≡ silent dt srv.clients = sym (ap (λ x. x.shut) same) ∙ shuts in
      record {
        state = o.result.state;
        server = record srv {
          old_time = now;
          clients = o.result.kept;
          closed = srv.closed ++ o.result.shut;
          clients_change = srv.clients_change || o.result.any;
        };
        runs = rw o.runs;
        keeps = sym (ap (λ x. x.kept) same) ∙ keeps;
        closes = ap (◌++◌ srv.closed) shut;
        balance =
            subst (λ l. Perm (sockets o.result.kept ++ l) (sockets srv.clients)) shut o.balance;
        alive = o.each;
        counted = o.counted;
        time = refl;
      }
