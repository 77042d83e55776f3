-- ===== src/Server/Select/LastClient.antt =====
-- A round of a worker with select in which the heartbeat check closes the last client.
use cpp_network_obj.Base.{
  ℕ, ◌<◌, ◌≡◌, refl, ap, ◌∙◌, Bool, true, false, Option, none, some, [], ◌∷◌, ◌++◌, ◌||◌, ℤ, sub_ℕ,
  leb_ℤ, ◌+ℤ◌, length, All, arith,
}
use cpp_network_obj.Client.{CellClient, heart_dead_time, check_heart, destroy}
use cpp_network_obj.FdSet.{FdBits}
use cpp_network_obj.NetEvent.{NetEvent}
use cpp_network_obj.Server.{
  CellServer, Clients, Round, Swept, notify_leave, sweep, heart_visit, check_time, serve,
}
use cpp_network_obj.Server.Select.{Sets, poller, do_net_events, read_set}

-- The client's silent time passes the limit in the next check.
abbrev pub IsOverdue : ℤ → CellClient → Type 0
IsOverdue dt c = leb_ℤ heart_dead_time (c.dt_heart +ℤ dt) ≡ true

or_true : (b : Bool) → (b || true) ≡ true
or_true true = refl
or_true false = refl

module _ {S : Type 0} (event : Option (NetEvent S)) where
  sweep-overdue :
      (dt : ℤ) (s : S) (m : Clients)
      → All (λ kc. IsOverdue dt kc.1) m
      → (r : Swept S) × (sweep event (heart_visit event dt) s m ≡ some r)
        × (r.kept ≡ [])
        × (0 < length m → r.any ≡ true)
  unfolding sweep check_heart
  sweep-overdue dt s [] h = (
    record { state = s; kept = []; shut = []; any = false },
    refl,
    refl,
    (λ p. absurd (omega arith)),
  )
  sweep-overdue dt s ((k, c) ∷ m) (dead, h) =
      let (r, e, none_kept, some_gone) =
        sweep-overdue dt (notify_leave event s (record c { dt_heart = c.dt_heart +ℤ dt })) m h in
      (
        record r {
          shut = destroy (record c { dt_heart = c.dt_heart +ℤ dt }) ++ r.shut;
          any = true;
        },
        rw dead (rw e refl),
        none_kept,
        (λ p. refl),
      )

  pub do_net_events-empty :
      (bits : FdBits) (round : Round) (s : S) (p : Sets bits) (srv : CellServer)
      → srv.clients ≡ []
      → srv.clients_change ≡ true
      → do_net_events bits event round s p srv ≡ none
  unfolding do_net_events read_set
  do_net_events-empty bits round s p srv e change = rw change (rw e refl)

  -- With clients that are all overdue, and at least one of them, the rest of the round is undefined:
  -- the heartbeat check closes them all, and DoNetEvents then reads the first of no clients.
  pub serve-overdue :
      (bits : FdBits) (fuel : ℕ) (round : Round) (s : S) (p : Sets bits) (srv : CellServer)
      → All (λ kc. IsOverdue (sub_ℕ round.now srv.old_time) kc.1) srv.clients
      → 0 < length srv.clients
      → serve event (poller bits event) fuel round s p srv ≡ none
  unfolding serve check_time
  serve-overdue bits fuel round s p srv h some_client =
      let dt = sub_ℕ round.now srv.old_time in
      let (r, e, none_kept, gone) = sweep-overdue dt s srv.clients h in
      let change : (srv.clients_change || r.any) ≡ true =
        ap (λ b. srv.clients_change || b) (gone some_client) ∙ or_true srv.clients_change in
      rw e (
        rw
          (do_net_events-empty bits round r.state p
            (record (record srv { old_time = round.now }) {
              clients = r.kept;
              closed = srv.closed ++ r.shut;
              clients_change = srv.clients_change || r.any;
            })
            none_kept change)
          refl)
