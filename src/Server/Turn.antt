-- ===== src/Server/Turn.antt =====
-- A whole round of a worker, for any poller that keeps its laws and any owner that keeps its own.
use mathlib.Core.List.{Perm, Nodup, Mem, mem-cons_self, mem-cons_of_mem, mem-append_left}
use mathlib.Core.List.Perm
use cpp_network_obj.Base.{
  ℕ, ◌≡◌, refl, ap, sym, subst, ◌∙◌, Bool, true, false, not, Option, some, List, [], ◌∷◌, ◌++◌, ℤ,
  pos, ◌+ℤ◌, sub_ℕ, All, map, length, append-nil, leb_ℤ, ◌>>=◌, >>=-eq-some, if◌then◌else◌,
  Bool-cases, inl, inr, All-map,
}
use cpp_network_obj.Buffer.{Socket, is_valid}
use cpp_network_obj.Client.{check_heart, heart_dead_time}
use cpp_network_obj.NetEvent.{NetEvent}
use cpp_network_obj.Server.{
  CellServer, Clients, Round, Poller, sweep, swept_into, heart_visit, check_time, do_msg,
  join_waiting, serve, on_run_step, is_empty,
}
use cpp_network_obj.Server.Sweep.{
  sockets, worker_sockets, AreKeyed, Each, VisitLaws, sweep-Outcome, count_twice,
}
use cpp_network_obj.Server.Served.{IsWell, AreWell, Served, Served-same, Served-trans}
use cpp_network_obj.Server.Joining.{Joined, join_waiting-Joined}
use cpp_network_obj.Server.Dispatch.{OwnerLaws, do_msg-Served, same_some}

-- What a worker needs of its poller: which sockets it can wait for, what the kernel may do in a round
-- for the clients, and that DoNetEvents, where it returns, then serves the clients.
pub record PollerLaws {S P : Type 0} (poller : Poller S P) (count : S → ℤ) : Type 1 where
  pub Takes : Socket → Type 0
  pub Takes-is_valid : (k : Socket) → Takes k → is_valid k ≡ true
  pub Fits : Round → CellServer → Type 0
  pub serves :
      (round : Round) (s s' : S) (p p' : P) (srv srv' : CellServer) (go : Bool)
      → poller.do_net_events round s p srv ≡ some (go, s', p', srv')
      → AreKeyed srv.clients
      → AreWell srv.clients
      → ((k : Socket) → Mem k (sockets srv.clients) → Takes k)
      → Fits round srv
      → Served count s srv s' srv'

-- The clients of a worker stand under their own sockets, and all its buffers are valid.
pub record IsInOrder (srv : CellServer) : Type 0 where
  pub keyed : AreKeyed srv.clients
  pub well : AreWell srv.clients
  pub well_waiting : All IsWell srv.clients_buff

-- From before a round to after it: the worker stays in order, its sockets are split between those that
-- it still has and those that it closed, and the owner's count follows the clients that are served.
pub record Turned {S : Type 0} (count : S → ℤ) (s : S) (srv : CellServer) (state : S)
    (server : CellServer) : Type 0 where
  pub shut : List Socket
  pub closes : server.closed ≡ srv.closed ++ shut
  pub balance : Perm (worker_sockets server ++ shut) (worker_sockets srv)
  pub counted : count state +ℤ pos (length srv.clients) ≡ count s +ℤ pos (length server.clients)
  pub ordered : IsInOrder server

-- The clients that a walk is given: each has a socket, and valid buffers.
Each-IsWell :
    (m : Clients)
    → ((k : Socket) → Mem k (sockets m) → is_valid k ≡ true)
    → AreWell m
    → Each IsWell m
Each-IsWell [] valid w = tt
Each-IsWell ((k, c) ∷ m) valid (w, ws) = (
  (valid c.sockfd mem-cons_self, w),
  Each-IsWell m (λ j mem. valid j (mem-cons_of_mem c.sockfd mem)) ws,
)

heart_visit-IsWell :
    {S : Type 0} {e : NetEvent S} {count : S → ℤ}
    → OwnerLaws e count
    → (dt : ℤ) → VisitLaws (some e) (heart_visit (some e) dt) IsWell IsWell count
unfolding check_heart
heart_visit-IsWell owner dt = record {
  visits = λ s c w. (
    (not (leb_ℤ heart_dead_time (c.dt_heart +ℤ dt)), s, record c { dt_heart = c.dt_heart +ℤ dt }),
    refl,
    refl,
    (λ h. w),
    refl,
  );
  leaves = owner.counting.leaves;
}

module _ {S P : Type 0} {e : NetEvent S} {poller : Poller S P} {count : S → ℤ}
    (owner : OwnerLaws e count) (laws : PollerLaws poller count) where
  check_time-Served :
      (now : ℕ) (s s' : S) (srv srv' : CellServer)
      → check_time (some e) now s srv ≡ some (s', srv')
      → ((k : Socket) → Mem k (sockets srv.clients) → is_valid k ≡ true)
      → AreWell srv.clients
      → Served count s srv s' srv'
  unfolding check_time
  check_time-Served now s s' srv srv' h valid w =
      let dt = sub_ℕ now srv.old_time in
      let o =
        sweep-Outcome (some e) (heart_visit-IsWell owner dt) srv.clients s
          (Each-IsWell srv.clients valid w) in
      let (r, walked, h₁) =
        >>=-eq-some (sweep (some e) (heart_visit (some e) dt) s srv.clients)
          (λ r. some (swept_into (some e) (record srv { old_time = now }) r)) h in
      let same : some o.result ≡ some r = sym o.runs ∙ walked in
      subst (λ x. Served count s srv x.0 x.1)
        (ap (swept_into (some e) (record srv { old_time = now })) (same_some same) ∙ same_some h₁)
        (record {
          shut = o.result.shut;
          closes = refl;
          balance = o.balance;
          counted = o.counted;
          keyed = o.keyed;
          well = λ ws. All-map o.result.kept (λ kc p. p.1) o.each;
          waiting = refl;
        })

  -- After DoNetEvents: the messages, or the end of the loop.
  abbrev ended : P → S → CellServer → Option (Bool × S × P × CellServer)
  ended p s srv = some (true, s, p, srv)

  abbrev left : ℕ → Bool → S → P → CellServer → Option (Bool × S × P × CellServer)
  left fuel go s p srv =
      if go then (do_msg (some e) fuel s srv >>= λ r. ended p r.0 r.1) else some (false, s, p, srv)

  left-Served :
      (fuel : ℕ) (go go' : Bool) (s s' : S) (p p' : P) (srv srv' : CellServer)
      → left fuel go s p srv ≡ some (go', s', p', srv')
      → Served count s srv s' srv'
  left-Served fuel true go' s s' p p' srv srv' h =
      let ((s₃, srv₃), sorted, h₁) =
        >>=-eq-some (do_msg (some e) fuel s srv) (λ r. ended p r.0 r.1) h in
      subst (λ r. Served count s srv r.1 r.3) (same_some h₁)
        (do_msg-Served owner fuel s s₃ srv srv₃ sorted)
  left-Served fuel false go' s s' p p' srv srv' h =
      subst (λ r. Served count s srv r.1 r.3) (same_some h) (Served-same s srv srv refl refl refl)

  -- What the kernel does in a round is possible for the clients that the heartbeat check leaves.
  abbrev pub IsPossible : Round → S → P → CellServer → Type 0
  IsPossible round s p srv =
      let (s₀, p₀, srv₀) = join_waiting (some e) poller s p srv in
      (s₁ : S) (srv₁ : CellServer)
      → check_time (some e) round.now s₀ srv₀ ≡ some (s₁, srv₁)
      → laws.Fits round srv₁

  -- The rest of a round, after the clients that wait were taken in.
  rest-Served :
      (fuel : ℕ) (round : Round) (s s' : S) (p p' : P) (srv srv' : CellServer) (go : Bool)
      → serve (some e) poller fuel round s p srv ≡ some (go, s', p', srv')
      → AreKeyed srv.clients
      → AreWell srv.clients
      → ((k : Socket) → Mem k (sockets srv.clients) → laws.Takes k)
      → ((s₁ : S) (srv₁ : CellServer)
          → check_time (some e) round.now s srv ≡ some (s₁, srv₁)
          → laws.Fits round srv₁)
      → Served count s srv s' srv'
  unfolding serve
  rest-Served fuel round s s' p p' srv srv' go h own w takes fits =
      let ((s₁, srv₁), checked, h₁) =
        >>=-eq-some (check_time (some e) round.now s srv)
          (λ (s₁, srv₁).
            poller.do_net_events round s₁ p srv₁ >>= λ (go, s₂, p₂, srv₂). left fuel go s₂ p₂ srv₂)
          h in
      let ((go₂, s₂, p₂, srv₂), done, h₂) =
        >>=-eq-some (poller.do_net_events round s₁ p srv₁)
          (λ (go, s₂, p₂, srv₂). left fuel go s₂ p₂ srv₂) h₁ in
      let a =
        check_time-Served round.now s s₁ srv srv₁ checked
          (λ k mem. laws.Takes-is_valid k (takes k mem)) w in
      let b =
        laws.serves round s₁ s₂ p p₂ srv₁ srv₂ go₂ done (a.keyed own) (a.well w)
          (λ k mem. takes k ((Perm.mem_iff a.balance).0 (mem-append_left a.shut mem)))
          (fits s₁ srv₁ checked) in
      Served-trans a (Served-trans b (left-Served fuel go₂ go s₂ s' p₂ p' srv₂ srv' h₂))

  Joined-Turned :
      {s s₀ s' : S} {srv srv₀ srv' : CellServer}
      → Joined count srv.clients_buff s srv s₀ srv₀
      → srv₀.clients_buff ≡ []
      → Served count s₀ srv₀ s' srv'
      → Turned count s srv s' srv'
  Joined-Turned {s} {s₀} {s'} {srv} {srv₀} {srv'} j empty a = record {
    shut = a.shut;
    closes = a.closes ∙ ap (λ l. l ++ a.shut) j.closes;
    balance =
        subst
          (λ cs.
            Perm ((sockets srv'.clients ++ map (λ c. c.sockfd) cs) ++ a.shut) (worker_sockets srv))
          (sym (a.waiting ∙ empty))
          (subst (λ l. Perm (l ++ a.shut) (worker_sockets srv))
            (sym (append-nil (sockets srv'.clients))) (Perm.trans a.balance j.balance));
    counted =
        count_twice (count s) (count s₀) (count s') (length srv.clients) (length srv₀.clients)
          (length srv'.clients) j.counted a.counted;
    ordered = record {
      keyed = a.keyed j.keyed;
      well = a.well j.well;
      well_waiting = subst (All IsWell) (sym (a.waiting ∙ empty)) tt;
    };
  }

  -- Let a worker be in order, let all its sockets differ and be such as its poller can wait for, and let
  -- the kernel do what is possible. Then a round that returns leaves the worker in order; its sockets,
  -- of the clients that it served and of those that waited, are split between those that it still has
  -- and those that it closed, empty lost and empty closed twice; and the owner's count has changed by as
  -- much as the number of clients that it serves.
  pub on_run_step-Turned :
      (fuel : ℕ) (round : Round) (s s' : S) (p p' : P) (srv srv' : CellServer) (go : Bool)
      → IsInOrder srv
      → Nodup (worker_sockets srv)
      → ((k : Socket) → Mem k (worker_sockets srv) → laws.Takes k)
      → IsPossible round s p srv
      → on_run_step (some e) poller fuel round s p srv ≡ some (go, s', p', srv')
      → Turned count s srv s' srv'
  unfolding on_run_step
  on_run_step-Turned fuel round s s' p p' srv srv' go ok apart takes fits h =
      let (s₀, p₀, srv₀) = join_waiting (some e) poller s p srv in
      let (j, empty) =
        join_waiting-Joined (some e) poller owner.joins s p srv apart ok.keyed ok.well
          ok.well_waiting in
      elim (Bool-cases (is_empty (some e) poller srv₀.clients)) [
        | inl idle ↦
            let h' : some (true, s₀, p₀, record srv₀ { old_time = round.now })
                ≡ some (go, s', p', srv') =
              sym (rw idle refl) ∙ h in
            Joined-Turned j empty (
              subst (λ r. Served count s₀ srv₀ r.1 r.3) (same_some h')
                (Served-same s₀ srv₀ (record srv₀ { old_time = round.now }) refl refl refl))
        | inr busy ↦
            let h' : serve (some e) poller fuel round s₀ p₀ srv₀ ≡ some (go, s', p', srv') =
              sym (rw busy refl) ∙ h in
            Joined-Turned j empty (
              rest-Served fuel round s₀ s' p₀ p' srv₀ srv' go h' j.keyed j.well
                (λ k mem. takes k ((Perm.mem_iff j.balance).0 mem)) fits)
      ]
