-- ===== src/TcpServer/Lifetime.antt =====
-- The workers of a server from its start: clients are handed to them, and they run their rounds, in
-- any order. A round is taken as one step; the counters that the workers share are atomic.
use mathlib.Core.List.{
  Perm, Nodup, Nodup-nil, Nodup-cons, Nodup-append, Mem, mem-append_left, mem-append_right,
  not-mem-nil, eq-or-mem_of_mem-cons, Mem-prop,
}
use mathlib.Core.List.Perm
use mathlib.Core.Logic.Or
use cpp_network_obj.Base.{
  ℕ, ◌+◌, ◌≡◌, refl, ap, ap₂, sym, subst, ◌∙◌, Bool, true, false, some, List, [], ◌∷◌, ◌++◌, ℤ, pos,
  ◌+ℤ◌, int_laws, pos_part, neg_part, All, map, length, All-map, arith, Bool-cases, inl, inr,
}
use cpp_network_obj.Buffer.{Socket, invalid_socket, fd, is_valid}
use cpp_network_obj.Client.{CellClient}
use cpp_network_obj.NetEvent.{NetEvent}
use cpp_network_obj.Server.{
  CellServer, Round, Poller, sock_eq, add_client, on_run_step, clear_clients,
}
use cpp_network_obj.Server.Sweep.{sockets, worker_sockets, AreKeyed}
use cpp_network_obj.Server.Served.{IsWell, AreWell}
use cpp_network_obj.Server.Epoll.Keys.{sock_eq_sound}
use cpp_network_obj.Server.Dispatch.{OwnerLaws}
use cpp_network_obj.Server.Turn.{PollerLaws, IsInOrder, IsPossible, Turned, on_run_step-Turned}
use cpp_network_obj.TcpServer.Gather.{
  Workers, owned, gather, served, accepted_open, accepted_owned, turned-open, turned-owned,
  gather-front, served-front, All-replace, All-at,
}
use cpp_network_obj.TcpServer.Closing.{valid-Connected, clear-closed}

count_turned :
    (a b : ℤ) (m n rest before behind : ℕ)
    → before ≡ m + rest
    → behind ≡ n + rest
    → a ≡ pos before
    → b +ℤ pos m ≡ a +ℤ pos n
    → b ≡ pos behind
count_turned a b m n rest before behind e f h t =
    omega (int_laws, e, f, ap pos_part h, ap neg_part h, ap pos_part t, ap neg_part t)

sock_eq_refl : (k : Socket) → sock_eq k k ≡ true
sock_eq_refl invalid_socket = refl
sock_eq_refl (fd n) = ground arith

other_Mem : (j k : Socket) (l : List Socket) → sock_eq k j ≡ false → Mem j (k ∷ l) → Mem j l
other_Mem j k l other mem =
    Or.elim (Mem-prop {a = j} {l = l}) (eq-or-mem_of_mem-cons mem)
      (λ e. absurd (differ (sym (sock_eq_refl j) ∙ ap (λ x. sock_eq x j) e ∙ other))) (λ m. m)
  where
    differ : true ≡ false → ⊥
    differ h = cc

All-append_one :
    (cs : List CellClient) (c : CellClient) → All IsWell cs → IsWell c → All IsWell (cs ++ c ∷ [])
All-append_one [] c h w = (w, tt)
All-append_one (x ∷ cs) c (v, h) w = (v, All-append_one cs c h w)

-- A worker that has not run yet.
abbrev pub IsNew : CellServer → Type 0
IsNew srv = (srv.clients ≡ []) × (srv.clients_buff ≡ []) × (srv.closed ≡ [])

module _ {S P : Type 0} {e : NetEvent S} {poller : Poller S P} {count : S → ℤ}
    (owner : OwnerLaws e count) (laws : PollerLaws poller count) where
  -- The workers and the owner's state that can be reached, with the sockets given to the workers so
  -- far. A new socket differs from those that are open; the kernel does what is possible.
  pub data Reach : List Socket → S → Workers P → Type 0 where
    started : (s : S) (ws : Workers P) → count s ≡ pos 0 → All (λ w. IsNew w.1) ws → Reach [] s ws
    accepted :
        {given : List Socket} {s : S} (before behind : Workers P) (p : P) (srv : CellServer)
        (c : CellClient)
        → Reach given s (before ++ ((p, srv) ∷ behind))
        → IsWell c
        → laws.Takes c.sockfd
        → ¬ Mem c.sockfd (gather worker_sockets (before ++ ((p, srv) ∷ behind)))
        → Reach (c.sockfd ∷ given) s (before ++ ((p, add_client srv c) ∷ behind))
    turned :
        {given : List Socket} {s s' : S} (before behind : Workers P) (p p' : P)
        (srv srv' : CellServer) (fuel : ℕ) (round : Round) (go : Bool)
        → Reach given s (before ++ ((p, srv) ∷ behind))
        → IsPossible owner laws round s p srv
        → on_run_step (some e) poller fuel round s p srv ≡ some (go, s', p', srv')
        → Reach given s' (before ++ ((p', srv') ∷ behind))

  -- What holds of the workers at any time.
  pub record Kept (given : List Socket) (s : S) (ws : Workers P) : Type 0 where
    pub balance : Perm (gather owned ws) given
    pub distinct : Nodup (gather worker_sockets ws)
    pub takes : (k : Socket) → Mem k (gather worker_sockets ws) → laws.Takes k
    pub ordered : All (λ w. IsInOrder w.1) ws
    pub counted : count s ≡ pos (served ws)

  Kept-Turned :
      {given : List Socket} {s s' : S} (before behind : Workers P) (p p' : P)
      (srv srv' : CellServer)
      → Kept given s (before ++ ((p, srv) ∷ behind))
      → Turned count s srv s' srv'
      → Kept given s' (before ++ ((p', srv') ∷ behind))
  Kept-Turned {s = s} {s' = s'} before behind p p' srv srv' k t =
      let opened = turned-open before behind p p' t in
      record {
        balance = Perm.trans (gather-front owned before behind (p', srv')) (
            Perm.trans (Perm.append_right (gather owned (before ++ behind)) (turned-owned t))
              (Perm.trans (Perm.symm (gather-front owned before behind (p, srv))) k.balance));
        distinct = (Nodup-append.0 ((Perm.Nodup-iff opened).0 k.distinct)).1;
        takes = λ j mem. k.takes j ((Perm.mem_iff opened).1 (mem-append_right t.shut mem));
        ordered = All-replace _ before behind (p, srv) (p', srv') k.ordered t.ordered;
        counted =
            count_turned (count s) (count s') (length srv.clients) (length srv'.clients)
              (served (before ++ behind)) _ _ (served-front before behind (p, srv))
              (served-front before behind (p', srv')) k.counted t.counted;
      }

  -- A client that is handed to a worker.
  Kept-accepted :
      {given : List Socket} {s : S} (before behind : Workers P) (p : P) (srv : CellServer)
      (c : CellClient)
      → Kept given s (before ++ ((p, srv) ∷ behind))
      → IsWell c
      → laws.Takes c.sockfd
      → ¬ Mem c.sockfd (gather worker_sockets (before ++ ((p, srv) ∷ behind)))
      → Kept (c.sockfd ∷ given) s (before ++ ((p, add_client srv c) ∷ behind))
  unfolding add_client
  Kept-accepted {given} {s} before behind p srv c k w takes fresh =
      let opened = accepted_open before behind p srv c in
      record {
        balance = Perm.trans (accepted_owned before behind p srv c) (Perm.cons c.sockfd k.balance);
        distinct = (Perm.Nodup-iff opened).1 (Nodup-cons.1 (fresh, k.distinct));
        takes = λ j mem. elim (Bool-cases (sock_eq c.sockfd j)) [
          | inl same ↦ subst laws.Takes (sock_eq_sound c.sockfd j same) takes
          | inr other ↦ k.takes j (other_Mem j c.sockfd _ other ((Perm.mem_iff opened).0 mem))
        ];
        ordered =
            let o = All-at _ before behind (p, srv) k.ordered in
            All-replace _ before behind (p, srv) (p, add_client srv c) k.ordered
              (record {
                keyed = o.keyed;
                well = o.well;
                well_waiting = All-append_one srv.clients_buff c o.well_waiting w;
              });
        counted =
            k.counted
            ∙ ap pos (
                served-front before behind (p, srv)
                ∙ sym (served-front before behind (p, add_client srv c)));
      }

  new-gather :
      (f : CellServer → List Socket) (ws : Workers P)
      → ((srv : CellServer) → IsNew srv → f srv ≡ [])
      → All (λ w. IsNew w.1) ws
      → gather f ws ≡ []
  new-gather f [] h new = refl
  new-gather f ((p, srv) ∷ ws) h (n, new) = ap₂ (λ a b. a ++ b) (h srv n) (new-gather f ws h new)

  new-served : (ws : Workers P) → All (λ w. IsNew w.1) ws → served ws ≡ 0
  new-served [] new = refl
  new-served ((p, srv) ∷ ws) ((idle, nobody, unused), new) =
      ap₂ (λ m k. length m + k) idle (new-served ws new)

  new-sockets : (srv : CellServer) → IsNew srv → worker_sockets srv ≡ []
  new-sockets srv (idle, nobody, unused) =
      ap₂ (λ m cs. sockets m ++ map (λ c. c.sockfd) cs) idle nobody

  new-owned : (srv : CellServer) → IsNew srv → owned srv ≡ []
  new-owned srv (idle, nobody, unused) =
      ap₂ (λ a b. a ++ b) unused (new-sockets srv (idle, nobody, unused))

  new-IsInOrder : (srv : CellServer) → IsNew srv → IsInOrder srv
  new-IsInOrder srv (idle, nobody, unused) = record {
    keyed = subst AreKeyed (sym idle) tt;
    well = subst AreWell (sym idle) tt;
    well_waiting = subst (All IsWell) (sym nobody) tt;
  }

  Kept-started : (s : S) (ws : Workers P) → count s ≡ pos 0 → All (λ w. IsNew w.1) ws → Kept [] s ws
  Kept-started s ws none_yet new =
      let nothing = new-gather worker_sockets ws new-sockets new in
      record {
        balance = subst (λ l. Perm l []) (sym (new-gather owned ws new-owned new)) (Perm.refl []);
        distinct = subst Nodup (sym nothing) Nodup-nil;
        takes = λ k mem. absurd (not-mem-nil (subst (Mem k) nothing mem));
        ordered = All-map ws (λ w. new-IsInOrder w.1) new;
        counted = none_yet ∙ ap pos (sym (new-served ws new));
      }

  reach-Kept : {given : List Socket} {s : S} {ws : Workers P} → Reach given s ws → Kept given s ws
  reach-Kept (Reach.started s ws none_yet new) = Kept-started s ws none_yet new
  reach-Kept (Reach.accepted before behind p srv c r w takes fresh) =
      Kept-accepted before behind p srv c (reach-Kept r) w takes fresh
  reach-Kept
        (Reach.turned {s = s} {s' = s'} before behind p p' srv srv' fuel round go r possible runs) =
      let k = reach-Kept r in
      let opened = gather-front worker_sockets before behind (p, srv) in
      Kept-Turned before behind p p' srv srv' k (
        on_run_step-Turned owner laws fuel round s s' p p' srv srv' go
          (All-at _ before behind (p, srv) k.ordered)
          (Nodup-append.0 ((Perm.Nodup-iff opened).0 k.distinct)).0
          (λ j mem. k.takes j ((Perm.mem_iff opened).1 (mem-append_left _ mem))) possible runs)

  cleared :
      (ws : Workers P)
      → ((k : Socket) → Mem k (gather worker_sockets ws) → is_valid k ≡ true)
      → gather (λ srv. (clear_clients srv).closed) ws ≡ gather owned ws
  cleared [] valid = refl
  cleared ((p, srv) ∷ ws) valid =
      ap₂ (λ a b. a ++ b)
        (clear-closed srv (valid-Connected srv (λ k mem. valid k (mem-append_left _ mem))))
        (cleared ws (λ k mem. valid k (mem-append_right (worker_sockets srv) mem)))

  -- Let the workers' poller and owner keep their laws, and let the workers start without clients and
  -- the owner's count at 0. In every state reached from there, in which clients with valid buffers and
  -- with sockets that are not open were handed to workers, and workers ran rounds that returned, in any
  -- order, with replies of the kernel that are possible: the sockets given to the workers are exactly
  -- those that a worker has closed, serves or has waiting, none lost and none closed twice; no two open
  -- ones are the same; each client stands under its own socket in the map, with valid buffers; and the
  -- owner's count is the number of clients that the workers serve. Should all workers then clear their
  -- clients, every socket given to them is closed once.
  pub workers-Kept :
      {given : List Socket} {s : S} {ws : Workers P}
      → Reach given s ws
      → Kept given s ws × Perm (gather (λ srv. (clear_clients srv).closed) ws) given
  workers-Kept {given} {s} {ws} r =
      let k = reach-Kept r in
      (
        k,
        subst (λ l. Perm l given)
            (sym (cleared ws (λ j mem. laws.Takes-is_valid j (k.takes j mem)))) k.balance,
      )
