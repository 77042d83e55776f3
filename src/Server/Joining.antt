-- ===== src/Server/Joining.antt =====
-- The first part of a worker's round: the clients that wait become clients of the worker.
use mathlib.Core.List.{
  Perm, perm_middle, Nodup, Mem, Nodup-cons, mem-append_left, mem-cons_self, mem-cons_of_mem,
}
use mathlib.Core.List.Perm
use cpp_network_obj.Base.{
  ℕ, suc, ◌≡◌, refl, ap, sym, subst, ◌∙◌, true, Option, some, List, [], ◌∷◌, ◌++◌, ℤ, pos, ◌+ℤ◌,
  int_laws, pos_part, neg_part, All, map, length, append-nil, Bool-cases, inl, inr,
}
use cpp_network_obj.Buffer.{Socket}
use cpp_network_obj.Client.{CellClient}
use cpp_network_obj.NetEvent.{NetEvent}
use cpp_network_obj.Server.{
  CellServer, Clients, Poller, assign, sock_eq, sock_lt, take_in, join_waiting, notify_join,
  is_empty,
}
use cpp_network_obj.Server.Sweep.{sockets, worker_sockets, AreKeyed}
use cpp_network_obj.Server.Served.{IsWell, AreWell}
use cpp_network_obj.Server.Epoll.Keys.{sock_eq_sound}

-- A client under a key that is not there is one more.
record Assigned (k : Socket) (c : CellClient) (m : Clients) : Type 0 where
  balance : Perm (sockets (assign k c m)) (k ∷ sockets m)
  keyed : AreKeyed (assign k c m)
  well : AreWell (assign k c m)
  longer : length (assign k c m) ≡ suc (length m)

assign-Assigned :
    (k : Socket) (c : CellClient) (m : Clients)
    → c.sockfd ≡ k
    → IsWell c
    → ¬ Mem k (sockets m)
    → AreKeyed m
    → AreWell m
    → Assigned k c m
unfolding assign
assign-Assigned k c [] same w fresh own valid = record {
  balance = Perm.cons' same (Perm.refl []);
  keyed = (same, tt);
  well = (w, tt);
  longer = refl;
}
assign-Assigned k c ((j, d) ∷ m) same w fresh (own, owns) (v, vs) =
    elim (Bool-cases (sock_eq j k)) [
      | inl e ↦ absurd (
          fresh
            (subst (λ x. Mem x (d.sockfd ∷ sockets m)) (own ∙ sock_eq_sound j k e) mem-cons_self))
      | inr ne ↦ elim (Bool-cases (sock_lt k j)) [
        | inl less ↦ record {
          balance = rw ne (rw less (Perm.cons' same (Perm.refl (d.sockfd ∷ sockets m))));
          keyed = rw ne (rw less (same, (own, owns)));
          well = rw ne (rw less (w, (v, vs)));
          longer = rw ne (rw less refl);
        }
        | inr more ↦
            let rest =
              assign-Assigned k c m same w (λ mem. fresh (mem-cons_of_mem d.sockfd mem)) owns vs in
            record {
              balance = rw ne (
                  rw more (
                    Perm.trans (Perm.cons d.sockfd rest.balance)
                      (Perm.swap k d.sockfd (sockets m))));
              keyed = rw ne (rw more (own, rest.keyed));
              well = rw ne (rw more (v, rest.well));
              longer = rw ne (rw more (ap suc rest.longer));
            }
      ]
    ]

-- What taking in the clients `cs` does to the sockets and to the owner's count.
pub record Joined {S : Type 0} (count : S → ℤ) (cs : List CellClient) (s : S) (srv : CellServer)
    (state : S) (server : CellServer) : Type 0 where
  pub closes : server.closed ≡ srv.closed
  pub balance : Perm (sockets server.clients) (sockets srv.clients ++ map (λ c. c.sockfd) cs)
  pub keyed : AreKeyed server.clients
  pub well : AreWell server.clients
  pub counted : count state +ℤ pos (length srv.clients) ≡ count s +ℤ pos (length server.clients)

count_joined :
    (a b c : ℤ) (m n k : ℕ)
    → b ≡ a +ℤ pos 1
    → n ≡ suc m
    → c +ℤ pos n ≡ b +ℤ pos k
    → c +ℤ pos m ≡ a +ℤ pos k
count_joined a b c m n k h e r =
    let h' : b ≡ a +ℤ pos 1 = h in
    omega (int_laws, e, ap pos_part h', ap neg_part h', ap pos_part r, ap neg_part r)

pub is_empty-nil :
    {S P : Type 0} (event : Option (NetEvent S)) (poller : Poller S P) {A : Type 0} (xs : List A)
    → is_empty event poller xs ≡ true
    → xs ≡ []
is_empty-nil event poller [] h = refl
is_empty-nil event poller (x ∷ xs) h = cc

module _ {S P : Type 0} (event : Option (NetEvent S)) (poller : Poller S P) {count : S → ℤ}
    (joins : (s : S) (c : CellClient) → count (notify_join event s c) ≡ count s +ℤ pos 1) where
  take_in-Joined :
      (cs : List CellClient) (s : S) (p : P) (srv : CellServer)
      → Nodup (sockets srv.clients ++ map (λ c. c.sockfd) cs)
      → AreKeyed srv.clients
      → AreWell srv.clients
      → All IsWell cs
      → let r = take_in event poller cs s p srv in Joined count cs s srv r.0 r.2
  unfolding take_in
  take_in-Joined [] s p srv apart own valid ws = record {
    closes = refl;
    balance =
        subst (λ l. Perm (sockets srv.clients) l) (sym (append-nil (sockets srv.clients)))
          (Perm.refl (sockets srv.clients));
    keyed = own;
    well = valid;
    counted = refl;
  }
  take_in-Joined (c ∷ cs) s p srv apart own valid (w, ws) =
      let c' : CellClient = record c { server_id = some srv.id } in
      let waiting = map (λ x. x.sockfd) cs in
      let (fresh, apart') =
        Nodup-cons.0 ((Perm.Nodup-iff (perm_middle (sockets srv.clients) waiting)).0 apart) in
      let a =
        assign-Assigned c.sockfd c' srv.clients refl w (λ mem. fresh (mem-append_left waiting mem))
          own valid in
      let srv₁ : CellServer = record srv { clients = assign c.sockfd c' srv.clients } in
      let front = Perm.append_right waiting a.balance in
      let rest =
        take_in-Joined cs (notify_join event s c') (poller.on_client_join p c') srv₁
          ((Perm.Nodup-iff front).1 (Nodup-cons.1 (fresh, apart'))) a.keyed a.well ws in
      record {
        closes = rest.closes;
        balance =
            Perm.trans rest.balance
              (Perm.trans front (Perm.symm (perm_middle (sockets srv.clients) waiting)));
        keyed = rest.keyed;
        well = rest.well;
        counted =
            count_joined (count s) (count (notify_join event s c')) _ (length srv.clients)
              (length srv₁.clients) _ (joins s c') a.longer rest.counted;
      }

  -- The clients that wait are taken in: where all sockets of the worker differ, the clients stand
  -- under their own sockets and all buffers are valid, the clients served afterwards have exactly the
  -- sockets of those served before and those that waited, nobody waits, and the owner counts one
  -- client more for each.
  pub join_waiting-Joined :
      (s : S) (p : P) (srv : CellServer)
      → Nodup (worker_sockets srv)
      → AreKeyed srv.clients
      → AreWell srv.clients
      → All IsWell srv.clients_buff
      → let r = join_waiting event poller s p srv in
        Joined count srv.clients_buff s srv r.0 r.2 × (r.2.clients_buff ≡ [])
  unfolding join_waiting take_in
  join_waiting-Joined s p srv apart own valid ws =
      let j = take_in-Joined srv.clients_buff s p srv apart own valid ws in
      elim (Bool-cases (is_empty event poller srv.clients_buff)) [
        | inl e ↦
            let nobody = is_empty-nil event poller srv.clients_buff e in
            rw e (
              subst (λ cs. Joined count cs s srv s srv) (sym nobody)
                  (take_in-Joined [] s p srv
                    (subst (λ cs. Nodup (sockets srv.clients ++ map (λ c. c.sockfd) cs)) nobody
                      apart)
                    own valid tt),
              nobody,
            )
        | inr e ↦ rw e (
          record {
            closes = j.closes;
            balance = j.balance;
            keyed = j.keyed;
            well = j.well;
            counted = j.counted;
          },
          refl,
        )
      ]
