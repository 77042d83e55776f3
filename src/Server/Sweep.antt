-- ===== src/Server/Sweep.antt =====
-- The walk over the clients that erases some of them: what happens to the sockets.
use mathlib.Core.List.{Perm, perm_middle, perm_append_comm}
use mathlib.Core.List.Perm
use cpp_network_obj.Base.{
  append_assoc, ℕ, suc, ◌≡◌, refl, ap, sym, subst, ◌∙◌, Bool, true, false, Option, some, List, [],
  ◌∷◌, ◌++◌, ℤ, pos, ◌+ℤ◌, negsuc, int_laws, pos_part, neg_part, All, map, length,
}
use cpp_network_obj.Buffer.{Socket, is_valid}
use cpp_network_obj.Client.{CellClient, destroy}
use cpp_network_obj.NetEvent.{NetEvent}
use cpp_network_obj.Server.{CellServer, Clients, Swept, sweep, notify_leave}

abbrev pub sockets : Clients → List Socket
sockets = map (λ kc. kc.1.sockfd)

-- The sockets of the clients that a worker serves, and of those that wait for it.
abbrev pub worker_sockets : CellServer → List Socket
worker_sockets srv = sockets srv.clients ++ map (λ c. c.sockfd) srv.clients_buff

-- Every client stands under its own socket.
abbrev pub AreKeyed : Clients → Type 0
AreKeyed = All (λ kc. kc.1.sockfd ≡ kc.0)

-- All clients have a socket and the property.
abbrev pub Each : (CellClient → Type 0) → Clients → Type 0
Each P = All (λ kc. (is_valid kc.1.sockfd ≡ true) × P kc.1)

pub destroy-valid : (c : CellClient) → is_valid c.sockfd ≡ true → destroy c ≡ c.sockfd ∷ []
unfolding destroy
destroy-valid c h = rw h

count_kept :
    (a s s' : ℤ) (m k : ℕ) → a +ℤ pos m ≡ s' +ℤ pos k → s' ≡ s → a +ℤ pos (suc m) ≡ s +ℤ pos (suc k)
count_kept a s s' m k h e =
    let h' : a +ℤ pos m ≡ s +ℤ pos k = h ∙ ap (λ x. x +ℤ pos k) e in
    omega (int_laws, ap pos_part h', ap neg_part h')

pub count_gone :
    (a s s' t : ℤ) (m k : ℕ)
    → a +ℤ pos m ≡ t +ℤ pos k
    → t ≡ s' +ℤ negsuc 0
    → s' ≡ s
    → a +ℤ pos (suc m) ≡ s +ℤ pos k
count_gone a s s' t m k h e e' =
    let h' : a +ℤ pos m ≡ s +ℤ negsuc 0 +ℤ pos k =
      h ∙ ap (λ x. x +ℤ pos k) (e ∙ ap (λ x. x +ℤ negsuc 0) e') in
    omega (int_laws, ap pos_part h', ap neg_part h')

-- Two walks one after the other.
pub Perm-twice :
    (first second shut₁ shut₂ all : List Socket)
    → Perm (first ++ shut₁) all
    → Perm (second ++ shut₂) first
    → Perm (second ++ (shut₁ ++ shut₂)) all
Perm-twice first second shut₁ shut₂ all p q =
    Perm.trans (Perm.append_left second (perm_append_comm shut₁ shut₂)) (
      subst (λ l. Perm l all) (append_assoc second shut₂ shut₁)
        (Perm.trans (Perm.append_right shut₁ q) p))

pub count_twice :
    (a b c : ℤ) (all first second : ℕ)
    → b +ℤ pos all ≡ a +ℤ pos first
    → c +ℤ pos first ≡ b +ℤ pos second
    → c +ℤ pos all ≡ a +ℤ pos second
count_twice a b c all first second h k =
    omega (int_laws, ap pos_part h, ap neg_part h, ap pos_part k, ap neg_part k)

module _ {S : Type 0} (event : Option (NetEvent S)) where
  -- What a walk needs of a visit: on clients with `P` it returns, keeps the socket, leads to `Q`
  -- if the client stays, and leaves the owner's count of clients alone.
  pub record VisitLaws (visit : S → CellClient → Option (Bool × S × CellClient))
      (P Q : CellClient → Type 0) (count : S → ℤ) : Type 0 where
    pub visits :
        (s : S) (c : CellClient)
        → P c
        → (r : Bool × S × CellClient) × (visit s c ≡ some r)
          × (r.2.sockfd ≡ c.sockfd)
          × (r.0 ≡ true → Q r.2)
          × (count r.1 ≡ count s)
    pub leaves : (s : S) (c : CellClient) → count (notify_leave event s c) ≡ count s +ℤ negsuc 0

  -- The outcome of a walk.
  pub record Outcome (visit : S → CellClient → Option (Bool × S × CellClient))
      (Q : CellClient → Type 0) (count : S → ℤ) (s : S) (m : Clients) : Type 0 where
    pub result : Swept S
    pub runs : sweep event visit s m ≡ some result
    pub balance : Perm (sockets result.kept ++ result.shut) (sockets m)
    pub each : Each Q result.kept
    pub keyed : AreKeyed m → AreKeyed result.kept
    pub counted : count result.state +ℤ pos (length m) ≡ count s +ℤ pos (length result.kept)

  -- One visit and the rest of the walk.
  cons-Outcome :
      {visit : S → CellClient → Option (Bool × S × CellClient)} {P Q : CellClient → Type 0}
      {count : S → ℤ}
      → VisitLaws visit P Q count
      → (k : Socket) (c : CellClient) (m : Clients) (s : S) → is_valid c.sockfd ≡ true
      → (stays : Bool) (s' : S) (c' : CellClient) → visit s c ≡ some (stays, s', c')
      → c'.sockfd ≡ c.sockfd
      → (stays ≡ true → Q c')
      → count s' ≡ count s
      → ((t : S) → Outcome visit Q count t m)
      → Outcome visit Q count s ((k, c) ∷ m)
  unfolding sweep
  cons-Outcome {count = count} laws k c m s valid true s' c' e same q kept rest =
      let o = rest s' in
      record {
        result = record o.result { kept = (k, c') ∷ o.result.kept };
        runs = rw e (rw o.runs);
        balance = Perm.cons' same o.balance;
        each = ((rw same valid, q refl), o.each);
        keyed = λ (own, rest_own). (same ∙ own, o.keyed rest_own);
        counted =
            count_kept (count o.result.state) (count s) (count s') (length m) (length o.result.kept)
              o.counted kept;
      }
  cons-Outcome {count = count} laws k c m s valid false s' c' e same q kept rest =
      let o = rest (notify_leave event s' c') in
      record {
        result = record o.result { shut = destroy c' ++ o.result.shut; any = true };
        runs = rw e (rw o.runs);
        balance =
            subst (λ l. Perm (sockets o.result.kept ++ (l ++ o.result.shut)) (c.sockfd ∷ sockets m))
              (sym (destroy-valid c' (rw same valid)))
              (Perm.trans (perm_middle (sockets o.result.kept) o.result.shut)
                (Perm.cons' same o.balance));
        each = o.each;
        keyed = λ (own, rest_own). o.keyed rest_own;
        counted =
            count_gone (count o.result.state) (count s) (count s')
              (count (notify_leave event s' c')) (length m) (length o.result.kept) o.counted
              (laws.leaves s' c') kept;
      }

  -- A walk over clients that all have a socket and `P`, with a visit that keeps the laws, returns. The
  -- sockets are split between the clients that stay and the sockets closed, none lost and none closed
  -- twice; every client that stays has `Q`; and the owner counts one client less for each that went.
  pub sweep-Outcome :
      {visit : S → CellClient → Option (Bool × S × CellClient)} {P Q : CellClient → Type 0}
      {count : S → ℤ}
      → VisitLaws visit P Q count
      → (m : Clients) (s : S) → Each P m
      → Outcome visit Q count s m
  unfolding sweep
  sweep-Outcome laws [] s h = record {
    result = record { state = s; kept = []; shut = []; any = false };
    runs = refl;
    balance = Perm.refl [];
    each = tt;
    keyed = λ own. own;
    counted = refl;
  }
  sweep-Outcome laws ((k, c) ∷ m) s ((valid, p), h) =
      let ((stays, s', c'), e, same, q, kept_count) = laws.visits s c p in
      cons-Outcome laws k c m s valid stays s' c' e same q kept_count
        (λ t. sweep-Outcome laws m t h)
