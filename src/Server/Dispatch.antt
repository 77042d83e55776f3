-- ===== src/Server/Dispatch.antt =====
-- The last part of a worker's round: DoMsg leaves the sockets, the buffers' validity and the owner's
-- count of clients alone.
use mathlib.Core.List.{Perm}
use mathlib.Core.List.Perm
use cpp_network_obj.Base.{
  ℕ, zero, suc, ◌≡◌, refl, ap, ap₂, sym, subst, ◌∙◌, true, false, some, List, [], ◌∷◌, ℤ, pos, ◌+ℤ◌,
  length, append-nil, ◌>>=◌, >>=-eq-some, Bool-cases, inl, inr,
}
use cpp_network_obj.Message.{data_length}
use cpp_network_obj.Buffer.Invariant.{IsValid, pop-IsValid}
use cpp_network_obj.Client.{CellClient, has_msg, front_msg, pop_front_msg}
use cpp_network_obj.Buffer.{pop}
use cpp_network_obj.Client.Drain.{Handler, drain}
use cpp_network_obj.Client.Drain.Messages.{drain_stop}
use cpp_network_obj.NetEvent.{NetEvent}
use cpp_network_obj.Server.{CellServer, Clients, on_net_msg, do_msg_clients, do_msg}
use cpp_network_obj.Server.Sweep.{sockets, AreKeyed}
use cpp_network_obj.Server.Served.{IsWell, AreWell, Served}
use cpp_network_obj.Server.Select.Events.{Counting}

pub same_some : {A : Type 0} {a b : A} → some a ≡ some b → a ≡ b
same_some h = cc

-- From a client to itself later: the same socket, and valid buffers if they were.
record Stays (c c' : CellClient) : Type 0 where
  socket : c'.sockfd ≡ c.sockfd
  well : IsWell c → IsWell c'

Stays-refl : (c : CellClient) → Stays c c
Stays-refl c = record { socket = refl; well = λ w. w }

Stays-trans : {a b c : CellClient} → Stays a b → Stays b c → Stays a c
Stays-trans p q = record { socket = q.socket ∙ p.socket; well = λ w. q.well (p.well w) }

pop_front_msg_go :
    (c : CellClient)
    → has_msg c ≡ true
    → pop_front_msg c
      ≡ (pop c.recv_buff (data_length (front_msg c)) >>= λ b. some (record c { recv_buff = b }))
unfolding pop_front_msg
pop_front_msg_go c h = rw h refl

pop_front_msg_stop : (c : CellClient) → has_msg c ≡ false → pop_front_msg c ≡ some c
unfolding pop_front_msg
pop_front_msg_stop c h = rw h refl

pop_front_msg-Stays : (c c' : CellClient) → pop_front_msg c ≡ some c' → Stays c c'
pop_front_msg-Stays c c' h = elim (Bool-cases (has_msg c)) [
  | inr stop ↦ subst (Stays c) (same_some (sym (pop_front_msg_stop c stop) ∙ h)) (Stays-refl c)
  | inl go ↦
      let (b, popped, ends) =
        >>=-eq-some (pop c.recv_buff (data_length (front_msg c)))
          (λ b. some (record c { recv_buff = b })) (sym (pop_front_msg_go c go) ∙ h) in
      subst (Stays c) (same_some ends) (record {
        socket = refl;
        well = λ (r, w). (pop-IsValid {b = c.recv_buff} (data_length (front_msg c)) r popped, w);
      })
]

drain_go :
    {S : Type 0} (handle : Handler S) (fuel : ℕ) (s : S) (c : CellClient)
    → has_msg c ≡ true
    → drain handle (suc fuel) s c ≡ (
        handle s c (front_msg c) >>= λ (s', c').
        pop_front_msg c' >>= λ c''. drain handle fuel s' c'')
unfolding drain
drain_go handle fuel s c h = rw (h, drain)

-- An owner whose callbacks count the clients, and whose OnNetMsg changes neither the socket of a
-- client nor its receive buffer nor the count, and keeps its send buffer valid.
pub record OwnerLaws {S : Type 0} (e : NetEvent S) (count : S → ℤ) : Type 0 where
  pub counting : Counting e count
  pub joins : (s : S) (c : CellClient) → count (e.on_net_join s c) ≡ count s +ℤ pos 1
  pub answers :
      (s s' : S) (c c' : CellClient) (mem : List ℕ)
      → e.on_net_msg s c mem ≡ some (s', c')
      → (c'.sockfd ≡ c.sockfd)
        × (c'.recv_buff ≡ c.recv_buff)
        × (IsValid c.send_buff → IsValid c'.send_buff)
        × (count s' ≡ count s)

module _ {S : Type 0} {e : NetEvent S} {count : S → ℤ} (owner : OwnerLaws e count) where
  drain-Stays :
      (fuel : ℕ) (s s' : S) (c c' : CellClient)
      → drain (on_net_msg (some e)) fuel s c ≡ some (s', c')
      → Stays c c' × (count s' ≡ count s)
  unfolding drain on_net_msg
  drain-Stays zero s s' c c' h = cc
  drain-Stays (suc fuel) s s' c c' h = elim (Bool-cases (has_msg c)) [
    | inr stop ↦
        let same = same_some (sym (drain_stop (on_net_msg (some e)) fuel s c stop) ∙ h) in
        (subst (λ r. Stays c r.1) same (Stays-refl c), ap (λ r. count r.0) (sym same))
    | inl go ↦
        let ((s₁, c₁), answered, h₁) =
          >>=-eq-some (e.on_net_msg s c (front_msg c))
            (λ (s₁, c₁). pop_front_msg c₁ >>= λ c₂. drain (on_net_msg (some e)) fuel s₁ c₂)
            (sym (drain_go (on_net_msg (some e)) fuel s c go) ∙ h) in
        let (c₂, popped, h₂) =
          >>=-eq-some (pop_front_msg c₁) (λ c₂. drain (on_net_msg (some e)) fuel s₁ c₂) h₁ in
        let (socket, recv, send, kept) = owner.answers s s₁ c c₁ (front_msg c) answered in
        let (stays, kept') = drain-Stays fuel s₁ s' c₂ c' h₂ in
        let first : Stays c c₁ = record {
          socket = socket;
          well = λ (r, w). (subst IsValid (sym recv) r, send w);
        } in
        (Stays-trans first (Stays-trans (pop_front_msg-Stays c₁ c₂ popped) stays), kept' ∙ kept)
  ]

  -- The walk over the clients: the same sockets under the same keys.
  record Walked (s : S) (m : Clients) (s' : S) (m' : Clients) : Type 0 where
    same : sockets m' ≡ sockets m
    long : length m' ≡ length m
    keyed : AreKeyed m → AreKeyed m'
    well : AreWell m → AreWell m'
    kept : count s' ≡ count s

  do_msg_clients-Walked :
      (fuel : ℕ) (m m' : Clients) (s s' : S)
      → do_msg_clients (some e) fuel s m ≡ some (s', m')
      → Walked s m s' m'
  unfolding do_msg_clients
  do_msg_clients-Walked fuel [] m' s s' h =
      subst (λ r. Walked s [] r.0 r.1) (same_some h)
        (record { same = refl; long = refl; keyed = λ k. k; well = λ w. w; kept = refl })
  do_msg_clients-Walked fuel ((k, c) ∷ m) m' s s' h =
      let ((s₁, c₁), drained, h₁) =
        >>=-eq-some (drain (on_net_msg (some e)) fuel s c)
          (λ (s₁, c₁). do_msg_clients (some e) fuel s₁ m >>= λ (s₂, m₂). some (s₂, (k, c₁) ∷ m₂))
          h in
      let ((s₂, m₂), walked, h₂) =
        >>=-eq-some (do_msg_clients (some e) fuel s₁ m) (λ (s₂, m₂). some (s₂, (k, c₁) ∷ m₂)) h₁ in
      let (stays, kept) = drain-Stays fuel s s₁ c c₁ drained in
      let rest = do_msg_clients-Walked fuel m m₂ s₁ s₂ walked in
      subst (λ r. Walked s ((k, c) ∷ m) r.0 r.1) (same_some h₂)
        (record {
          same = ap₂ ◌∷◌ stays.socket rest.same;
          long = ap suc rest.long;
          keyed = λ (own, owns). (stays.socket ∙ own, rest.keyed owns);
          well = λ (w, ws). (stays.well w, rest.well ws);
          kept = rest.kept ∙ kept;
        })

  -- A DoMsg that returns leaves every client under its socket, with valid buffers if they were valid,
  -- and neither closes a socket nor changes the owner's count.
  pub do_msg-Served :
      (fuel : ℕ) (s s' : S) (srv srv' : CellServer)
      → do_msg (some e) fuel s srv ≡ some (s', srv')
      → Served count s srv s' srv'
  unfolding do_msg
  do_msg-Served fuel s s' srv srv' h =
      let ((s₁, m), walked, h₁) =
        >>=-eq-some (do_msg_clients (some e) fuel s srv.clients)
          (λ (s₁, m). some (s₁, record srv { clients = m })) h in
      let w = do_msg_clients-Walked fuel srv.clients m s s₁ walked in
      subst (λ r. Served count s srv r.0 r.1) (same_some h₁)
        (record {
          shut = [];
          closes = sym (append-nil srv.closed);
          balance =
              subst (λ l. Perm l (sockets srv.clients)) (sym w.same ∙ sym (append-nil (sockets m)))
                (Perm.refl (sockets srv.clients));
          counted =
              ap (λ x. x +ℤ pos (length srv.clients)) w.kept
              ∙ ap (λ n. count s +ℤ pos n) (sym w.long);
          keyed = w.keyed;
          well = w.well;
          waiting = refl;
        })
