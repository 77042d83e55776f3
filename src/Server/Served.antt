-- ===== src/Server/Served.antt =====
-- What a part of a worker's round does to the sockets and to the owner's count of clients.
use mathlib.Core.List.{Perm}
use mathlib.Core.List.Perm
use cpp_network_obj.Base.{
  ◌≡◌, ap, sym, subst, ◌∙◌, List, [], ◌++◌, append_assoc, append-nil, ℤ, pos, ◌+ℤ◌, length, All,
}
use cpp_network_obj.Buffer.{Socket}
use cpp_network_obj.Buffer.Invariant.{IsValid}
use cpp_network_obj.Client.{CellClient}
use cpp_network_obj.Server.{CellServer, Clients}
use cpp_network_obj.Server.Sweep.{sockets, AreKeyed, Perm-twice, count_twice}

-- Both buffers of a client are valid.
abbrev pub IsWell : CellClient → Type 0
IsWell c = IsValid c.recv_buff × IsValid c.send_buff

abbrev pub AreWell : Clients → Type 0
AreWell = All (λ kc. IsWell kc.1)

-- The sockets are split between the clients still served and those closed, none lost and none closed
-- twice, and the owner counts one client less for each that went. The clients left stand under their
-- own sockets and have valid buffers, if they did so before; those that wait go on waiting.
pub record Served {S : Type 0} (count : S → ℤ) (s : S) (srv : CellServer) (state : S)
    (server : CellServer) : Type 0 where
  pub shut : List Socket
  pub closes : server.closed ≡ srv.closed ++ shut
  pub balance : Perm (sockets server.clients ++ shut) (sockets srv.clients)
  pub counted : count state +ℤ pos (length srv.clients) ≡ count s +ℤ pos (length server.clients)
  pub keyed : AreKeyed srv.clients → AreKeyed server.clients
  pub well : AreWell srv.clients → AreWell server.clients
  pub waiting : server.clients_buff ≡ srv.clients_buff

module _ {S : Type 0} {count : S → ℤ} where
  pub Served-same :
      (s : S) (srv srv' : CellServer)
      → srv'.closed ≡ srv.closed
      → srv'.clients ≡ srv.clients
      → srv'.clients_buff ≡ srv.clients_buff
      → Served count s srv s srv'
  Served-same s srv srv' same_closed same waiting = record {
    shut = [];
    closes = same_closed ∙ sym (append-nil srv.closed);
    balance =
        subst (λ l. Perm l (sockets srv.clients))
          (ap sockets (sym same) ∙ sym (append-nil (sockets srv'.clients)))
          (Perm.refl (sockets srv.clients));
    counted = ap (λ m. count s +ℤ pos (length m)) (sym same);
    keyed = subst AreKeyed (sym same);
    well = subst AreWell (sym same);
    waiting = waiting;
  }

  pub Served-trans :
      {s₁ s₂ s₃ : S} {srv₁ srv₂ srv₃ : CellServer}
      → Served count s₁ srv₁ s₂ srv₂
      → Served count s₂ srv₂ s₃ srv₃
      → Served count s₁ srv₁ s₃ srv₃
  Served-trans {s₁} {s₂} {s₃} {srv₁} {srv₂} {srv₃} p q = record {
    shut = p.shut ++ q.shut;
    closes = q.closes ∙ ap (λ l. l ++ q.shut) p.closes ∙ append_assoc srv₁.closed p.shut q.shut;
    balance =
        Perm-twice (sockets srv₂.clients) (sockets srv₃.clients) p.shut q.shut
          (sockets srv₁.clients) p.balance q.balance;
    counted =
        count_twice (count s₁) (count s₂) (count s₃) (length srv₁.clients) (length srv₂.clients)
          (length srv₃.clients) p.counted q.counted;
    keyed = λ own. q.keyed (p.keyed own);
    well = λ valid. q.well (p.well valid);
    waiting = q.waiting ∙ p.waiting;
  }
