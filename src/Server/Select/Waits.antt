-- ===== src/Server/Select/Waits.antt =====
-- The poller that waits with select keeps a poller's laws.
use mathlib.Core.List.{Mem, mem-cons_self, mem-cons_of_mem}
use cpp_network_obj.Base.{
  ℕ, ◌<◌, ◌≡◌, refl, sym, subst, ◌∙◌, Bool, true, none, some, [], ◌∷◌, ℤ, All, length, arith,
}
use cpp_network_obj.Buffer.{Socket, fd, is_valid}
use cpp_network_obj.Buffer.Honest.{CanStore, CanTake}
use cpp_network_obj.FdSet.{FdBits, max_fd}
use cpp_network_obj.NetEvent.{NetEvent}
use cpp_network_obj.Server.{CellServer, Clients, Round}
use cpp_network_obj.Server.Sweep.{sockets, Each}
use cpp_network_obj.Server.Served.{AreWell, Served}
use cpp_network_obj.Server.Dispatch.{same_some}
use cpp_network_obj.Server.Turn.{PollerLaws}
use cpp_network_obj.Server.Select.{Sets, do_net_events, poller}
use cpp_network_obj.Server.Select.Events.{CanServe, Counting}
use cpp_network_obj.Server.Select.LastClient.{do_net_events-empty}
use cpp_network_obj.Server.Select.Waiting.{do_net_events-Served}

-- A socket inside the bitmap.
abbrev pub IsInside : Socket → Type 0
IsInside k = (n : ℕ) × (k ≡ fd n) × (n < max_fd)

-- recv() and send() do what is possible for each client.
abbrev pub AreHonest : Round → Clients → Type 0
AreHonest round = All (λ kc.
    CanStore (round.recv kc.1.sockfd) kc.1.recv_buff
    × CanTake (round.send kc.1.sockfd) kc.1.send_buff)

pub IsInside-is_valid : (k : Socket) → IsInside k → is_valid k ≡ true
IsInside-is_valid k (n, e, h) = rw e refl

Each-CanServe :
    (round : Round) (m : Clients)
    → AreWell m
    → ((k : Socket) → Mem k (sockets m) → IsInside k)
    → AreHonest round m
    → Each (CanServe round) m
Each-CanServe round [] w inside fits = tt
Each-CanServe round ((k, c) ∷ m) ((r, s), ws) inside ((store, take), fits) =
    let (n, e, h) = inside c.sockfd mem-cons_self in
    (
      (
        IsInside-is_valid c.sockfd (n, e, h),
        (
          record { number = n; open_socket = e; inside = h; recv_valid = r; send_valid = s },
          store,
          take,
        ),
      ),
      Each-CanServe round m ws (λ j mem. inside j (mem-cons_of_mem c.sockfd mem)) fits,
    )

not_some : {A : Type 0} {a : A} → none ≡ some a → ⊥
not_some h = cc

module _ (bits : FdBits) where
  module _ {S : Type 0} {e : NetEvent S} {count : S → ℤ} (counting : Counting e count) where
    -- Where the clients have changed, DoNetEvents only returns if there are some.
    do_net_events-length :
        (m : Clients) (round : Round) (s : S) (p : Sets bits) (srv : CellServer)
        (r : Bool × S × Sets bits × CellServer)
        → srv.clients ≡ m
        → do_net_events bits (some e) round s p srv ≡ some r
        → srv.clients_change ≡ true
        → 0 < length srv.clients
    do_net_events-length [] round s p srv r empty h changed =
        absurd (not_some (sym (do_net_events-empty (some e) bits round s p srv empty changed) ∙ h))
    do_net_events-length (kc ∷ m) round s p srv r some_client h changed =
        rw some_client (omega arith)

    -- Where DoNetEvents returns, the worker's clients have been served.
    pub select_serves :
        (round : Round) (s s' : S) (p p' : Sets bits) (srv srv' : CellServer) (go : Bool)
        → do_net_events bits (some e) round s p srv ≡ some (go, s', p', srv')
        → AreWell srv.clients
        → ((k : Socket) → Mem k (sockets srv.clients) → IsInside k)
        → AreHonest round srv.clients
        → Served count s srv s' srv'
    select_serves round s s' p p' srv srv' go h w inside fits =
        let (go₁, s₁, p₁, srv₁, runs, served, sound, goes) =
          do_net_events-Served bits counting round s p srv
            (Each-CanServe round srv.clients w inside fits)
            (do_net_events-length srv.clients round s p srv (go, s', p', srv') refl h) in
        subst (λ r. Served count s srv r.1 r.3) (same_some (sym runs ∙ h)) served

    abbrev pub select_laws : PollerLaws (poller bits (some e)) count
    select_laws = record {
      Takes = IsInside;
      Takes-is_valid = IsInside-is_valid;
      Fits = λ round srv. AreHonest round srv.clients;
      serves = λ round s s' p p' srv srv' go h own. select_serves round s s' p p' srv srv' go h;
    }
