-- ===== src/Server/Epoll/Waits.antt =====
-- The poller that waits with epoll keeps a poller's laws.
use mathlib.Core.List.{Mem}
use cpp_network_obj.Base.{Bool, ◌≡◌, sym, subst, ◌∙◌, true, Option, none, some, ℤ, All, All-map}
use cpp_network_obj.Buffer.{Socket, is_valid}
use cpp_network_obj.Buffer.Honest.{CanStore, CanTake}
use cpp_network_obj.Client.{CellClient}
use cpp_network_obj.Epoll.{Epoll}
use cpp_network_obj.NetEvent.{NetEvent}
use cpp_network_obj.Server.{CellServer, Clients, Round}
use cpp_network_obj.Server.Sweep.{sockets, AreKeyed}
use cpp_network_obj.Server.Served.{AreWell, IsWell, Served}
use cpp_network_obj.Server.Dispatch.{same_some}
use cpp_network_obj.Server.Turn.{PollerLaws}
use cpp_network_obj.Server.Select.Events.{Counting}
use cpp_network_obj.Server.Epoll.{find_client, do_net_events, poller}
use cpp_network_obj.Server.Epoll.Keys.{All-find, Mem-find}
use cpp_network_obj.Server.Epoll.Events.{LiveAt, AllApart, epoll_events-Served}

-- An event shows no client, or one in the map for which recv() and send() do what is possible.
abbrev HonestAt : Round → Clients → Option Socket → Type 0
HonestAt round m none = Unit {0}
HonestAt round m (some k) =
    (c : CellClient) × (find_client k m ≡ some c)
    × CanStore (round.recv c.sockfd) c.recv_buff
    × CanTake (round.send c.sockfd) c.send_buff

abbrev pub IsHonest : Round → CellServer → Type 0
IsHonest round srv =
    All (λ ev. HonestAt round srv.clients ev.client) round.events × AllApart round.events

honest-live :
    (round : Round) (srv : CellServer) (o : Option Socket)
    → AreKeyed srv.clients
    → AreWell srv.clients
    → ((k : Socket) → Mem k (sockets srv.clients) → is_valid k ≡ true)
    → HonestAt round srv.clients o
    → LiveAt round srv.clients o
honest-live round srv none own w valid h = tt
honest-live round srv (some k) own w valid (c, found, store, take) =
    let key : c.sockfd ≡ k = All-find (λ kc. kc.1.sockfd ≡ kc.0) k c srv.clients found own in
    let (r, s) = All-find (λ kc. IsWell kc.1) k c srv.clients found w in
    (
      c,
      found,
      record {
        key = key;
        open_socket =
            subst (λ x. is_valid x ≡ true) key (valid c.sockfd (Mem-find k c srv.clients found));
        recv_valid = r;
        send_valid = s;
        store = store;
        take = take;
      },
    )

module _ {S : Type 0} {e : NetEvent S} {count : S → ℤ} (counting : Counting e count) where
  -- Where DoNetEvents returns, the worker's clients have been served.
  pub epoll_serves :
      (round : Round) (s s' : S) (ep ep' : Epoll) (srv srv' : CellServer) (go : Bool)
      → do_net_events (some e) round s ep srv ≡ some (go, s', ep', srv')
      → AreKeyed srv.clients
      → AreWell srv.clients
      → ((k : Socket) → Mem k (sockets srv.clients) → is_valid k ≡ true)
      → IsHonest round srv
      → Served count s srv s' srv'
  epoll_serves round s s' ep ep' srv srv' go h own w valid (honest, apart) =
      let (go₁, s₁, ep₁, srv₁, runs, served, calls, goes) =
        epoll_events-Served counting round s ep srv
          (All-map round.events (λ ev. honest-live round srv ev.client own w valid) honest) apart in
      subst (λ r. Served count s srv r.1 r.3) (same_some (sym runs ∙ h)) served

  abbrev pub epoll_laws : PollerLaws (poller (some e)) count
  epoll_laws = record {
    Takes = λ k. is_valid k ≡ true;
    Takes-is_valid = λ k h. h;
    Fits = IsHonest;
    serves = epoll_serves;
  }
