-- ===== src/Server/Epoll/Events.antt =====
-- What a worker that waits with epoll does with the events of a round.
use cpp_network_obj.Base.{
  ℕ, zero, suc, leb_ℤ, ◌&&◌, map, ◌≡◌, refl, sym, ◌∙◌, Bool, true, false, Option, none, some, List,
  [], ◌∷◌, ◌++◌, append_assoc, append-nil, ℤ, pos, negsuc, take, All, if◌then◌else◌, arith,
}
use cpp_network_obj.Buffer.{Socket}
use cpp_network_obj.Client.{CellClient, need_write}
use cpp_network_obj.Epoll.{Epoll, Ctl, CtlOp, ctl, wait}
use cpp_network_obj.NetEvent.{NetEvent}
use cpp_network_obj.Server.{CellServer, Clients, Round, EpollEvent, is_error, sock_eq}
use cpp_network_obj.Server.Served.{Served, Served-same, Served-trans}
use cpp_network_obj.Server.Select.Events.{Counting}
use cpp_network_obj.Server.Epoll.{
  find_client, do_event, do_events, ctl_all, after_wait, do_net_events,
}
use cpp_network_obj.Server.Epoll.Handled.{CanServe, Keeps, client_event-Handled}

-- What epoll_wait can store: each event shows a client that is in the map, and no two the same.
abbrev pub LiveAt : Round → Clients → Option Socket → Type 0
LiveAt round m none = Unit {0}
LiveAt round m (some k) = (c : CellClient) × (find_client k m ≡ some c) × CanServe round k c

abbrev pub IsLive : Round → Clients → EpollEvent → Type 0
IsLive round m ev = LiveAt round m ev.client

abbrev ApartAt : Option Socket → Option Socket → Type 0
ApartAt none b = Unit {0}
ApartAt (some j) none = Unit {0}
ApartAt (some j) (some k) = sock_eq j k ≡ false

abbrev pub IsApart : EpollEvent → EpollEvent → Type 0
IsApart a b = ApartAt a.client b.client

abbrev pub AllApart : List EpollEvent → Type 0
AllApart [] = Unit {0}
AllApart (ev ∷ evs) = All (IsApart ev) evs × AllApart evs

All-take : {A : Type 0} (P : A → Type 0) (n : ℕ) (xs : List A) → All P xs → All P (take n xs)
All-take P zero xs h = tt
All-take P (suc n) [] h = tt
All-take P (suc n) (x ∷ xs) (p, h) = (p, All-take P n xs h)

AllApart-take : (n : ℕ) (evs : List EpollEvent) → AllApart evs → AllApart (take n evs)
AllApart-take zero evs h = tt
AllApart-take (suc n) [] h = tt
AllApart-take (suc n) (ev ∷ evs) (apart, h) =
    (All-take (IsApart ev) n evs apart, AllApart-take n evs h)

-- The calls of epoll_ctl for the clients.
abbrev pub watches : Clients → List Ctl
watches = map (λ kc. record { op = CtlOp.ctl_mod; sock = kc.1.sockfd; output = need_write kc.1 })

ctl_all-calls : (m : Clients) (ep : Epoll) → (ctl_all m ep).calls ≡ ep.calls ++ watches m
unfolding ctl_all ctl
ctl_all-calls [] ep = sym (append-nil ep.calls)
ctl_all-calls ((k, c) ∷ m) ep = ctl_all-calls m _ ∙ append_assoc ep.calls _ (watches m)

wait-leb :
    (ret : ℤ) (eintr : Bool)
    → leb_ℤ (pos 0) (wait ret eintr) ≡ (if leb_ℤ (pos 0) ret then true else (is_error ret && eintr))
unfolding wait
wait-leb ret eintr = ground arith

module _ {S : Type 0} {e : NetEvent S} {count : S → ℤ} (counting : Counting e count) where
  live-one :
      (round : Round) (k : Socket) (srv srv' : CellServer) (o : Option Socket)
      → Keeps k srv srv'
      → ApartAt (some k) o
      → LiveAt round srv.clients o
      → LiveAt round srv'.clients o
  live-one round k srv srv' none keeps ne l = tt
  live-one round k srv srv' (some j) keeps ne (c, found, can) = (c, keeps j ne ∙ found, can)

  -- What is left of the events after the one at `o`.
  abbrev Left : Round → Option Socket → CellServer → CellServer → Type 0
  Left round o srv srv' =
      (other : Option Socket)
      → ApartAt o other
      → LiveAt round srv.clients other
      → LiveAt round srv'.clients other

  do_event-Served :
      (round : Round) (ev : EpollEvent) (o : Option Socket) (s : S) (srv : CellServer)
      → LiveAt round srv.clients o
      → (s' : S) × (srv' : CellServer) × (do_event (some e) round ev o s srv ≡ some (s', srv'))
        × Served count s srv s' srv'
        × Left round o srv srv'
  unfolding do_event
  do_event-Served round ev none s srv l =
      (s, srv, refl, Served-same s srv srv refl refl refl, (λ other ne live. live))
  do_event-Served round ev (some k) s srv (c, found, can) =
      let (s', srv', runs, served, keeps) =
        client_event-Handled counting round ev k c s srv found can in
      (
        s',
        srv',
        rw found runs,
        served,
        (λ other ne live. live-one round k srv srv' other keeps ne live),
      )

  All-Left :
      (round : Round) (o : Option Socket) (srv srv' : CellServer) (evs : List EpollEvent)
      → Left round o srv srv'
      → All (λ b. ApartAt o b.client) evs
      → All (IsLive round srv.clients) evs
      → All (IsLive round srv'.clients) evs
  All-Left round o srv srv' [] left apart live = tt
  All-Left round o srv srv' (next ∷ evs) left (ne, apart) (l, live) =
      (left next.client ne l, All-Left round o srv srv' evs left apart live)

  -- The loop over the events.
  do_events-Served :
      (round : Round) (evs : List EpollEvent) (s : S) (srv : CellServer)
      → All (IsLive round srv.clients) evs
      → AllApart evs
      → (s' : S) × (srv' : CellServer) × (do_events (some e) round evs s srv ≡ some (s', srv'))
        × Served count s srv s' srv'
  unfolding do_events
  do_events-Served round [] s srv live apart = (s, srv, refl, Served-same s srv srv refl refl refl)
  do_events-Served round (ev ∷ evs) s srv (l, live) (apart, aparts) =
      let (s₁, srv₁, first, served, left) = do_event-Served round ev ev.client s srv l in
      let (s₂, srv₂, rest, served') =
        do_events-Served round evs s₁ srv₁ (All-Left round ev.client srv srv₁ evs left apart live)
          aparts in
      (s₂, srv₂, rw first rest, Served-trans served served')

  after_wait-Served :
      (ret : ℤ) (round : Round) (s : S) (ep : Epoll) (srv : CellServer)
      → All (IsLive round srv.clients) round.events
      → AllApart round.events
      → (s' : S) × (srv' : CellServer) × (after_wait (some e) ret round s ep srv
          ≡ some (leb_ℤ (pos 0) ret, s', ep, srv'))
        × Served count s srv s' srv'
  unfolding after_wait
  after_wait-Served (negsuc n) round s ep srv live apart =
      (s, srv, ground arith, Served-same s srv srv refl refl refl)
  after_wait-Served (pos n) round s ep srv live apart =
      let (s', srv', runs, served) =
        do_events-Served round (take n round.events) s srv
          (All-take (IsLive round srv.clients) n round.events live)
          (AllApart-take n round.events apart) in
      (s', srv', rw runs (ground arith), served)

  -- DoNetEvents with epoll, where the kernel's events are of clients in the map, at most one of each,
  -- and its replies are possible, returns. The sockets are split between the clients still served and
  -- those closed, none lost and none closed twice; the owner's count falls by the number of those
  -- closed; each client is watched for input, and for output exactly if it has something to send; and
  -- the worker's loop ends only if epoll_wait has failed for another reason than EINTR.
  pub epoll_events-Served :
      (round : Round) (s : S) (ep : Epoll) (srv : CellServer)
      → All (IsLive round srv.clients) round.events
      → AllApart round.events
      → (go : Bool) × (s' : S) × (ep' : Epoll) × (srv' : CellServer) × (do_net_events
            (some e)
            round
            s
            ep
            srv
          ≡ some (go, s', ep', srv'))
        × Served count s srv s' srv'
        × (ep'.calls ≡ ep.calls ++ watches srv.clients)
        × (go ≡ (
            if leb_ℤ (pos 0) round.selected
            then true
            else (is_error round.selected && round.eintr)))
  unfolding do_net_events
  epoll_events-Served round s ep srv live apart =
      let (s', srv', runs, served) =
        after_wait-Served (wait round.selected round.eintr) round s (ctl_all srv.clients ep) srv
          live apart in
      (
        _,
        s',
        ctl_all srv.clients ep,
        srv',
        runs,
        served,
        ctl_all-calls srv.clients ep,
        wait-leb round.selected round.eintr,
      )
