-- ===== src/EchoServer/Accounts.antt =====
-- The connections of the stand-alone epoll server: none is lost, none is closed twice.
use mathlib.Core.List.{Perm, perm_append_comm, perm_middle}
use mathlib.Core.List.Perm
use cpp_network_obj.Base.{
  ℕ, ◌≡◌, refl, ap₂, sym, subst, Bool, true, false, ◌&&◌, some, List, [], ◌∷◌, ◌++◌, pos, All,
  append_assoc, ◌==◌, leb_ℤ, if◌then◌else◌, Bool-cases, inl, inr, arith, concat, map,
}
use cpp_network_obj.Buffer.{Socket, invalid_socket, fd, RecvReply, recv_failed, received}
use cpp_network_obj.EchoServer.Erasing.{has, erase-Erased, has-append}
use cpp_network_obj.EchoServer.{
  EchoServer, Event, client_leave, accept_client, cell_epoll_ctl, read_data, input_event, do_event,
  do_events, shut_down,
}

abbrev one : Socket → List ℕ
one invalid_socket = []
one (fd n) = n ∷ []

-- The connection that an event brings.
abbrev arrival : ℕ → Event → List ℕ
arrival listener ev = if (ev.sock == listener) && ev.input then one ev.accepted else []

abbrev pub arrivals : ℕ → List Event → List ℕ
arrivals listener evs = concat (map (arrival listener) evs)

-- The descriptors of the connections, open or closed.
abbrev pub owned : EchoServer → List ℕ
owned s = s.clients ++ s.closed

not_listener : (same input : Bool) → (same && input) ≡ false → input ≡ true → same ≡ false
not_listener same input h i = ground arith

-- What epoll_wait can store: EPOLLOUT was not asked for, and the event is the listening socket's or that
-- of a client.
abbrev pub IsAsked : ℕ → EchoServer → Event → Type 0
IsAsked listener s ev =
    (ev.output ≡ false) × ((ev.sock == listener) ≡ false → has ev.sock s.clients ≡ true)

-- After an event: the connections, and the other clients.
record Done (listener : ℕ) (ev : Event) (s : EchoServer) : Type 0 where
  state : EchoServer
  runs : do_event listener ev s ≡ some state
  balance : Perm (owned state) (arrival listener ev ++ owned s)
  others : (j : ℕ) → (j == ev.sock) ≡ false → has j s.clients ≡ true → has j state.clients ≡ true

accept_client-owned :
    (reply : Socket) (s : EchoServer) → Perm (owned (accept_client reply s)) (one reply ++ owned s)
unfolding accept_client cell_epoll_ctl
accept_client-owned invalid_socket s = Perm.refl (owned s)
accept_client-owned (fd n) s =
    subst (λ l. Perm l (n ∷ owned s)) (sym (append_assoc s.clients (n ∷ []) s.closed))
      (perm_middle s.clients s.closed)

accept_client-has :
    (reply : Socket) (s : EchoServer) (j : ℕ)
    → has j s.clients ≡ true
    → has j (accept_client reply s).clients ≡ true
unfolding accept_client cell_epoll_ctl
accept_client-has invalid_socket s j h = h
accept_client-has (fd n) s j h = has-append j n s.clients h

-- readData leaves the connections alone.
read_data-same :
    (reply : RecvReply) (s : EchoServer)
    → ((read_data reply s).1.clients ≡ s.clients) × ((read_data reply s).1.closed ≡ s.closed)
unfolding read_data
read_data-same recv_failed s = (refl, refl)
read_data-same (received bytes) s = (refl, refl)

record Read (ev : Event) (s : EchoServer) : Type 0 where
  state : EchoServer
  runs : input_event ev s ≡ some state
  balance : Perm (owned state) (owned s)
  others : (j : ℕ) → (j == ev.sock) ≡ false → has j s.clients ≡ true → has j state.clients ≡ true

input_event-Read : (ev : Event) (s : EchoServer) → has ev.sock s.clients ≡ true → Read ev s
unfolding input_event client_leave
input_event-Read ev s there =
    let (ret, s') = read_data ev.recv s in
    let (clients, closed) = read_data-same ev.recv s in
    let r = erase-Erased ev.sock s.clients there in
    elim (Bool-cases (leb_ℤ ret (pos 0))) [
      | inr stays ↦ record {
        state = s';
        runs = rw stays refl;
        balance =
            subst (λ l. Perm l (owned s)) (sym (ap₂ (λ a b. a ++ b) clients closed))
              (Perm.refl (owned s));
        others = λ j ne h. subst (λ l. has j l ≡ true) (sym clients) h;
      }
      | inl leaves ↦ record {
        state = record s' { clients = r.rest; closed = s'.closed ++ ev.sock ∷ [] };
        runs = rw leaves (rw clients (rw r.runs refl));
        balance =
            subst (λ c. Perm (r.rest ++ (c ++ ev.sock ∷ [])) (owned s)) (sym closed)
              (Perm.trans (Perm.append_left r.rest (perm_append_comm s.closed (ev.sock ∷ []))) (
                subst (λ l. Perm l (owned s)) (append_assoc r.rest (ev.sock ∷ []) s.closed)
                  (Perm.append_right s.closed r.balance)));
        others = r.others;
      }
    ]

do_event-read :
    (listener : ℕ) (ev : Event) (s s' : EchoServer)
    → ((ev.sock == listener) && ev.input) ≡ false
    → ev.input ≡ true
    → ev.output ≡ false
    → input_event ev s ≡ some s'
    → do_event listener ev s ≡ some s'
unfolding do_event
do_event-read listener ev s s' other input quiet runs =
    rw other (rw (input, do_event) (rw runs (rw quiet refl)))

do_event-Done :
    (listener : ℕ) (ev : Event) (s : EchoServer) → IsAsked listener s ev → Done listener ev s
unfolding do_event
do_event-Done listener ev s (quiet, there) = elim (Bool-cases ((ev.sock == listener) && ev.input)) [
  | inl arrives ↦ record {
    state = accept_client ev.accepted s;
    runs = rw arrives refl;
    balance = rw arrives (accept_client-owned ev.accepted s);
    others = λ j ne h. accept_client-has ev.accepted s j h;
  }
  | inr other ↦ elim (Bool-cases ev.input) [
    | inr silent ↦ record {
      state = s;
      runs = rw other (rw silent (rw quiet refl));
      balance = rw other (Perm.refl (owned s));
      others = λ j ne h. h;
    }
    | inl input ↦
        let r =
          input_event-Read ev s (there (not_listener (ev.sock == listener) ev.input other input)) in
        record {
          state = r.state;
          runs = do_event-read listener ev s r.state other input quiet r.runs;
          balance = rw other r.balance;
          others = r.others;
        }
  ]
]

-- The events of a round are of different descriptors.
abbrev pub AllApart : List Event → Type 0
AllApart [] = Unit {0}
AllApart (ev ∷ evs) = All (λ other. (other.sock == ev.sock) ≡ false) evs × AllApart evs

still-IsAsked :
    (listener : ℕ) (ev : Event) (s : EchoServer) (d : Done listener ev s) (evs : List Event)
    → All (λ other. (other.sock == ev.sock) ≡ false) evs
    → All (IsAsked listener s) evs
    → All (IsAsked listener d.state) evs
still-IsAsked listener ev s d [] apart asked = tt
still-IsAsked listener ev s d (next ∷ evs) (ne, apart) ((quiet, there), asked) = (
  (quiet, λ other. d.others next.sock ne (there other)),
  still-IsAsked listener ev s d evs apart asked,
)

do_events-Perm :
    (listener : ℕ) (evs : List Event) (s : EchoServer)
    → All (IsAsked listener s) evs
    → AllApart evs
    → (s' : EchoServer) × (do_events listener evs s ≡ some s')
      × Perm (owned s') (arrivals listener evs ++ owned s)
unfolding do_events
do_events-Perm listener [] s asked apart = (s, refl, Perm.refl (owned s))
do_events-Perm listener (ev ∷ evs) s (a, asked) (ap₁, apart) =
    let d = do_event-Done listener ev s a in
    let (s', rest, balance) =
      do_events-Perm listener evs d.state (still-IsAsked listener ev s d evs ap₁ asked) apart in
    let new = arrival listener ev in
    let later = arrivals listener evs in
    (
      s',
      rw d.runs rest,
      Perm.trans balance (
          Perm.trans (Perm.append_left later d.balance) (
            subst (λ l. Perm l ((new ++ later) ++ owned s)) (append_assoc later new (owned s))
              (Perm.append_right (owned s) (perm_append_comm later new)))),
    )

-- A round of the main loop, for events as epoll_wait can store them, each of another descriptor and none
-- of them for output, returns, with whatever replies of accept() and recv(). The descriptors of the
-- connections, open or closed, are those from before and those that accept() has made in the round, none
-- lost and none closed twice; and at the end of main() each is closed, after those closed already,
-- then the epoll descriptor and the listening socket.
pub do_events-accounts :
    (epfd listener : ℕ) (evs : List Event) (s : EchoServer)
    → All (IsAsked listener s) evs
    → AllApart evs
    → (s' : EchoServer) × (do_events listener evs s ≡ some s')
      × Perm (owned s') (arrivals listener evs ++ owned s)
      × Perm
          (shut_down epfd listener s').closed
          ((arrivals listener evs ++ owned s) ++ epfd ∷ listener ∷ [])
unfolding shut_down
do_events-accounts epfd listener evs s asked apart =
    let (s', runs, balance) = do_events-Perm listener evs s asked apart in
    (
      s',
      runs,
      balance,
      subst (λ l. Perm l ((arrivals listener evs ++ owned s) ++ epfd ∷ listener ∷ []))
          (append_assoc s'.closed s'.clients (epfd ∷ listener ∷ []))
          (Perm.append_right (epfd ∷ listener ∷ [])
            (Perm.trans (perm_append_comm s'.closed s'.clients) balance)),
    )
