-- ===== src/Server/Epoll/Handled.antt =====
-- What a worker that waits with epoll does with one event.
use mathlib.Core.List.{Perm, perm_middle}
use mathlib.Core.List.Perm
use cpp_network_obj.Base.{
  ℕ, suc, ◌+◌, ◌≡◌, refl, ap, sym, subst, ◌∙◌, Bool, true, false, Option, some, [], ◌∷◌, ◌++◌,
  append-nil, ℤ, pos, ◌+ℤ◌, length, arith, Bool-cases, inl, inr,
}
use cpp_network_obj.Buffer.{Socket, is_valid}
use cpp_network_obj.Buffer.Invariant.{IsValid}
use cpp_network_obj.Buffer.Honest.{CanStore, CanTake, read_from_socket-total, write_to_socket-total}
use cpp_network_obj.Client.{CellClient, recv_data, send_data_real, reset_dt_send, destroy}
use cpp_network_obj.NetEvent.{NetEvent}
use cpp_network_obj.Server.{CellServer, Clients, Round, EpollEvent, notify_leave, is_error, sock_eq}
use cpp_network_obj.Server
use cpp_network_obj.Server.Sweep.{sockets, destroy-valid, count_gone}
use cpp_network_obj.Server.Served.{Served, IsWell}
use cpp_network_obj.Server.Select.Events.{Counting}
use cpp_network_obj.Server.Epoll.{
  find_client, erase, change, rm_client, read_event, write_event, client_event,
}
use cpp_network_obj.Server.Epoll.Keys.{
  Perm-find, length-erase, sockets-change, length-change, All-erase, All-change, find-erase,
  find-change,
}

-- A client with its socket as its key, two valid buffers, and possible replies of the kernel.
pub record CanServe (round : Round) (k : Socket) (c : CellClient) : Type 0 where
  pub key : c.sockfd ≡ k
  pub open_socket : is_valid k ≡ true
  pub recv_valid : IsValid c.recv_buff
  pub send_valid : IsValid c.send_buff
  pub store : CanStore (round.recv c.sockfd) c.recv_buff
  pub take : CanTake (round.send c.sockfd) c.send_buff

add_one : (n : ℕ) → n + 1 ≡ suc n
add_one n = omega arith

erase-Perm :
    (k : Socket) (c : CellClient) (m : Clients)
    → find_client k m ≡ some c
    → c.sockfd ≡ k
    → Perm (sockets (erase k m) ++ k ∷ []) (sockets m)
erase-Perm k c m found key = Perm.trans (perm_middle (sockets (erase k m)) []) (
    subst (λ l. Perm (k ∷ l) (sockets m)) (sym (append-nil (sockets (erase k m))))
      (subst (λ x. Perm (x ∷ sockets (erase k m)) (sockets m)) key
        (Perm.symm (Perm-find k c m found))))

-- What other events find after one has been handled.
abbrev pub Keeps : Socket → CellServer → CellServer → Type 0
Keeps j srv srv' =
    (k : Socket) → sock_eq j k ≡ false → find_client k srv'.clients ≡ find_client k srv.clients

module _ {S : Type 0} {e : NetEvent S} {count : S → ℤ} (counting : Counting e count) where
  -- A client that is removed.
  rm_client-Served :
      (k : Socket) (c c' : CellClient) (s s' : S) (srv : CellServer)
      → find_client k srv.clients ≡ some c
      → c.sockfd ≡ k
      → c'.sockfd ≡ k
      → is_valid k ≡ true
      → count s' ≡ count s
      → let r = rm_client (some e) c' s' srv in Served count s srv r.0 r.1
  unfolding rm_client
  rm_client-Served k c c' s s' srv found key key' valid same = record {
    shut = destroy c';
    closes = refl;
    balance =
        rw (destroy-valid c' (subst (λ x. is_valid x ≡ true) (sym key') valid))
          (rw key' (erase-Perm k c srv.clients found key));
    counted =
        subst
          (λ x.
            count (e.on_net_leave s' c') +ℤ pos (length srv.clients)
            ≡ count s +ℤ pos (length (erase x srv.clients)))
          (sym key')
          (subst
            (λ n.
              count (e.on_net_leave s' c') +ℤ pos n ≡ count s +ℤ pos (length (erase k srv.clients)))
            (sym (length-erase k c srv.clients found ∙ add_one (length (erase k srv.clients))))
            (count_gone (count (e.on_net_leave s' c')) (count s) (count s')
              (count (e.on_net_leave s' c')) (length (erase k srv.clients))
              (length (erase k srv.clients)) refl (counting.leaves s' c') same));
    keyed = All-erase _ c'.sockfd srv.clients;
    well = All-erase _ c'.sockfd srv.clients;
    waiting = refl;
  }

  -- A client that stays, and may have changed.
  change-Served :
      (k : Socket) (c c' : CellClient) (s s' : S) (srv : CellServer)
      → find_client k srv.clients ≡ some c
      → c'.sockfd ≡ c.sockfd
      → c.sockfd ≡ k
      → IsWell c'
      → count s' ≡ count s
      → Served count s srv s' (record srv { clients = change k c' srv.clients })
  change-Served k c c' s s' srv found same_socket key valid same = record {
    shut = [];
    closes = sym (append-nil srv.closed);
    balance =
        subst (λ l. Perm l (sockets srv.clients))
          (sym (
            append-nil (sockets (change k c' srv.clients))
            ∙ sockets-change k c c' srv.clients found same_socket))
          (Perm.refl (sockets srv.clients));
    counted =
        ap (λ x. x +ℤ pos (length srv.clients)) same
        ∙ ap (λ n. count s +ℤ pos n) (sym (length-change k c' srv.clients));
    keyed = All-change _ k c' srv.clients (same_socket ∙ key);
    well = All-change _ k c' srv.clients valid;
    waiting = refl;
  }

  abbrev pub Handled : Socket → S → CellServer → Option (S × CellServer) → Type 0
  Handled k s srv result =
      (s' : S) × (srv' : CellServer) × (result ≡ some (s', srv'))
      × Served count s srv s' srv'
      × Keeps k srv srv'

  rm_client-Keeps :
      (k : Socket) (c : CellClient) (s : S) (srv : CellServer)
      → c.sockfd ≡ k
      → Keeps k srv (rm_client (some e) c s srv).1
  unfolding rm_client
  rm_client-Keeps k c s srv key j ne =
      subst (λ x. find_client j (erase x srv.clients) ≡ find_client j srv.clients) (sym key)
        (find-erase k j srv.clients ne)

  read_event-total :
      (round : Round) (ev : EpollEvent) (s : S) (k : Socket) (c : CellClient)
      → CanServe round k c
      → (gone : Bool) × (s' : S) × (c' : CellClient) × (read_event (some e) round ev s c
          ≡ some (gone, s', c'))
        × (c'.sockfd ≡ c.sockfd)
        × (c'.send_buff ≡ c.send_buff)
        × IsValid c'.recv_buff
        × (count s' ≡ count s)
  unfolding read_event Server.recv_data recv_data
  read_event-total round ev s k c can =
      let ((ret, b), runs, valid) =
        read_from_socket-total {b = c.recv_buff} (round.recv c.sockfd) can.recv_valid can.store in
      let c' : CellClient = record c { recv_buff = b } in
      elim (Bool-cases ev.input) [
        | inl h ↦ (
          is_error ret,
          e.on_net_recv s c',
          c',
          rw h (rw runs refl),
          refl,
          refl,
          valid,
          counting.receives s c',
        )
        | inr h ↦ (false, s, c, rw h refl, refl, refl, can.recv_valid, refl)
      ]

  write_event-total :
      (round : Round) (ev : EpollEvent) (c : CellClient)
      → IsValid c.send_buff
      → CanTake (round.send c.sockfd) c.send_buff
      → (gone : Bool) × (c' : CellClient) × (write_event round ev c ≡ some (gone, c'))
        × (c'.sockfd ≡ c.sockfd)
        × (c'.recv_buff ≡ c.recv_buff)
        × IsValid c'.send_buff
  unfolding write_event send_data_real reset_dt_send
  write_event-total round ev c valid takes =
      let ((ret, b), runs, valid') =
        write_to_socket-total {b = c.send_buff} c.sockfd (round.send c.sockfd) valid takes in
      elim (Bool-cases ev.output) [
        | inl h ↦ (
          is_error ret,
          record c { send_buff = b; dt_send = pos 0 },
          rw h (rw runs refl),
          refl,
          refl,
          valid',
        )
        | inr h ↦ (false, c, rw h refl, refl, refl, valid)
      ]

  pub client_event-Handled :
      (round : Round) (ev : EpollEvent) (k : Socket) (c : CellClient) (s : S) (srv : CellServer)
      → find_client k srv.clients ≡ some c
      → CanServe round k c
      → Handled k s srv (client_event (some e) round ev k c s srv)
  unfolding client_event
  client_event-Handled round ev k c s srv found can =
      let (gone, s', c', reads, sock, buff, recv_valid, same) =
        read_event-total round ev s k c can in
      let takes : CanTake (round.send c'.sockfd) c'.send_buff =
        subst (λ x. CanTake (round.send x) c'.send_buff) (sym sock)
          (subst (CanTake (round.send c.sockfd)) (sym buff) can.take) in
      let (gone', c'', writes, sock', recv_buff, send_valid) =
        write_event-total round ev c' (subst IsValid (sym buff) can.send_valid) takes in
      elim (Bool-cases gone) [
        | inl h ↦ (
          _,
          _,
          rw reads (rw h refl),
          rm_client-Served k c c' s s' srv found can.key (sock ∙ can.key) can.open_socket same,
          rm_client-Keeps k c' s' srv (sock ∙ can.key),
        )
        | inr h ↦ elim (Bool-cases gone') [
          | inl h' ↦ (
            _,
            _,
            rw reads (rw h (rw writes (rw h' refl))),
            rm_client-Served k c c'' s s' srv found can.key (sock' ∙ sock ∙ can.key) can.open_socket
                same,
            rm_client-Keeps k c'' s' srv (sock' ∙ sock ∙ can.key),
          )
          | inr h' ↦ (
            s',
            record srv { clients = change k c'' srv.clients },
            rw reads (rw h (rw writes (rw h' refl))),
            change-Served k c c'' s s' srv found (sock' ∙ sock) can.key
                (subst IsValid (sym recv_buff) recv_valid, send_valid) same,
            (λ j ne. find-change k j c'' srv.clients ne),
          )
        ]
      ]
