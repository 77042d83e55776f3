-- ===== src/Server/Select/Waiting.antt =====
-- DoNetEvents of a worker that waits with select.
use cpp_network_obj.Base.{
  zero, suc, lt→ltb, All-map, ◌<◌, ◌≡◌, refl, Bool, true, false, ◌||◌, Option, some, [], ◌∷◌, ◌++◌,
  ℤ, pos, negsuc, length, if◌then◌else◌, leb_ℤ, arith, Bool-cases, inl, inr,
}
use cpp_network_obj.Buffer.{Socket}
use cpp_network_obj.Client.{CellClient, need_write}
use cpp_network_obj.FdSet.{FdBits, max_fd, has, add, copy}
use cpp_network_obj.FdSet
use cpp_network_obj.NetEvent.{NetEvent}
use cpp_network_obj.Server.{CellServer, Clients, Round, sock_lt}
use cpp_network_obj.Server.Sweep.{Each, sweep-Outcome}
use cpp_network_obj.Server.Served.{Served, Served-same, Served-trans}
use cpp_network_obj.Server.Select.{
  Sets, fill_read, fill_write, read_set, first_sock, leave_ready, read_data, write_data,
  after_select, do_net_events,
}
use cpp_network_obj.Server.Select.Events.{
  IsSound, IsSound-IsWell, CanServe, Counting, read_visit-VisitLaws, write_visit-VisitLaws,
}

module _ (bits : FdBits) where
  add-total :
      {c : CellClient} (b : bits.Bits)
      → IsSound c
      → (b' : bits.Bits) × (add bits c.sockfd b ≡ some b')
  unfolding add
  add-total {c} b sound = (
    bits.set sound.number b,
    rw sound.open_socket (rw (lt→ltb sound.number max_fd sound.inside) refl),
  )

  fill_read-total :
      (m : Clients) (top : Socket) (b : bits.Bits)
      → Each IsSound m
      → (r : Socket × bits.Bits) × (fill_read bits m top b ≡ some r)
  unfolding fill_read
  fill_read-total [] top b h = ((top, b), refl)
  fill_read-total ((k, c) ∷ m) top b ((v, sound), h) =
      let (b', e) = add-total {c = c} b sound in
      let (r, e') = fill_read-total m (if sock_lt top c.sockfd then c.sockfd else top) b' h in
      (r, rw e e')

  fill_write-total :
      (m : Clients) (any : Bool) (b : bits.Bits)
      → Each IsSound m
      → (r : Bool × bits.Bits) × (fill_write bits m any b ≡ some r)
  unfolding fill_write
  fill_write-total [] any b h = ((any, b), refl)
  fill_write-total ((k, c) ∷ m) any b ((v, sound), h) = elim (Bool-cases (need_write c)) [
    | inl w ↦
        let (b', e) = add-total {c = c} b sound in
        let (r, e') = fill_write-total m true b' h in (r, rw w (rw e e'))
    | inr w ↦ let (r, e') = fill_write-total m any b h in (r, rw w e')
  ]

  first_sock-total : (m : Clients) → 0 < length m → (top : Socket) × (first_sock bits m ≡ some top)
  first_sock-total [] h = absurd (omega arith)
  first_sock-total ((k, c) ∷ m) h = (c.sockfd, refl)

  -- The read set is made for any clients; where it is made anew there has to be one.
  read_set-total :
      (p : Sets bits) (srv : CellServer)
      → Each IsSound srv.clients
      → (srv.clients_change ≡ true → 0 < length srv.clients)
      → (p' : Sets bits) × (change : Bool) × (read_set bits p srv
          ≡ some (p', record srv { clients_change = change }))
  unfolding read_set
  read_set-total p srv h some_client = elim (Bool-cases srv.clients_change) [
    | inl e ↦
        let (top, found) = first_sock-total srv.clients (some_client e) in
        let ((max, b), filled) = fill_read-total srv.clients top (FdSet.zero bits p.fd_read) h in
        (
          record p { fd_read = b; max_sock = max; fd_read_bak = copy bits p.fd_read_bak b },
          false,
          rw e (rw found (rw filled refl)),
        )
    | inr e ↦
        (record p { fd_read = copy bits p.fd_read p.fd_read_bak }, srv.clients_change, rw e refl)
  ]

  module _ {S : Type 0} {e : NetEvent S} {count : S → ℤ} (counting : Counting e count) where
    -- The two walks, where select() has found something.
    walks :
        (r w : bits.Bits) (round : Round) (s : S) (srv : CellServer)
        → Each (CanServe round) srv.clients
        → (s₂ s₃ : S) × (srv₂ srv₃ : CellServer) × (read_data bits (some e) r round s srv
            ≡ some (s₂, srv₂))
          × (write_data bits (some e) w round s₂ srv₂ ≡ some (s₃, srv₃))
          × Served count s srv s₃ srv₃
          × Each IsSound srv₃.clients
    unfolding read_data write_data
    walks r w round s srv h =
        let o₁ =
          sweep-Outcome (some e) (read_visit-VisitLaws bits counting r round) srv.clients s h in
        let srv₂ : CellServer = record srv {
          clients = o₁.result.kept;
          closed = srv.closed ++ o₁.result.shut;
          clients_change = srv.clients_change || o₁.result.any;
        } in
        let o₂ =
          sweep-Outcome (some e) (write_visit-VisitLaws bits counting w round) o₁.result.kept
            o₁.result.state o₁.each in
        let srv₃ : CellServer = record srv₂ {
          clients = o₂.result.kept;
          closed = srv₂.closed ++ o₂.result.shut;
          clients_change = srv₂.clients_change || o₂.result.any;
        } in
        (
          o₁.result.state,
          o₂.result.state,
          srv₂,
          srv₃,
          rw o₁.runs refl,
          rw o₂.runs refl,
          Served-trans {s₁ = s} {srv₁ = srv} {srv₂ = srv₂}
              (record {
                shut = o₁.result.shut;
                closes = refl;
                balance = o₁.balance;
                counted = o₁.counted;
                keyed = o₁.keyed;
                well = λ valid.
                    All-map o₁.result.kept (λ kc (v, (sound, take)). IsSound-IsWell kc.1 sound)
                      o₁.each;
                waiting = refl;
              })
              (record {
                shut = o₂.result.shut;
                closes = refl;
                balance = o₂.balance;
                counted = o₂.counted;
                keyed = o₂.keyed;
                well = λ valid.
                    All-map o₂.result.kept (λ kc (v, sound). IsSound-IsWell kc.1 sound) o₂.each;
                waiting = refl;
              }),
          o₂.each,
        )

    CanServe-IsSound : (round : Round) (m : Clients) → Each (CanServe round) m → Each IsSound m
    CanServe-IsSound round m = All-map m (λ kc (v, can). (v, can.0))

    -- How the result of select() decides.
    abbrev Ends : Round → ℤ → S → CellServer → Option (Bool × S × Sets bits × CellServer) → Type 0
    Ends round ret s srv result =
        (go : Bool) × (s' : S) × (p' : Sets bits) × (srv' : CellServer) × (result
          ≡ some (go, s', p', srv'))
        × Served count s srv s' srv'
        × Each IsSound srv'.clients
        × (go ≡ (if leb_ℤ (pos 0) ret then true else round.eintr))

    after_select-Served :
        (ret : ℤ) (r w w' : bits.Bits) (round : Round) (s : S) (p : Sets bits) (srv : CellServer)
        (change : Bool)
        → Each (CanServe round) srv.clients
        → Ends round ret s srv (
            after_select bits
              (some e)
              ret
              r
              w
              w'
              round
              s
              p
              (record srv { clients_change = change }))
    unfolding after_select
    after_select-Served (pos zero) r w w' round s p srv change h = (
      true,
      s,
      record p { fd_read = r; fd_write = w' },
      record srv { clients_change = change },
      refl,
      Served-same s srv (record srv { clients_change = change }) refl refl refl,
      CanServe-IsSound round srv.clients h,
      refl,
    )
    after_select-Served (pos (suc n)) r w w' round s p srv change h =
        let (s₂, s₃, srv₂, srv₃, reads, writes, o, sound) =
          walks r w' round s (record srv { clients_change = change }) h in
        (
          true,
          s₃,
          record p { fd_read = r; fd_write = w' },
          srv₃,
          rw reads (rw writes refl),
          Served-trans (Served-same s srv (record srv { clients_change = change }) refl refl refl)
              o,
          sound,
          ground arith,
        )
    after_select-Served (negsuc n) r w w' round s p srv change h = (
      round.eintr,
      s,
      record p { fd_write = w },
      record srv { clients_change = change },
      refl,
      Served-same s srv (record srv { clients_change = change }) refl refl refl,
      CanServe-IsSound round srv.clients h,
      ground arith,
    )

    -- DoNetEvents with select, of a worker that has clients unless its clients have not changed, each
    -- with a socket inside the bitmap, valid buffers and possible replies of the kernel, returns. The
    -- sockets are split between the clients still served and those closed, none lost and none closed
    -- twice; the clients still served have valid buffers, and stand under their own sockets if they
    -- did so before; the owner's count falls by the number of those closed; and the worker's loop ends
    -- only if select() has failed for another reason than EINTR.
    pub do_net_events-Served :
        (round : Round) (s : S) (p : Sets bits) (srv : CellServer)
        → Each (CanServe round) srv.clients
        → (srv.clients_change ≡ true → 0 < length srv.clients)
        → (go : Bool) × (s' : S) × (p' : Sets bits) × (srv' : CellServer) × (do_net_events bits
              (some e)
              round
              s
              p
              srv
            ≡ some (go, s', p', srv'))
          × Served count s srv s' srv'
          × Each IsSound srv'.clients
          × (go ≡ (if leb_ℤ (pos 0) round.selected then true else round.eintr))
    unfolding do_net_events
    do_net_events-Served round s p srv h some_client =
        let sound = CanServe-IsSound round srv.clients h in
        let (p₁, change, made) = read_set-total p srv sound some_client in
        let srv₁ : CellServer = record srv { clients_change = change } in
        let ((any, w), filled) =
          fill_write-total srv.clients false (FdSet.zero bits p₁.fd_write) sound in
        let r = leave_ready bits round.readable srv.clients p₁.fd_read in
        let w' = if any then leave_ready bits round.writable srv.clients w else w in
        let (go, s', p', srv', runs, served, still_sound, goes) =
          after_select-Served round.selected r w w' round s p₁ srv change h in
        (go, s', p', srv', rw made (rw filled runs), served, still_sound, goes)
