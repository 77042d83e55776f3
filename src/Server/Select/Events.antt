-- ===== src/Server/Select/Events.antt =====
-- A worker that waits with select: what its walks over the clients do.
use cpp_network_obj.Base.{
  ℕ, ◌<◌, ◌≡◌, refl, Bool, true, false, not, some, ℤ, pos, negsuc, ◌+ℤ◌, lt→ltb, if◌then◌else◌,
  Bool-cases, inl, inr,
}
use cpp_network_obj.Buffer.{CellBuffer, fd}
use cpp_network_obj.Buffer.Invariant.{IsValid}
use cpp_network_obj.Buffer.Honest.{CanStore, CanTake, read_from_socket-total, write_to_socket-total}
use cpp_network_obj.Client.{CellClient, need_write, recv_data, send_data_real, reset_dt_send}
use cpp_network_obj.FdSet.{FdBits, max_fd, has}
use cpp_network_obj.NetEvent.{NetEvent}
use cpp_network_obj.Server.{Round, notify_leave, is_error}
use cpp_network_obj.Server
use cpp_network_obj.Server.Sweep.{VisitLaws}
use cpp_network_obj.Server.Served.{IsWell}
use cpp_network_obj.Server.Select.{read_visit, write_visit}

-- A client with a socket inside the bitmap and two valid buffers.
pub record IsSound (c : CellClient) : Type 0 where
  pub number : ℕ
  pub open_socket : c.sockfd ≡ fd number
  pub inside : number < max_fd
  pub recv_valid : IsValid c.recv_buff
  pub send_valid : IsValid c.send_buff

pub with_recv :
    {c : CellClient} (b : CellBuffer) → IsSound c → IsValid b → IsSound (record c { recv_buff = b })
with_recv b sound v = record {
  number = sound.number;
  open_socket = sound.open_socket;
  inside = sound.inside;
  recv_valid = v;
  send_valid = sound.send_valid;
}

pub with_send :
    {c : CellClient} (b : CellBuffer) (dt : ℤ)
    → IsSound c
    → IsValid b
    → IsSound (record c { send_buff = b; dt_send = dt })
with_send b dt sound v = record {
  number = sound.number;
  open_socket = sound.open_socket;
  inside = sound.inside;
  recv_valid = sound.recv_valid;
  send_valid = v;
}

pub IsSound-IsWell : (c : CellClient) → IsSound c → IsWell c
IsSound-IsWell c sound = (sound.recv_valid, sound.send_valid)

-- What the kernel does for the client in the round is possible.
abbrev pub CanServe : Round → CellClient → Type 0
CanServe round c =
    IsSound c
    × CanStore (round.recv c.sockfd) c.recv_buff
    × CanTake (round.send c.sockfd) c.send_buff

abbrev pub CanWrite : Round → CellClient → Type 0
CanWrite round c = IsSound c × CanTake (round.send c.sockfd) c.send_buff

-- An owner that counts its clients: one less at each OnNetLeave, no change at OnNetRecv.
pub record Counting {S : Type 0} (e : NetEvent S) (count : S → ℤ) : Type 0 where
  pub leaves : (s : S) (c : CellClient) → count (e.on_net_leave s c) ≡ count s +ℤ negsuc 0
  pub receives : (s : S) (c : CellClient) → count (e.on_net_recv s c) ≡ count s

module _ (bits : FdBits) where
  has-total :
      {c : CellClient} (b : bits.Bits)
      → IsSound c
      → (ready : Bool) × (has bits c.sockfd b ≡ some ready)
  unfolding has
  has-total {c} b sound = (
    bits.is_set sound.number b,
    rw sound.open_socket (rw (lt→ltb sound.number max_fd sound.inside) refl),
  )

  asked_total :
      (c : CellClient) (b : bits.Bits)
      → IsSound c
      → (ready : Bool) × ((if need_write c then has bits c.sockfd b else some false) ≡ some ready)
  asked_total c b sound = elim (Bool-cases (need_write c)) [
    | inl h ↦ let (ready, e) = has-total {c = c} b sound in (ready, rw h e)
    | inr h ↦ (false, rw h refl)
  ]

  module _ {S : Type 0} {e : NetEvent S} {count : S → ℤ} (counting : Counting e count) where
    pub read_visit-VisitLaws :
        (b : bits.Bits) (round : Round)
        → VisitLaws
            (some e)
            (read_visit bits (some e) b round)
            (CanServe round)
            (CanWrite round)
            count
    unfolding Server.recv_data recv_data
    read_visit-VisitLaws b round = record {
      visits = λ s c (sound, store, take).
          let (ready, has_lem) = has-total {c = c} b sound in
          let ((ret, buff), runs, valid) =
            read_from_socket-total {b = c.recv_buff} (round.recv c.sockfd) sound.recv_valid store in
          let c' : CellClient = record c { recv_buff = buff } in
          elim (Bool-cases ready) [
            | inl h ↦ (
              (not (is_error ret), e.on_net_recv s c', c'),
              rw has_lem (rw h (rw runs refl)),
              refl,
              (λ k. (with_recv buff sound valid, take)),
              counting.receives s c',
            )
            | inr h ↦ ((true, s, c), rw has_lem (rw h refl), refl, (λ k. (sound, take)), refl)
          ];
      leaves = counting.leaves;
    }

    pub write_visit-VisitLaws :
        (b : bits.Bits) (round : Round)
        → VisitLaws (some e) (write_visit bits (some e) b round) (CanWrite round) IsSound count
    unfolding send_data_real reset_dt_send
    write_visit-VisitLaws b round = record {
      visits = λ s c (sound, take).
          let (ready, asked) = asked_total c b sound in
          let ((ret, buff), runs, valid) =
            write_to_socket-total {b = c.send_buff} c.sockfd (round.send c.sockfd) sound.send_valid
              take in
          let c' : CellClient = record c { send_buff = buff; dt_send = pos 0 } in
          elim (Bool-cases ready) [
            | inl h ↦ (
              (not (is_error ret), s, c'),
              rw asked (rw h (rw runs refl)),
              refl,
              (λ k. with_send buff (pos 0) sound valid),
              refl,
            )
            | inr h ↦ ((true, s, c), rw asked (rw h refl), refl, (λ k. sound), refl)
          ];
      leaves = counting.leaves;
    }
