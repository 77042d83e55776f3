-- ===== src/OldServer/Receiving.antt =====
-- RecvData of the old worker.
use cpp_network_obj.Base.{
  ℕ, ◌+◌, ◌^◌, ◌≤◌, ◌<◌, ◌≡◌, refl, ◌∙◌, false, Option, some, List, ◌++◌, pos, All, concat, length,
  take, overwrite, take-overwrite, length-overwrite, ltb, ◌==◌, arith,
}
use cpp_network_obj.Buffer.{received}
use cpp_network_obj.OldServer.{buff_size, ClientSocket, recv_data}
use cpp_network_obj.OldServer.Draining.{IsTotal, IsMessage, IsRest, Handled, message_loop-Emptied}

pub rest-short : (rest : List ℕ) → IsRest rest → length rest < 2 ^ 15
rest-short rest stop = ground (arith, stop)

pub not_zero : (n : ℕ) → 0 < n → (n == 0) ≡ false
not_zero n h = ground arith

pub not_over : (n last : ℕ) → last ≤ n → ltb n last ≡ false
not_over n last h = ground arith

-- Let a message buffer of full size together with the bytes that recv() stores, at least one and no
-- more than fit, hold whole messages, each shorter than 2 ^ 15, and a rest that is none. With one more
-- round of fuel than messages, and a handler that returns on every message in memory, RecvData
-- returns 0: after OnNetRecv the handler has been called on each message once and in order, the rest is at the front of
-- the buffer, and the next recv() is offered room, since fewer than 2 ^ 15 bytes are left.
pub recv_data-messages :
    {S : Type 0} {f : S → List ℕ → Option S} (total : IsTotal f) (on_net_recv : S → S) (fuel : ℕ)
    (ms : List (List ℕ)) (rest bytes : List ℕ) (s : S) (c : ClientSocket)
    → 0 < length bytes
    → c.last_pos + length bytes ≤ buff_size
    → length c.msg_buf ≡ buff_size
    → take c.last_pos c.msg_buf ++ bytes ≡ concat ms ++ rest
    → All IsMessage ms
    → IsRest rest
    → length ms < fuel
    → (s' : S) × (c' : ClientSocket) × (recv_data f on_net_recv fuel (received bytes) s c
        ≡ some (pos 0, s', c'))
      × Handled f (on_net_recv s) ms s'
      × (take c'.last_pos c'.msg_buf ≡ rest)
      × (length c'.msg_buf ≡ buff_size)
      × (c'.last_pos < 2 ^ 15)
unfolding recv_data
recv_data-messages total on_net_recv fuel ms rest bytes s c some_bytes fits size holds fs stop
      enough =
    let mem = overwrite c.last_pos bytes c.msg_buf in
    let long : length mem ≡ length c.msg_buf =
      length-overwrite c.last_pos bytes c.msg_buf (omega (arith, fits, size)) in
    let e =
      message_loop-Emptied total ms fuel (on_net_recv s) mem rest (c.last_pos + length bytes) enough
        (omega (arith, long, size, fits)) fs stop
        (take-overwrite c.last_pos bytes c.msg_buf (omega (arith, fits, size)) ∙ holds) in
    (
      e.state,
      record c { msg_buf = e.block; last_pos = length rest },
      rw (not_zero (length bytes) some_bytes)
          (rw (not_over buff_size (c.last_pos + length bytes) fits) (rw e.runs refl)),
      e.called,
      e.left,
      e.size ∙ long ∙ size,
      rest-short rest stop,
    )
