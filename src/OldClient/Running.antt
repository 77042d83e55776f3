-- ===== src/OldClient/Running.antt =====
-- OnRun of the old client on a stream of messages.
use cpp_network_obj.Base.{
  ℕ, ◌+◌, ◌*◌, ◌^◌, ◌≤◌, ◌<◌, ◌≡◌, refl, ap, sym, ◌∙◌, true, some, List, [], ◌∷◌, ◌++◌, ℤ, pos, All,
  concat, map, length, take, drop, overwrite, length-take, length-overwrite, take-overwrite,
  append_assoc, append-nil, lt→ltb, leb_ℤ, ◌==◌, if◌then◌else◌, arith, Bool-cases, inl, inr,
  le_decode, take-drop, take-take,
}
use cpp_network_obj.Message.{data_length, cmd_field}
use cpp_network_obj.Buffer.{fd, received}
use cpp_network_obj.Buffer.Framing.{data_length-take}
use cpp_network_obj.Server.Dispatch.{same_some}
use cpp_network_obj.OldServer.Draining.{IsTotal, IsMessage, IsRest, Handled, message_loop-Emptied}
use cpp_network_obj.OldServer.Receiving.{rest-short, not_zero, not_over}
use cpp_network_obj.OldClient.{
  TcpClient, Notice, error_message, unknown_message, buff_size, is_run, on_net_msg, recv_data,
  on_run,
}

-- What a message adds to the log: nothing for an answer or for a new user, else a line.
abbrev pub notices_of : List ℕ → List Notice
notices_of m =
    if cmd_field m == 1
    then []
    else if cmd_field m == 3
    then []
    else if cmd_field m == 4
    then []
    else if cmd_field m == 5
    then error_message (data_length m) ∷ []
    else unknown_message (data_length m) ∷ []

on_net_msg_lem : (s : List Notice) (mem : List ℕ) → on_net_msg s mem ≡ some (s ++ notices_of mem)
unfolding on_net_msg
on_net_msg_lem s mem = elim (Bool-cases (cmd_field mem == 1)) [
  | inl e ↦ rw e (ap some (sym (append-nil s)))
  | inr e ↦ elim (Bool-cases (cmd_field mem == 3)) [
    | inl e₂ ↦ rw e (rw e₂ (ap some (sym (append-nil s))))
    | inr e₂ ↦ elim (Bool-cases (cmd_field mem == 4)) [
      | inl e₃ ↦ rw e (rw e₂ (rw e₃ (ap some (sym (append-nil s)))))
      | inr e₃ ↦ elim (Bool-cases (cmd_field mem == 5)) [
        | inl e₄ ↦ rw e (rw e₂ (rw e₃ (rw e₄ refl)))
        | inr e₄ ↦ rw e (rw e₂ (rw e₃ (rw e₄ refl)))
      ]
    ]
  ]
]

cmd_field-take : (n : ℕ) (mem : List ℕ) → 4 ≤ n → cmd_field (take n mem) ≡ cmd_field mem
unfolding cmd_field
cmd_field-take n mem h =
    ap le_decode
      (take-drop 2 2 (take n mem) ∙ ap (drop 2) (take-take 4 n mem h) ∙ sym (take-drop 2 2 mem))

notices_of-take : (n : ℕ) (mem : List ℕ) → 4 ≤ n → notices_of (take n mem) ≡ notices_of mem
notices_of-take n mem h = rw (cmd_field-take n mem h) (rw (data_length-take n mem h) refl)

-- The calls of OnNetMsg write their lines one after another.
Handled-notices :
    (s s' : List Notice) (ms : List (List ℕ))
    → Handled on_net_msg s ms s'
    → All IsMessage ms
    → s' ≡ s ++ concat (map notices_of ms)
Handled-notices s s' ms (Handled.done _) fs = sym (append-nil s)
Handled-notices s s' ms (Handled.handled {s' = s₁} {ms = rest} mem m frame called h)
      (((long, own), short), fs) =
    let enough : 4 ≤ data_length mem =
      omega (arith, length-take (data_length mem) mem, ap length frame, long) in
    let line : notices_of mem ≡ notices_of m =
      sym (notices_of-take (data_length mem) mem enough) ∙ ap notices_of frame in
    let first : s₁ ≡ s ++ notices_of m =
      same_some (sym called ∙ on_net_msg_lem s mem) ∙ ap (λ l. s ++ l) line in
    Handled-notices s₁ s' rest h fs
    ∙ ap (λ l. l ++ concat (map notices_of rest)) first
    ∙ append_assoc s (notices_of m) (concat (map notices_of rest))

on_net_msg-IsTotal : IsTotal on_net_msg
on_net_msg-IsTotal s mem h = (s ++ notices_of mem, on_net_msg_lem s mem)

-- Let a client that runs have a socket inside the set of select(), let select() return without an error
-- and find it readable, and let recv() store at least one byte and no more than it was offered. Let
-- the bytes in the message buffer and the new ones be whole messages, each shorter than 2 ^ 15, and a
-- rest that is none. With one more round of fuel than messages, OnRun returns true and the client goes
-- on running with its socket; the messages have been logged in order, those of an error or of an
-- unknown command with a line each; the rest is at the front of the buffer, and the next recv() is
-- offered room, since fewer than 2 ^ 15 bytes are left.
pub on_run-messages :
    (fd_setsize fuel n : ℕ) (ret : ℤ) (ms : List (List ℕ)) (rest bytes : List ℕ) (c : TcpClient)
    → c.sock ≡ fd n
    → c.is_connect ≡ true
    → n < fd_setsize
    → leb_ℤ (pos 0) ret ≡ true
    → 0 < length bytes
    → c.last_pos + length bytes ≤ buff_size * 5
    → length c.msg_buf ≡ buff_size * 10
    → take c.last_pos c.msg_buf ++ bytes ≡ concat ms ++ rest
    → All IsMessage ms
    → IsRest rest
    → length ms < fuel
    → (c' : TcpClient) × (on_run fd_setsize fuel ret true (received bytes) c ≡ some (true, c'))
      × (is_run c' ≡ true)
      × (c'.sock ≡ c.sock)
      × (c'.notices ≡ c.notices ++ concat (map notices_of ms))
      × (take c'.last_pos c'.msg_buf ≡ rest)
      × (length c'.msg_buf ≡ buff_size * 10)
      × (c'.last_pos < 2 ^ 15)
unfolding on_run recv_data is_run
on_run-messages fd_setsize fuel n ret ms rest bytes c sock connected inside selected some_bytes fits
      size holds fs stop enough =
    let mem = overwrite c.last_pos bytes c.msg_buf in
    let long : length mem ≡ length c.msg_buf =
      length-overwrite c.last_pos bytes c.msg_buf (omega (arith, fits, size)) in
    let e =
      message_loop-Emptied on_net_msg-IsTotal ms fuel c.notices mem rest (c.last_pos + length bytes)
        enough (omega (arith, long, size, fits)) fs stop
        (take-overwrite c.last_pos bytes c.msg_buf (omega (arith, fits, size)) ∙ holds) in
    (
      record c { msg_buf = e.block; last_pos = length rest; notices = e.state },
      rw sock (
          rw connected (
            rw (lt→ltb n fd_setsize inside) (
              rw selected (
                rw (not_zero (length bytes) some_bytes) (
                  rw (not_over (buff_size * 5) (c.last_pos + length bytes) fits)
                    (rw e.runs refl)))))),
      rw sock connected,
      refl,
      Handled-notices c.notices e.state ms e.called fs,
      e.left,
      e.size ∙ long ∙ size,
      rest-short rest stop,
    )
