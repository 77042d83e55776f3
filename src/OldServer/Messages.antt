-- ===== src/OldServer/Messages.antt =====
-- The loop over the messages before and after the buffers had a class of their own.
use cpp_network_obj.Base.{
  ℕ, zero, suc, ◌-◌, ◌≡◌, refl, ap₂, sym, ◌∙◌, true, false, Option, some, List, leb, ltb, slice,
  take, drop, overwrite, ◌>>=◌, arith, Bool-cases, >>=-eq-some, none, inl, inr,
}
use cpp_network_obj.Message.{data_length}
use cpp_network_obj.Buffer.{CellBuffer, header_size, popped, pop}
use cpp_network_obj.Buffer
use cpp_network_obj.Client.{CellClient, has_msg, front_msg, pop_front_msg}
use cpp_network_obj.Client.Drain.{Handler, drain}
use cpp_network_obj.OldServer.{is_length, message_loop}

-- A handler that leaves the client alone.
abbrev pub of_owner : {S : Type 0} → (S → List ℕ → Option S) → Handler S
of_owner f s c mem = f s mem >>= λ s'. some (s', c)

-- The owner's state, and the block of the receive buffer with the count of its bytes.
abbrev pub seen : {S : Type 0} → Option (S × CellClient) → Option (S × List ℕ × ℕ)
seen r = r >>= λ (s, c). some (s, c.recv_buff.mem, c.recv_buff.last)

overwrite_none : (n : ℕ) (xs mem : List ℕ) → n ≡ 0 → overwrite 0 (take n xs) mem ≡ mem
unfolding overwrite
overwrite_none n xs mem h = rw h refl

not_over : (n last : ℕ) → leb n last ≡ true → ltb last n ≡ false
not_over n last h = ground arith

popped-block :
    (b : CellBuffer) (n : ℕ)
    → ((popped b n).mem ≡ overwrite 0 (slice n (b.last - n) b.mem) b.mem)
      × ((popped b n).last ≡ b.last - n)
unfolding popped
popped-block b n = elim (Bool-cases (ltb 0 (b.last - n))) [
  | inl h ↦ (rw h refl, refl)
  | inr h ↦
      (rw h (sym (overwrite_none (b.last - n) (drop n b.mem) b.mem (ground (arith, h)))), refl)
]

-- A step of each loop, on a whole message.
has_msg-whole :
    (c : CellClient)
    → leb 4 c.recv_buff.last ≡ true
    → has_msg c ≡ leb (data_length c.recv_buff.mem) c.recv_buff.last
unfolding has_msg Buffer.has_msg
has_msg-whole c h = rw h refl

has_msg-short : (c : CellClient) → leb 4 c.recv_buff.last ≡ false → has_msg c ≡ false
unfolding has_msg Buffer.has_msg
has_msg-short c h = rw h refl

pop_front_msg-whole :
    (c : CellClient)
    → has_msg c ≡ true
    → leb (data_length c.recv_buff.mem) c.recv_buff.last ≡ true
    → pop_front_msg c
      ≡ some (record c { recv_buff = popped c.recv_buff (data_length c.recv_buff.mem) })
unfolding pop_front_msg front_msg pop
pop_front_msg-whole c h fits =
    rw h (rw (not_over (data_length c.recv_buff.mem) c.recv_buff.last fits) refl)

pub message_loop_go :
    {S : Type 0} (f : S → List ℕ → Option S) (fuel : ℕ) (s : S) (mem : List ℕ) (last : ℕ)
    → leb 4 last ≡ true
    → is_length mem ≡ true
    → leb (data_length mem) last ≡ true
    → message_loop f (suc fuel) s mem last ≡ (
        f s mem >>= λ s'.
        message_loop f fuel s'
          (overwrite 0 (slice (data_length mem) (last - data_length mem) mem) mem)
          (last - data_length mem))
unfolding message_loop
message_loop_go f fuel s mem last header positive fits =
    rw (header, message_loop) (rw (positive, message_loop) (rw (fits, message_loop) refl))

not_some : {A : Type 0} {a : A} → none ≡ some a → ⊥
not_some h = cc

-- Wherever the loop of the old RecvData returns, for an owner that leaves the client alone, the loop of
-- DoMsg over a client with the same bytes returns too, has given the owner the same messages, and
-- leaves the same bytes.
pub message_loop-drain :
    {S : Type 0} (f : S → List ℕ → Option S) (fuel : ℕ) (s : S) (c : CellClient)
    (r : S × List ℕ × ℕ)
    → message_loop f fuel s c.recv_buff.mem c.recv_buff.last ≡ some r
    → seen (drain (of_owner f) fuel s c) ≡ some r
unfolding message_loop drain front_msg
message_loop-drain f zero s c r h = cc
message_loop-drain f (suc fuel) s c r h =
    let mem = c.recv_buff.mem in
    let last = c.recv_buff.last in
    elim (Bool-cases (leb 4 last)) [
      | inr short ↦
          let stops : message_loop f (suc fuel) s mem last ≡ some (s, mem, last) =
            rw (short, message_loop) refl in
          rw (has_msg-short c short, drain) (sym stops ∙ h)
      | inl header ↦ elim (Bool-cases (is_length mem)) [
        | inr negative ↦
            let undefined : message_loop f (suc fuel) s mem last ≡ none =
              rw (header, message_loop) (rw (negative, message_loop) refl) in
            absurd (not_some (sym undefined ∙ h))
        | inl positive ↦ elim (Bool-cases (leb (data_length mem) last)) [
          | inr part ↦
              let stops : message_loop f (suc fuel) s mem last ≡ some (s, mem, last) =
                rw (header, message_loop)
                  (rw (positive, message_loop) (rw (part, message_loop) refl)) in
              rw (has_msg-whole c header ∙ part, drain) (sym stops ∙ h)
          | inl fits ↦
              let whole : has_msg c ≡ true = has_msg-whole c header ∙ fits in
              let b = popped c.recv_buff (data_length mem) in
              let (same, end) = popped-block c.recv_buff (data_length mem) in
              let (s', goes, rest) =
                >>=-eq-some (f s mem) (λ s'. message_loop f fuel s' _ _)
                  (sym (message_loop_go f fuel s mem last header positive fits) ∙ h) in
              let again =
                message_loop-drain f fuel s' (record c { recv_buff = b }) r
                  (ap₂ (message_loop f fuel s') same end ∙ rest) in
              rw (whole, drain) (rw goes (rw (pop_front_msg-whole c whole fits) again))
        ]
      ]
    ]
