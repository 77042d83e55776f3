-- ===== src/Client/Flushing.antt =====
-- The send buffer of a client whose socket stays writable.
use cpp_network_obj.Base.{
  ℕ, ◌-◌, ◌≤◌, ◌<◌, ◌≡◌, refl, ap, ◌∙◌, true, false, Option, some, List, [], ◌∷◌, All, min, ltb,
  ◌==◌, ℤ, pos, length, ◌>>=◌, arith, Bool-cases, inl, inr,
}
use cpp_network_obj.Buffer.{CellBuffer, is_valid, sent, write_to_socket, after_send, need_write}
use cpp_network_obj.Client.{CellClient, send_data_real, reset_dt_send}
use cpp_network_obj.Client

-- SendDataReal, again and again, where send() takes at most so many of the bytes that it is offered.
unfoldable pub flushes : List ℕ → CellClient → Option CellClient
unfolding send_data_real
flushes [] c = some c
flushes (k ∷ ks) c = send_data_real c (sent (min k c.send_buff.last)) >>= λ (ret, c'). flushes ks c'

after_send-last : (b : CellBuffer) (n : ℕ) → n ≤ b.last → (after_send b n).last ≡ b.last - n
unfolding after_send
after_send-last b n h = ground arith

-- One call of SendDataReal with a kernel that takes something.
flush_step :
    (k : ℕ) (c : CellClient)
    → 0 < k
    → is_valid c.sockfd ≡ true
    → (ret : ℤ) × (c' : CellClient) × (send_data_real c (sent (min k c.send_buff.last))
        ≡ some (ret, c'))
      × (c'.send_buff.last ≡ c.send_buff.last - min k c.send_buff.last)
      × (c'.sockfd ≡ c.sockfd)
unfolding send_data_real reset_dt_send write_to_socket
flush_step k c pos_k open_sock =
    let b = c.send_buff in
    let n = min k b.last in
    elim (Bool-cases (ltb 0 b.last)) [
      | inr e ↦ (pos 0, record c { dt_send = pos 0 }, rw e refl, ground arith, refl)
      | inl e ↦ (
        pos n,
        record c { dt_send = pos 0; send_buff = after_send b n },
        rw e (rw open_sock (rw (some_taken k b.last pos_k e) (rw (fits k b.last) refl))),
        after_send-last b n (omega arith),
        refl,
      )
    ]
  where
    some_taken : (k last : ℕ) → 0 < k → ltb 0 last ≡ true → (min k last == 0) ≡ false
    some_taken k last h e = ground arith

    fits : (k last : ℕ) → ltb last (min k last) ≡ false
    fits k last = ground arith

-- Where the socket is valid and send() takes at least one byte whenever it is offered any, as many
-- calls of SendDataReal as the buffer holds bytes leave it empty, and the client no longer asks to write.
pub flushes-empty :
    (ks : List ℕ) (c : CellClient)
    → is_valid c.sockfd ≡ true
    → All (λ k. 0 < k) ks
    → c.send_buff.last ≤ length ks
    → (c' : CellClient) × (flushes ks c ≡ some c')
      × (c'.send_buff.last ≡ 0)
      × (Client.need_write c' ≡ false)
unfolding flushes Client.need_write need_write
flushes-empty [] c open_sock h enough = (c, refl, omega arith, ground arith)
flushes-empty (k ∷ ks) c open_sock (pos_k, h) enough =
    let (ret, c', runs, last, same) = flush_step k c pos_k open_sock in
    let (c'', rest, empty, quiet) =
      flushes-empty ks c' (ap is_valid same ∙ open_sock) h (omega (arith, last)) in
    (c'', rw runs rest, empty, quiet)
