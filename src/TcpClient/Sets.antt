-- ===== src/TcpClient/Sets.antt =====
-- What the two sets of a client that waits with select() say, and what follows it.
use cpp_network_obj.Base.{
  ◌⊎◌, ℕ, ◌<◌, ◌≡◌, refl, ap, ◌∙◌, lt→ltb, Bool, true, false, ◌&&◌, Option, none, some, ℤ, pos,
  negsuc, if◌then◌else◌, inl, inr,
}
use cpp_network_obj.Buffer.{fd}
use cpp_network_obj.Client.{CellClient, need_write}
use cpp_network_obj.Client.Drain.{Handler}
use cpp_network_obj.FdSet.{FdBits, max_fd, add, has}
use cpp_network_obj.TcpClient.{TcpClient, is_run, close}
use cpp_network_obj.TcpClient.Select.{ClientRound, transfer, run_selected, on_run}

pub sign_cases : (z : ℤ) → ((n : ℕ) × (z ≡ negsuc n)) ⊎ ((n : ℕ) × (z ≡ pos n))
sign_cases (pos n) = inr (n, refl)
sign_cases (negsuc n) = inl (n, refl)

module _ {S : Type 0} (handle : Handler S) where
  -- What the sets say of the client after select().
  found :
      (bits : FdBits) (n : ℕ) (ready : Bool)
      → n < max_fd
      → has bits
          (fd n)
          (if ready then bits.set n bits.zeros else bits.clr n (bits.set n bits.zeros))
        ≡ some ready
  unfolding has
  found bits n true inside =
      rw (lt→ltb n max_fd inside) (rw (bits.is_set-set_self n bits.zeros) refl)
  found bits n false inside =
      rw (lt→ltb n max_fd inside) (rw (bits.is_set-clr_self n (bits.set n bits.zeros)) refl)

  not_asked : (bits : FdBits) (n : ℕ) → n < max_fd → has bits (fd n) bits.zeros ≡ some false
  unfolding has
  not_asked bits n inside = rw (lt→ltb n max_fd inside) (rw (bits.is_set-zeros n) refl)

  -- What follows select(), where it returned that.
  abbrev pub selected : ℕ → Bool → ClientRound → S → TcpClient → ℤ → Option (Bool × S × TcpClient)
  selected fuel asked round s t (negsuc m) = some (false, s, close t)
  selected fuel asked round s t (pos m) =
      transfer handle fuel round.readable (asked && round.writable) round s t

  -- What the two sets say after select().
  run_selected-sets :
      (bits : FdBits) (fuel n : ℕ) (asked : Bool) (round : ClientRound) (s : S) (t : TcpClient)
      → n < max_fd
      → run_selected handle bits fuel (fd n) asked round s t
        ≡ selected fuel asked round s t round.selected
  unfolding run_selected add
  run_selected-sets bits fuel n true round s t inside = elim (sign_cases round.selected) [
    | inl (m, e) ↦ rw (lt→ltb n max_fd inside) (rw e refl)
    | inr (m, e) ↦ rw (lt→ltb n max_fd inside) (
        rw e
          (rw (found bits n round.readable inside) (rw (found bits n round.writable inside) refl)))
  ]
  run_selected-sets bits fuel n false round s t inside = elim (sign_cases round.selected) [
    | inl (m, e) ↦ rw (lt→ltb n max_fd inside) (rw e refl)
    | inr (m, e) ↦
        rw (lt→ltb n max_fd inside)
          (rw e (rw (found bits n round.readable inside) (rw (not_asked bits n inside) refl)))
  ]

  -- OnRun of a client that runs.
  pub on_run-sets :
      (bits : FdBits) (fuel n : ℕ) (round : ClientRound) (s : S) (t : TcpClient) (c : CellClient)
      → is_run t ≡ some c
      → c.sockfd ≡ fd n
      → n < max_fd
      → on_run handle bits fuel round s t ≡ selected fuel (need_write c) round s t round.selected
  unfolding on_run
  on_run-sets bits fuel n round s t c run sock inside =
      ap
        (λ r. elim r as (λ x. Option (Bool × S × TcpClient)) [
          | none ↦ some (false, s, t)
          | some d ↦ run_selected handle bits fuel d.sockfd (need_write d) round s t
        ])
        run
      ∙ ap (λ k. run_selected handle bits fuel k (need_write c) round s t) sock
      ∙ run_selected-sets bits fuel n (need_write c) round s t inside
