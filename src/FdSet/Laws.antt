-- ===== src/FdSet/Laws.antt =====
-- CELLFDSet as a set of descriptors.
use cpp_network_obj.Base.{
  ℕ, ℕ_discrete, ◌<◌, ◌≡◌, true, false, some, ◌==◌, if◌then◌else◌, arith, ◌>>=◌,
}
use cpp_network_obj.Buffer.{fd}
use cpp_network_obj.FdSet.{FdBits, max_fd, add, del, has, zero}

module _ (bits : FdBits) where
  open bits use {
    Bits, set, clr, is_set, is_set-set_self, is_set-set_ne, is_set-clr_self, is_set-clr_ne,
  }

  -- For descriptors inside the bitmap, has answers after add, del and zero as for a set: a socket is
  -- in it after its own add, not after its own del, and an operation on another socket or none
  -- changes nothing; after zero nothing is in it.
  pub has_laws :
      (n m : ℕ) (b : Bits)
      → n < max_fd
      → m < max_fd
      → ((add bits (fd n) b >>= has bits (fd m)) ≡ some (if n == m then true else is_set m b))
        × ((del bits (fd n) b >>= has bits (fd m)) ≡ some (if n == m then false else is_set m b))
        × (has bits (fd m) (zero bits b) ≡ some false)
  unfolding add del has zero
  has_laws n m b hn hm = elim (ℕ_discrete n m) [
    | yes e ↦ rw e (ground (arith, is_set-set_self m b, is_set-clr_self m b, bits.is_set-zeros m))
    | no ne ↦ ground (arith, is_set-set_ne n m b ne, is_set-clr_ne n m b ne, bits.is_set-zeros m)
  ]
