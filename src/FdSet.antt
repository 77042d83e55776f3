-- ===== src/FdSet.antt =====
-- depends/include/CELLFDSet.hpp, as built on Linux: a bitmap of CELL_MAX_FD descriptors. The system's
-- FD_ZERO (here the memset), FD_SET, FD_CLR and FD_ISSET are a parameter.
pub mod Laws
use cpp_network_obj.Base.{
  ℕ, suc, ◌<◌, ◌≢◌, ◌≡◌, Bool, true, false, Option, none, some, ltb, if◌then◌else◌,
}
use cpp_network_obj.Buffer.{Socket, invalid_socket, fd}

-- CELL_MAX_FD
abbrev pub max_fd : ℕ
max_fd = 10240

-- The bit operations of the system, and what they are documented to do.
pub record FdBits : Type 1 where
  pub Bits : Type 0
  pub zeros : Bits
  pub set : ℕ → Bits → Bits
  pub clr : ℕ → Bits → Bits
  pub is_set : ℕ → Bits → Bool
  pub is_set-zeros : (n : ℕ) → is_set n zeros ≡ false
  pub is_set-set_self : (n : ℕ) (b : Bits) → is_set n (set n b) ≡ true
  pub is_set-set_ne : (n m : ℕ) (b : Bits) → n ≢ m → is_set m (set n b) ≡ is_set m b
  pub is_set-clr_self : (n : ℕ) (b : Bits) → is_set n (clr n b) ≡ false
  pub is_set-clr_ne : (n m : ℕ) (b : Bits) → n ≢ m → is_set m (clr n b) ≡ is_set m b

module _ (bits : FdBits) where
  open bits use {Bits, zeros, set, clr, is_set}

  -- add: a descriptor past the bitmap is logged and left out; INVALID_SOCKET would write before it.
  unfoldable pub add : Socket → Bits → Option Bits
  add invalid_socket b = none
  add (fd n) b = if ltb n max_fd then some (set n b) else some b

  -- del and has do not look at the bound: past the bitmap they touch other memory.
  unfoldable pub del : Socket → Bits → Option Bits
  del invalid_socket b = none
  del (fd n) b = if ltb n max_fd then some (clr n b) else none

  unfoldable pub has : Socket → Bits → Option Bool
  has invalid_socket b = none
  has (fd n) b = if ltb n max_fd then some (is_set n b) else none

  -- zero and copy, which overwrite the whole bitmap.
  unfoldable pub zero : Bits → Bits
  zero b = zeros

  unfoldable pub copy : Bits → Bits → Bits
  copy b other = other
