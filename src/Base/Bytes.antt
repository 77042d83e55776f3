-- ===== src/Base/Bytes.antt =====
-- Little-endian numbers in memory, as the x86 hosts of the program lay them out.
use Prim.Native.Nat.{ℕ, zero, suc, ◌+◌, ◌*◌, ◌/◌, ◌%◌, ◌^◌, ◌<◌}
use mathlib.Core.Path.{◌≡◌, refl, ap}
use mathlib.Core.List.{List, [], ◌∷◌}
use native.Mathlib.Nat.{pow-suc}
use native.Mathlib.Omega.{arith}
use cpp_network_obj.Base.Lists.{length}

unfoldable pub le_encode : ℕ → ℕ → List ℕ
le_encode zero v = []
le_encode (suc w) v = v % 256 ∷ le_encode w (v / 256)

unfoldable pub le_decode : List ℕ → ℕ
le_decode [] = 0
le_decode (b ∷ bs) = b + 256 * le_decode bs

pub length-le_encode : (w v : ℕ) → length (le_encode w v) ≡ w
unfolding le_encode
length-le_encode zero v = refl
length-le_encode (suc w) v = ap suc (length-le_encode w (v / 256))

pub le_decode-le_encode : (w v : ℕ) → v < 256 ^ w → le_decode (le_encode w v) ≡ v
unfolding le_encode le_decode
le_decode-le_encode zero v h = omega arith
le_decode-le_encode (suc w) v h =
    omega (arith, le_decode-le_encode w (v / 256) (omega (arith, pow-suc 256 w)))
