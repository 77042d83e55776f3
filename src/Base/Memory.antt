-- ===== src/Base/Memory.antt =====
-- Blocks of memory: `memcpy` to an offset of a block, and from one.
use Prim.Native.Nat.{ℕ, ◌+◌, ◌≤◌}
use mathlib.Core.Path.{◌≡◌, refl, ap, sym, ◌∙◌}
use mathlib.Core.List.{List, ◌++◌, append_assoc}
use native.Mathlib.Omega.{arith}
use cpp_network_obj.Base.Lists.{
  length, take, drop, length-append, length-take, length-drop, take-append_eq, drop-append_eq,
  take-append_le,
}

module _ {ℓ} {A : Type ℓ} where
  -- memcpy(block + off, src, length src)
  unfoldable pub overwrite : ℕ → List A → List A → List A
  overwrite off src block = take off block ++ (src ++ drop (off + length src) block)

  -- The `n` cells from `off` on.
  abbrev pub slice : ℕ → ℕ → List A → List A
  slice off n block = take n (drop off block)

  pub length-overwrite :
      (off : ℕ) (src block : List A)
      → off + length src ≤ length block
      → length (overwrite off src block) ≡ length block
  unfolding overwrite
  length-overwrite off src block h = omega (
    arith,
    length-append (take off block) (src ++ drop (off + length src) block),
    length-append src (drop (off + length src) block),
    length-take off block,
    length-drop (off + length src) block,
  )

  -- What a copy leaves before its end: the old prefix, then the copied cells.
  pub take-overwrite :
      (off : ℕ) (src block : List A)
      → off ≤ length block
      → take (off + length src) (overwrite off src block) ≡ take off block ++ src
  unfolding overwrite
  take-overwrite off src block h =
      ap (take (off + length src))
        (sym (append_assoc (take off block) src (drop (off + length src) block)))
      ∙ take-append_eq (off + length src) (take off block ++ src) _
          (omega (arith, length-append (take off block) src, length-take off block))

  -- The copied cells, read back.
  pub slice-overwrite :
      (off : ℕ) (src block : List A)
      → off ≤ length block
      → slice off (length src) (overwrite off src block) ≡ src
  unfolding overwrite
  slice-overwrite off src block h =
      ap (take (length src)) (
        drop-append_eq off (take off block) (src ++ drop (off + length src) block)
          (omega (arith, length-take off block)))
      ∙ take-append_eq (length src) src _ refl

  -- A prefix that ends before the copy is untouched.
  pub take-overwrite_before :
      (n off : ℕ) (src block : List A)
      → n ≤ off
      → off ≤ length block
      → take n (overwrite off src block) ≡ take n (take off block)
  unfolding overwrite
  take-overwrite_before n off src block h k =
      take-append_le n (take off block) _ (omega (arith, length-take off block))

  pub length-slice :
      (off n : ℕ) (block : List A) → off + n ≤ length block → length (slice off n block) ≡ n
  length-slice off n block h = omega (arith, length-take n (drop off block), length-drop off block)
