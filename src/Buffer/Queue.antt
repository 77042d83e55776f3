-- ===== src/Buffer/Queue.antt =====
-- The bytes in use after each operation of CELLBuffer, oldest first.
use cpp_network_obj.Base.{
  ℕ, zero, suc, ◌+◌, ◌-◌, ◌≤◌, ◌≡◌, refl, ap, ◌∙◌, List, [], ◌∷◌, ◌++◌, length, take, drop, slice,
  overwrite, length-take, take-overwrite, length-slice, take-drop, arith,
}
use cpp_network_obj.Buffer.{CellBuffer, contents, filled, push, popped, after_send}
use cpp_network_obj.Buffer.Invariant.{IsValid}

pub length-contents : {b : CellBuffer} → IsValid b → length (contents b) ≡ b.last
length-contents {b} v = omega (arith, length-take b.last b.mem)

-- Moving the tail of the used bytes to the front of the block drops the head.
take-overwrite_shift :
    (n last : ℕ) (mem : List ℕ)
    → n ≤ last
    → last ≤ length mem
    → take (last - n) (overwrite 0 (slice n (last - n) mem) mem) ≡ drop n (take last mem)
take-overwrite_shift n last mem h k =
    ap (λ m. take m (overwrite 0 (slice n (last - n) mem) mem))
      (omega (arith, length-slice n (last - n) mem))
    ∙ take-overwrite 0 (slice n (last - n) mem) mem (omega arith)
    ∙ take-drop n (last - n) mem
    ∙ ap (λ m. drop n (take m mem)) (omega arith)

drop_whole : (n : ℕ) (xs : List ℕ) → length xs ≤ n → drop n xs ≡ []
drop_whole zero [] h = refl
drop_whole (suc n) [] h = refl
drop_whole zero (x ∷ xs) h = absurd (omega arith)
drop_whole (suc n) (x ∷ xs) h = drop_whole n xs (omega arith)

pub contents-push :
    {b : CellBuffer} (bytes : List ℕ)
    → IsValid b
    → b.last + length bytes ≤ b.size
    → contents (push b bytes).1 ≡ contents b ++ bytes
unfolding push
contents-push {b} bytes v h = ground (arith, take-overwrite b.last bytes b.mem)

pub contents-popped :
    {b : CellBuffer} (n : ℕ) → IsValid b → n ≤ b.last → contents (popped b n) ≡ drop n (contents b)
unfolding popped
contents-popped {b} n v h =
    ground
      (arith, take-overwrite_shift n b.last b.mem, drop_whole n (contents b), length-contents v)

pub contents-after_send :
    {b : CellBuffer} (n : ℕ)
    → IsValid b
    → n ≤ b.last
    → contents (after_send b n) ≡ drop n (contents b)
unfolding after_send
contents-after_send {b} n v h =
    ground
      (arith, take-overwrite_shift n b.last b.mem, drop_whole n (contents b), length-contents v)

pub contents-filled :
    {b : CellBuffer} (bytes : List ℕ) → IsValid b → contents (filled b bytes) ≡ contents b ++ bytes
unfolding filled
contents-filled {b} bytes v = take-overwrite b.last bytes b.mem (omega arith)
