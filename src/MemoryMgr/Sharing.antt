-- ===== src/MemoryMgr/Sharing.antt =====
-- The reference count of a block that more than one owner shares.
use cpp_network_obj.Base.{
  ℕ, zero, suc, ◌+ℤ◌, ◌+◌, ◌-◌, ◌<◌, ◌≡◌, refl, ap, ◌∙◌, true, false, Option, none, some, pos,
  negsuc, ◌>>=◌, arith,
}
use cpp_network_obj.Heap.{store, release, store_same}
use cpp_network_obj.MemoryMgr.{
  MemoryMgr, MemoryBlock, block_size, free_mem, free_memory, add_ref, alloc_mem, outside_block,
  max_memory_size,
}

-- A block that the manager takes from the system, because its size is above that of the pools: each
-- addRef lets it outlive one freeMem. With `k` more references it is still there after `k` calls of
-- freeMem, and the next one gives it back.
unfoldable pub shares : ℕ → ℕ → MemoryMgr → Option MemoryMgr
shares ℕ.zero p m = some m
shares (suc k) p m = add_ref p m >>= λ m'. shares k p m'

unfoldable pub frees : ℕ → ℕ → MemoryMgr → Option MemoryMgr
frees ℕ.zero p m = some m
frees (suc k) p m = free_mem p m >>= λ m'. frees k p m'

abbrev Holds : MemoryMgr → ℕ → ℕ → Type 0
Holds m at n = (b : MemoryBlock) × (m.memory at ≡ some b) × (b.pool ≡ false) × (b.refs ≡ pos n)

plus_one : (n : ℕ) → pos n +ℤ pos 1 ≡ pos (n + 1)
unfolding ◌+ℤ◌
plus_one n = ground arith

minus_one : (n : ℕ) → pos (suc n) +ℤ negsuc 0 ≡ pos n
unfolding ◌+ℤ◌
minus_one n = ground arith

back : (at : ℕ) → at + block_size - block_size ≡ at
back at = omega arith

module _ (at n : ℕ) (m : MemoryMgr) (b : MemoryBlock) (found : m.memory at ≡ some b) where
  add_ref_lem :
      b.refs ≡ pos n
      → add_ref (at + block_size) m
        ≡ some (record m { memory = store at (record b { refs = pos (n + 1) }) m.memory })
  unfolding add_ref
  add_ref_lem count = rw (back at) (rw found (rw count (rw (plus_one n) refl)))

  free_mem-shared :
      b.pool ≡ false
      → b.refs ≡ pos (suc (suc n))
      → free_mem (at + block_size) m
        ≡ some (record m { memory = store at (record b { refs = pos (suc n) }) m.memory })
  unfolding free_mem
  free_mem-shared out count =
      rw (back at) (rw found (rw out (rw count (rw (minus_one (suc n)) (ground arith)))))

  free_mem-last :
      b.pool ≡ false
      → b.refs ≡ pos 1
      → free_mem (at + block_size) m ≡ some (record m { memory = release at m.memory })
  unfolding free_mem
  free_mem-last out count = rw (back at) (rw found (rw out (rw count (rw (minus_one 0) refl))))

shares-Holds :
    (k at n : ℕ) (m : MemoryMgr)
    → Holds m at n
    → (m' : MemoryMgr) × (shares k (at + block_size) m ≡ some m') × Holds m' at (n + k)
unfolding shares
shares-Holds zero at n m (b, found, out, count) =
    (m, refl, (b, found, out, count ∙ ap pos (omega arith)))
shares-Holds (suc k) at n m (b, found, out, count) =
    let b' : MemoryBlock = record b { refs = pos (n + 1) } in
    let m₁ : MemoryMgr = record m { memory = store at b' m.memory } in
    let (m', e, (b'', found', out', count')) =
      shares-Holds k at (n + 1) m₁ (b', store_same at b' m.memory, out, refl) in
    (
      m',
      rw (add_ref_lem at n m b found count) e,
      (b'', found', out', count' ∙ ap pos (omega arith)),
    )

frees-Holds :
    (k at n : ℕ) (m : MemoryMgr)
    → Holds m at (suc n + k)
    → (m' : MemoryMgr) × (frees k (at + block_size) m ≡ some m') × Holds m' at (suc n)
unfolding frees
frees-Holds zero at n m (b, found, out, count) =
    (m, refl, (b, found, out, count ∙ ap pos (omega arith)))
frees-Holds (suc k) at n m (b, found, out, count) =
    let b' : MemoryBlock = record b { refs = pos (suc (n + k)) } in
    let m₁ : MemoryMgr = record m { memory = store at b' m.memory } in
    let (m', e, h) =
      frees-Holds k at n m₁ (b', store_same at b' m.memory, out, ap pos (omega arith)) in
    (m', rw (free_mem-shared at (n + k) m b found out (count ∙ ap pos (omega arith))) e, h)

-- A block larger than those of the pools has one owner more for each addRef: after `k` of them it
-- is still in memory after `k` calls of freeMem, and the next call gives it back to the system.
pub free_mem-shares :
    (base fresh size k : ℕ) (m : MemoryMgr)
    → max_memory_size < size
    → (m₁ m₂ m₃ m₄ : MemoryMgr) × (alloc_mem base fresh size m ≡ some (fresh + block_size, m₁))
      × (shares k (fresh + block_size) m₁ ≡ some m₂)
      × (frees k (fresh + block_size) m₂ ≡ some m₃)
      × ((b : MemoryBlock) × (m₃.memory fresh ≡ some b))
      × (free_mem (fresh + block_size) m₃ ≡ some m₄)
      × (m₄.memory fresh ≡ none)
unfolding alloc_mem release
free_mem-shares base fresh size k m large =
    let m₁ : MemoryMgr = record m { memory = store fresh outside_block m.memory } in
    let (m₂, e, h₂) =
      shares-Holds k fresh 1 m₁
        (outside_block, store_same fresh outside_block m.memory, refl, refl) in
    let (m₃, e', (b, found, out, one)) = frees-Holds k fresh 0 m₂ h₂ in
    (
      m₁,
      m₂,
      m₃,
      record m₃ { memory = release fresh m₃.memory },
      ground (arith, large),
      e,
      e',
      (b, found),
      free_mem-last fresh 0 m₃ b found out one,
      ground arith,
    )

-- A chain that fails in any case.
bind-none :
    {A B : Type 0} (o : Option A) (f : A → Option B) → ((a : A) → f a ≡ none) → (o >>= f) ≡ none
bind-none none f h = refl
bind-none (some a) f h = h a

free_mem-assertion :
    (at n : ℕ) (m : MemoryMgr) (b : MemoryBlock)
    → m.memory at ≡ some b
    → b.pool ≡ true
    → b.refs ≡ pos (suc (suc n))
    → free_mem (at + block_size) m ≡ none
unfolding free_mem free_memory
free_mem-assertion at n m b found pooled count = rw (back at) (
    rw found
      (rw pooled (bind-none b.owner _ (λ which. rw count (rw (minus_one (suc n)) (ground arith))))))

-- freeMem of a held block of a pool that an addRef has shared does not return: freeMemory asserts
-- that the count is 1.
pub free_mem-add_ref :
    (at : ℕ) (m : MemoryMgr) (b : MemoryBlock)
    → m.memory at ≡ some b
    → b.pool ≡ true
    → b.refs ≡ pos 1
    → (add_ref (at + block_size) m >>= free_mem (at + block_size)) ≡ none
free_mem-add_ref at m b found pooled one =
    let b' : MemoryBlock = record b { refs = pos 2 } in
    rw (add_ref_lem at 1 m b found one) (
      free_mem-assertion at 0 (record m { memory = store at b' m.memory }) b'
        (store_same at b' m.memory) pooled refl)
