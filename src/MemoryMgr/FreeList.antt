-- ===== src/MemoryMgr/FreeList.antt =====
-- The free list of a pool: who has which block.
use cpp_network_obj.Base.{
  ℕ, zero, suc, ◌+◌, ◌-◌, ◌<◌, ◌≡◌, ◌≢◌, refl, sym, subst, ◌∙◌, true, some, List, [], ◌∷◌, ◌++◌,
  pos, All, All-append_left, All-append_right, arith, false, ◌==◌, append-nil, append_assoc, ◌+ℤ◌,
}
use cpp_network_obj.Heap.{
  Heap, store, store_same, store_other, Distinct, Chain, Chain-frame, store-frame, Distinct-middle,
  Distinct-front, All-remove,
}
use cpp_network_obj.MemoryMgr.{
  block_size, MemoryBlock, MemoryAlloc, PoolName, fresh_block, link_blocks, init_memory, take_block,
  alloc_memory, free_memory,
}

abbrev pub IsFree : MemoryBlock → Type 0
IsFree b = (b.pool ≡ true) × (b.refs ≡ pos 0)

abbrev pub IsHeld : Heap MemoryBlock → ℕ → Type 0
IsHeld h x = (b : MemoryBlock) × (h x ≡ some b) × (b.pool ≡ true) × (b.refs ≡ pos 1)

-- A pool that is set up, whose free blocks are in its list and whose other blocks are held.
pub record Shared (a : MemoryAlloc) (h : Heap MemoryBlock) (free held : List ℕ) : Type 0 where
  pub ready : 0 < a.buf
  pub list : Chain (λ b. b.next) IsFree h a.header free
  pub out : All (IsHeld h) held
  pub apart : Distinct (free ++ held)

-- The blocks of a pool from the one at `at` on.
abbrev pub addresses : ℕ → ℕ → ℕ → List ℕ
addresses real_size zero at = []
addresses real_size (suc k) at = at ∷ addresses real_size k (at + real_size)

addresses-above :
    (real_size k at x : ℕ) → 0 < real_size → x < at → All (λ y. x ≢ y) (addresses real_size k at)
addresses-above real_size zero at x p h = tt
addresses-above real_size (suc k) at x p h =
    (ground arith, addresses-above real_size k (at + real_size) x p (omega arith))

addresses-Distinct : (real_size k at : ℕ) → 0 < real_size → Distinct (addresses real_size k at)
addresses-Distinct real_size zero at p = tt
addresses-Distinct real_size (suc k) at p = (
  addresses-above real_size k (at + real_size) at p (omega arith),
  addresses-Distinct real_size k (at + real_size) p,
)

-- The loop of initMemory, from a last block that ends its list.
link_blocks_lem :
    (name : PoolName) (real_size k n at last : ℕ) (h : Heap MemoryBlock) (b : MemoryBlock)
    → 0 < real_size
    → 0 < last
    → last < at
    → h last ≡ some b
    → IsFree b
    → b.next ≡ 0
    → (h' : Heap MemoryBlock) × (link_blocks name real_size k n at last h ≡ some h')
      × Chain (λ b. b.next) IsFree h' last (last ∷ addresses real_size k at)
      × ((q : ℕ) → q < last → h' q ≡ h q)
unfolding link_blocks
link_blocks_lem name real_size zero n at last h b real nonzero below found free end =
    (h, refl, (refl, nonzero, (b, found, free, end)), (λ q less. refl))
link_blocks_lem name real_size (suc k) n at last h b real nonzero below found free end =
    let h₁ = store at (fresh_block name n) h in
    let b' : MemoryBlock = record b { next = at } in
    let h₂ = store last b' h₁ in
    let found₁ : h₁ last ≡ some b =
      store_other at last (fresh_block name n) h (λ e. absurd (omega (arith, e))) ∙ found in
    let found₂ : h₂ at ≡ some (fresh_block name n) =
      store_other last at b' h₁ (λ e. absurd (omega (arith, e)))
      ∙ store_same at (fresh_block name n) h in
    let (h', e, chain, frame) =
      link_blocks_lem name real_size k (n + 1) (at + real_size) at h₂ (fresh_block name n) real
        (omega arith) (omega arith) found₂ (refl, refl) refl in
    (
      h',
      rw found₁ e,
      (refl, nonzero, (b', frame last below ∙ store_same last b' h₁, free, chain)),
      (λ q less.
          frame q (omega (arith, less))
          ∙ store_other last q b' h₁ (λ e. absurd (omega (arith, e, less)))
          ∙ store_other at q (fresh_block name n) h (λ e. absurd (omega (arith, e, less)))),
    )

-- The first initialisation of a pool of at least one block makes all of its blocks free, each once,
-- in the order of their addresses, and changes nothing below them.
pub init_memory-Shared :
    (base k : ℕ) (a : MemoryAlloc) (h : Heap MemoryBlock)
    → 0 < base
    → a.block_num ≡ suc k
    → (a' : MemoryAlloc) × (h' : Heap MemoryBlock) × (init_memory base a h ≡ some (a', h'))
      × Shared a' h' (addresses (a.size + block_size) (suc k) base) []
      × ((q : ℕ) → q < base → h' q ≡ h q)
unfolding init_memory
init_memory-Shared base k a h pos_base e =
    let real_size = a.size + block_size in
    let first = fresh_block a.name 0 in
    let one_less : a.block_num - 1 ≡ k = omega (arith, e) in
    let (h', runs, chain, frame) =
      link_blocks_lem a.name real_size k 1 (base + real_size) base (store base first h) first
        (omega arith) pos_base (omega arith) (store_same base first h) (refl, refl) refl in
    (
      record a { buf = base; header = base },
      h',
      rw one_less (rw runs),
      record {
        ready = pos_base;
        list = chain;
        out = tt;
        apart =
            subst Distinct (sym (append-nil (addresses real_size (suc k) base)))
              (addresses-Distinct real_size (suc k) base (omega arith));
      },
      (λ q less. frame q less ∙ store_other base q first h (λ e. absurd (omega (arith, e, less)))),
    )

IsHeld-frame :
    (x : ℕ) (b : MemoryBlock) (h : Heap MemoryBlock) (held : List ℕ)
    → All (λ y. x ≢ y) held
    → All (IsHeld h) held
    → All (IsHeld (store x b h)) held
IsHeld-frame x b h [] apart out = tt
IsHeld-frame x b h (y ∷ held) (ne, apart) ((b', found, p, u), out) =
    ((b', store_other x y b h ne ∙ found, p, u), IsHeld-frame x b h held apart out)

-- What allocMemory gives out, from a pool that is set up: the block.
pub record Given (base fresh : ℕ) (a : MemoryAlloc) (h : Heap MemoryBlock) (at : ℕ)
    (free held : List ℕ) : Type 0 where
  pub alloc : MemoryAlloc
  pub heap : Heap MemoryBlock
  pub runs : alloc_memory base fresh a h ≡ some (at + block_size, alloc, heap)
  pub shared : Shared alloc heap free held

not_zero : (n : ℕ) → 0 < n → (n == 0) ≡ false
not_zero n h = ground arith

-- In a pool with a free block, allocMemory gives out the first, which is held from then on; the
-- others stay as they are, and no block is held twice.
pub alloc_memory-Shared :
    (base fresh x : ℕ) (free held : List ℕ) (a : MemoryAlloc) (h : Heap MemoryBlock)
    → Shared a h (x ∷ free) held
    → Given base fresh a h x free (x ∷ held)
unfolding alloc_memory take_block
alloc_memory-Shared base fresh x free held a h s =
    let (at, nonzero, (b, found, (pooled, unused), rest)) = s.list in
    let (others, apart) = s.apart in
    let b' : MemoryBlock = record b { refs = pos 1 } in
    let h' = store a.header b' h in
    record {
      alloc = record a { header = b.next };
      heap = h';
      runs = rw (not_zero a.buf s.ready) (rw (at, not_zero x nonzero) (rw found (rw unused refl)));
      shared = record {
        ready = s.ready;
        list =
            Chain-frame (λ b. b.next) IsFree h h' free b.next
              (store-frame a.header b' h free (
                subst (λ p. All (λ y. p ≢ y) free) (sym at)
                  (All-append_left (λ y. x ≢ y) free held others)))
              rest;
        out = (
          (b', subst (λ p. store p b' h x ≡ some b') (sym at) (store_same x b' h), pooled, refl),
          IsHeld-frame a.header b' h held
              (subst (λ p. All (λ y. p ≢ y) held) (sym at)
                (All-append_right (λ y. x ≢ y) free held others))
              s.out,
        );
        apart = Distinct-middle x free held s.apart;
      };
    }

-- The result of freeMemory.
pub record Returned (a : MemoryAlloc) (h : Heap MemoryBlock) (at : ℕ) (free held : List ℕ)
    : Type 0 where
  pub alloc : MemoryAlloc
  pub heap : Heap MemoryBlock
  pub runs : free_memory (at + block_size) a h ≡ some (alloc, heap)
  pub shared : Shared alloc heap free held

-- freeMemory of a block that is held makes it the first free block; the others stay as they are.
pub free_memory-Shared :
    (x : ℕ) (free before behind : List ℕ) (a : MemoryAlloc) (h : Heap MemoryBlock)
    → 0 < x
    → Shared a h free (before ++ (x ∷ behind))
    → Returned a h x (x ∷ free) (before ++ behind)
unfolding free_memory ◌+ℤ◌
free_memory-Shared x free before behind a h nonzero s =
    let ((b, found, pooled, one), out) = All-remove (IsHeld h) x before behind s.out in
    let apart : Distinct (x ∷ (free ++ (before ++ behind))) =
      subst (λ l. Distinct (x ∷ l)) (append_assoc free before behind)
        (Distinct-front x (free ++ before) behind
          (subst Distinct (sym (append_assoc free before (x ∷ behind))) s.apart)) in
    let b' : MemoryBlock = record b { refs = pos 0; next = a.header } in
    let h' = store x b' h in
    let back : x + block_size - block_size ≡ x = omega arith in
    record {
      alloc = record a { header = x };
      heap = h';
      runs = rw back (rw found (rw one (rw pooled refl)));
      shared = record {
        ready = s.ready;
        list = (
          refl,
          nonzero,
          (
            b',
            store_same x b' h,
            (pooled, refl),
            Chain-frame (λ b. b.next) IsFree h h' free a.header
                (store-frame x b' h free
                  (All-append_left (λ y. x ≢ y) free (before ++ behind) apart.0))
                s.list,
          ),
        );
        out =
            IsHeld-frame x b' h (before ++ behind)
              (All-append_right (λ y. x ≢ y) free (before ++ behind) apart.0) out;
        apart = apart;
      };
    }
