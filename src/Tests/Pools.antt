-- ===== src/Tests/Pools.antt =====
-- The pools of memory blocks and of objects at concrete inputs.
use cpp_network_obj.Base.{◌≡◌, refl, none, some, [], ◌∷◌, pos, arith, ◌==◌, if◌then◌else◌}
use cpp_network_obj.Heap.{Heap, Chain}
use cpp_network_obj.MemoryMgr.{
  PoolName, mem64, MemoryBlock, MemoryAlloc, MemoryMgr, alloctor, fresh_block, init_memory,
  block_size, alloc_mem, free_mem, add_ref,
}
use cpp_network_obj.MemoryMgr
use cpp_network_obj.MemoryMgr.FreeList.{
  Shared, Given, alloc_memory-Shared, Returned, free_memory-Shared,
}
use cpp_network_obj.ObjectPool.{NodeHeader, ObjectPool, init_pool}
use cpp_network_obj.ObjectPool.TwoNodes.{init_pool-two}
use cpp_network_obj.ObjectPool.TwoNodes

abbrev nothing : {B : Type 0} → Heap B
nothing x = none

-- A pool of two blocks, of which the second is free and the first held.
abbrev held_block : MemoryBlock
held_block = record (fresh_block mem64 0) { refs = pos 1 }

abbrev two_blocks : Heap MemoryBlock
two_blocks x =
    if x == 1000 then some held_block else if x == 1096 then some (fresh_block mem64 1) else none

abbrev pool : MemoryAlloc
pool = record { name = mem64; buf = 1000; header = 1096; size = 64; block_num = 2 }

pool-Shared : Shared pool two_blocks (1096 ∷ []) (1000 ∷ [])
pool-Shared = record {
  ready = omega arith;
  list = (refl, omega arith, (fresh_block mem64 1, refl, (refl, refl), refl));
  out = ((held_block, refl, refl, refl), tt);
  apart = ((ground arith, tt), (tt, tt));
}

alloc_memory-Shared_example : Given 0 5000 pool two_blocks 1096 [] (1096 ∷ 1000 ∷ [])
alloc_memory-Shared_example =
    alloc_memory-Shared 0 5000 1096 [] (1000 ∷ []) pool two_blocks pool-Shared

free_memory-Shared_example : Returned pool two_blocks 1000 (1000 ∷ 1096 ∷ []) []
free_memory-Shared_example =
    free_memory-Shared 1000 (1096 ∷ []) [] [] pool two_blocks (omega arith) pool-Shared

abbrev manager : MemoryMgr
manager = record (MemoryMgr.create two_blocks) { small = pool }

init_pool-two_example :
    (p : ObjectPool) × (h' : Heap NodeHeader) × (init_pool 40 10 1000 nothing ≡ some (p, h'))
    × Chain (λ b. b.next) TwoNodes.IsFree h' p.header (1000 ∷ 1576 ∷ [])
init_pool-two_example = init_pool-two 40 8 1000 nothing (omega arith)
