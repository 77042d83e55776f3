-- ===== src/MemoryMgr.antt =====
-- server/bak/MemoryMgr.hpp: pools of memory blocks, and the manager that server/bak/Alloctor.cpp puts
-- behind operator new and delete. Blocks are kept in memory by the addresses of their headers, as
-- built for 64 bits; what malloc() returns is an argument. `none` is undefined behaviour or an
-- assertion that fails. Locks are left out.
pub mod FreeList
pub mod Sharing
use cpp_network_obj.Base.{
  ℕ, zero, suc, ◌+◌, ◌-◌, ◌*◌, ◌/◌, ◌%◌, Bool, true, false, Option, none, some, ℤ, pos, negsuc,
  ◌+ℤ◌, leb, ◌==◌, if◌then◌else◌, ◌>>=◌,
}
use cpp_network_obj.Heap.{Heap, store, release}

-- sizeof(MemoryBlock), with its padding, and MAX_MEMORY_SZIE
abbrev pub block_size : ℕ
block_size = 32

abbrev pub max_memory_size : ℕ
max_memory_size = 128

-- The two pools of the manager.
pub data PoolName : Type 0 where
  mem64 mem128 : PoolName

-- `owner` is pAlloc, and `next` the address pNext.
pub record MemoryBlock : Type 0 where
  pub owner : Option PoolName
  pub next : ℕ
  pub id : ℤ
  pub refs : ℤ
  pub pool : Bool

pub record MemoryAlloc : Type 0 where
  pub name : PoolName
  pub buf : ℕ
  pub header : ℕ
  pub size : ℕ
  pub block_num : ℕ

-- MemoryAlloctor<nSize, nBlockNum>: the size is rounded up to whole pointers.
unfoldable pub alloctor : PoolName → ℕ → ℕ → MemoryAlloc
alloctor name n block_num = record {
  name = name;
  buf = 0;
  header = 0;
  size = n / 8 * 8 + (if n % 8 == 0 then 0 else 8);
  block_num = block_num;
}

-- A block of a new pool, and one that is not of a pool.
abbrev pub fresh_block : PoolName → ℕ → MemoryBlock
fresh_block name n = record { owner = some name; next = 0; id = pos n; refs = pos 0; pool = true }

abbrev pub outside_block : MemoryBlock
outside_block = record { owner = none; next = 0; id = negsuc 0; refs = pos 1; pool = false }

-- The loop of initMemory, from block `n` on, at the address `at`; `last` is pTemp1.
unfoldable pub link_blocks :
    PoolName → ℕ → ℕ → ℕ → ℕ → ℕ → Heap MemoryBlock → Option (Heap MemoryBlock)
link_blocks name real_size zero n at last h = some h
link_blocks name real_size (suc k) n at last h =
    let h₁ = store at (fresh_block name n) h in
    h₁ last >>= λ b.
    link_blocks name real_size k (n + 1) (at + real_size) at
      (store last (record b { next = at }) h₁)

-- initMemory, where malloc() returned `base`.
unfoldable pub init_memory :
    ℕ → MemoryAlloc → Heap MemoryBlock → Option (MemoryAlloc × Heap MemoryBlock)
init_memory base a h =
    let real_size = a.size + block_size in
    link_blocks a.name real_size (a.block_num - 1) 1 (base + real_size) base
      (store base (fresh_block a.name 0) h)
    >>= λ h'. some (record a { buf = base; header = base }, h')

abbrev is_zero : ℤ → Bool
is_zero (pos n) = n == 0
is_zero (negsuc n) = false

-- The second part of allocMemory: the first free block, or one that malloc() returns. The result is
-- the address behind the header.
unfoldable pub take_block :
    ℕ → MemoryAlloc → Heap MemoryBlock → Option (ℕ × MemoryAlloc × Heap MemoryBlock)
take_block fresh a h =
    if a.header == 0
    then some (fresh + block_size, a, store fresh outside_block h)
    else (h a.header >>= λ b.
        if is_zero b.refs
        then some (
          a.header + block_size,
          record a { header = b.next },
          store a.header (record b { refs = pos 1 }) h,
        )
        else none)

-- allocMemory, where malloc() would return `base` for a new pool and `fresh` for one block.
unfoldable pub alloc_memory :
    ℕ → ℕ → MemoryAlloc → Heap MemoryBlock → Option (ℕ × MemoryAlloc × Heap MemoryBlock)
unfolding init_memory take_block
alloc_memory base fresh a h =
    (if a.buf == 0 then init_memory base a h else some (a, h)) >>= λ (a', h').
    take_block fresh a' h'

-- freeMemory
unfoldable pub free_memory :
    ℕ → MemoryAlloc → Heap MemoryBlock → Option (MemoryAlloc × Heap MemoryBlock)
free_memory p a h =
    let at = p - block_size in
    h at >>= λ b.
    let b' : MemoryBlock = record b { refs = b.refs +ℤ negsuc 0 } in
    if is_zero b'.refs
    then (if b.pool
        then some (record a { header = at }, store at (record b' { next = a.header }) h)
        else some (a, release at h))
    else none

-- The manager.
pub record MemoryMgr : Type 0 where
  pub small : MemoryAlloc
  pub large : MemoryAlloc
  pub memory : Heap MemoryBlock

abbrev pub create : Heap MemoryBlock → MemoryMgr
create h = record {
  small = alloctor PoolName.mem64 64 100000;
  large = alloctor PoolName.mem128 128 100000;
  memory = h;
}

-- _szAlloc, as init_szAlloc fills it.
abbrev pub sz_alloc : ℕ → PoolName
sz_alloc n = if leb n 64 then PoolName.mem64 else PoolName.mem128

abbrev pub pool_of : PoolName → MemoryMgr → MemoryAlloc
pool_of PoolName.mem64 m = m.small
pool_of PoolName.mem128 m = m.large

abbrev pub with_pool : PoolName → MemoryAlloc → Heap MemoryBlock → MemoryMgr → MemoryMgr
with_pool PoolName.mem64 a h m = record m { small = a; memory = h }
with_pool PoolName.mem128 a h m = record m { large = a; memory = h }

unfoldable pub alloc_mem : ℕ → ℕ → ℕ → MemoryMgr → Option (ℕ × MemoryMgr)
unfolding alloc_memory
alloc_mem base fresh n m =
    if leb n max_memory_size
    then (let which = sz_alloc n in
        alloc_memory base fresh (pool_of which m) m.memory >>= λ (p, a, h).
        some (p, with_pool which a h m))
    else some (fresh + block_size, record m { memory = store fresh outside_block m.memory })

-- freeMem; a pool's block goes to the pool that its header names.
unfoldable pub free_mem : ℕ → MemoryMgr → Option MemoryMgr
unfolding free_memory
free_mem p m =
    let at = p - block_size in
    m.memory at >>= λ b.
    if b.pool
    then (b.owner >>= λ which.
        free_memory p (pool_of which m) m.memory >>= λ (a, h). some (with_pool which a h m))
    else (let b' : MemoryBlock = record b { refs = b.refs +ℤ negsuc 0 } in
        some (record m {
          memory = if is_zero b'.refs then release at m.memory else store at b' m.memory;
        }))

unfoldable pub add_ref : ℕ → MemoryMgr → Option MemoryMgr
add_ref p m =
    let at = p - block_size in
    m.memory at >>= λ b.
    some (record m { memory = store at (record b { refs = b.refs +ℤ pos 1 }) m.memory })
