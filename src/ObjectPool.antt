-- ===== src/ObjectPool.antt =====
-- server/bak/CELLObjectPool.hpp: a pool of objects of one type. Nodes are kept in memory by the
-- addresses of their headers; what new char[] returns is an argument. `none` is undefined behaviour
-- or an assertion that fails. The assertion that _pBuf, which is not initialised, is null when a pool
-- is created is left out, as are the lock and the variadic createObject.
pub mod TwoNodes
use cpp_network_obj.Base.{
  ℕ, zero, suc, ◌+◌, ◌-◌, Bool, true, false, Option, none, some, ℤ, pos, negsuc, ◌+ℤ◌, ◌==◌,
  if◌then◌else◌, ◌>>=◌,
}
use cpp_network_obj.Heap.{Heap, store, release}

-- sizeof(NodeHeader), with its padding
abbrev pub node_size : ℕ
node_size = 24

pub record NodeHeader : Type 0 where
  pub next : ℕ
  pub id : ℤ
  pub refs : ℤ
  pub pool : Bool

pub record ObjectPool : Type 0 where
  pub buf : ℕ
  pub header : ℕ

abbrev pub fresh_node : ℕ → NodeHeader
fresh_node n = record { next = 0; id = pos n; refs = pos 0; pool = true }

abbrev pub outside_node : NodeHeader
outside_node = record { next = 0; id = negsuc 0; refs = pos 1; pool = false }

-- The loop of initPool, for `k` nodes from number `n` at the address `at`; pTemp1, which the loop
-- does not move, stays at `first`.
unfoldable pub link_nodes : ℕ → ℕ → ℕ → ℕ → ℕ → Heap NodeHeader → Option (Heap NodeHeader)
link_nodes real_size zero n at first h = some h
link_nodes real_size (suc k) n at first h =
    let h₁ = store at (fresh_node n) h in
    h₁ first >>= λ b.
    link_nodes real_size k (n + 1) (at + real_size) first (store first (record b { next = at }) h₁)

-- initPool for `pool_size` objects of `object_size` bytes, where new char[] returned `base`.
unfoldable pub init_pool : ℕ → ℕ → ℕ → Heap NodeHeader → Option (ObjectPool × Heap NodeHeader)
unfolding link_nodes
init_pool object_size pool_size base h =
    let real_size = node_size + object_size in
    link_nodes real_size (pool_size - 1) 1 (base + real_size) base (store base (fresh_node 0) h)
    >>= λ h'. some (record { buf = base; header = base }, h')

abbrev is_zero : ℤ → Bool
is_zero (pos n) = n == 0
is_zero (negsuc n) = false

-- allocObjMemory, where new char[] would return `fresh`. The result is the address of the object.
unfoldable pub alloc_obj_memory :
    ℕ → ObjectPool → Heap NodeHeader → Option (ℕ × ObjectPool × Heap NodeHeader)
alloc_obj_memory fresh p h =
    if p.header == 0
    then some (fresh + node_size, p, store fresh outside_node h)
    else (h p.header >>= λ b.
        if is_zero b.refs
        then some (
          p.header + node_size,
          record p { header = b.next },
          store p.header (record b { refs = b.refs +ℤ pos 1 }) h,
        )
        else none)

-- freeObjMemory
unfoldable pub free_obj_memory :
    ℕ → ObjectPool → Heap NodeHeader → Option (ObjectPool × Heap NodeHeader)
free_obj_memory mem p h =
    let at = mem - node_size in
    h at >>= λ b.
    let b' : NodeHeader = record b { refs = b.refs +ℤ negsuc 0 } in
    if is_zero b'.refs
    then (if b.pool
        then some (record p { header = at }, store at (record b' { next = p.header }) h)
        else some (p, release at h))
    else none

-- operator new and operator delete of ObjectPoolBase.
abbrev pub operator_new :
    ℕ → ObjectPool → Heap NodeHeader → Option (ℕ × ObjectPool × Heap NodeHeader)
operator_new fresh p h = alloc_obj_memory fresh p h

abbrev pub operator_delete :
    ℕ → ObjectPool → Heap NodeHeader → Option (ObjectPool × Heap NodeHeader)
operator_delete mem p h = free_obj_memory mem p h
