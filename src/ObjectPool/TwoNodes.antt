-- ===== src/ObjectPool/TwoNodes.antt =====
-- How many nodes of an object pool can be given out.
use cpp_network_obj.Base.{
  ℕ, zero, suc, ◌+◌, ◌-◌, ◌*◌, ◌<◌, ◌≡◌, refl, subst, ◌∙◌, true, some, [], ◌∷◌, pos, arith,
}
use cpp_network_obj.Heap.{Heap, store, store_same, store_other, Chain}
use cpp_network_obj.ObjectPool.{
  NodeHeader, ObjectPool, node_size, fresh_node, link_nodes, init_pool,
}

abbrev pub IsFree : NodeHeader → Type 0
IsFree b = (b.pool ≡ true) × (b.refs ≡ pos 0)

-- The first node, which ends the list or leads to one that does.
record Leads (h : Heap NodeHeader) (first last : ℕ) : Type 0 where
  node : NodeHeader
  found : h first ≡ some node
  free : IsFree node
  next : node.next ≡ last
  end : NodeHeader
  end_found : h last ≡ some end
  end_free : IsFree end
  end_next : end.next ≡ 0

-- One round of the loop: the heap after it.
abbrev linked : ℕ → ℕ → ℕ → NodeHeader → Heap NodeHeader → Heap NodeHeader
linked n at first b h = store first (record b { next = at }) (store at (fresh_node n) h)

module _ (real_size n at first : ℕ) (h : Heap NodeHeader) (b : NodeHeader) (above : first < at)
    (found : h first ≡ some b) where
  linked-Leads : IsFree b → Leads (linked n at first b h) first at
  linked-Leads free =
      let h₁ = store at (fresh_node n) h in
      let node : NodeHeader = record b { next = at } in
      record {
        node = node;
        found = store_same first node h₁;
        free = free;
        next = refl;
        end = fresh_node n;
        end_found =
            store_other first at node h₁ (λ p. absurd (omega (arith, p)))
            ∙ store_same at (fresh_node n) h;
        end_free = (refl, refl);
        end_next = refl;
      }

  link_nodes-step :
      (k : ℕ)
      → link_nodes real_size (suc k) n at first h
        ≡ link_nodes real_size k (n + 1) (at + real_size) first (linked n at first b h)
  unfolding link_nodes
  link_nodes-step k =
      rw (store_other at first (fresh_node n) h (λ p. absurd (omega (arith, p, above))) ∙ found)
        refl

-- Where the loop ends, from a list of the first node and the one before `at`.
link_nodes-Leads :
    (real_size k n last first : ℕ) (h : Heap NodeHeader)
    → first < last
    → Leads h first last
    → (h' : Heap NodeHeader) × (link_nodes real_size k n (last + real_size) first h ≡ some h')
      × Leads h' first (last + k * real_size)
unfolding link_nodes
link_nodes-Leads real_size zero n last first h above l =
    (h, refl, subst (Leads h first) (omega arith) l)
link_nodes-Leads real_size (suc k) n last first h above l =
    let at = last + real_size in
    let above' : first < at = omega (arith, above) in
    let (h', runs, m) =
      link_nodes-Leads real_size k (n + 1) at first (linked n at first l.node h) above'
        (linked-Leads real_size n at first h l.node above' l.found l.free) in
    (
      h',
      link_nodes-step real_size n at first h l.node above' l.found k ∙ runs,
      subst (Leads h' first) (omega arith) m,
    )

-- The free list of a new pool of two or more nodes holds two of them, the first and the last: initPool
-- links every node behind the first one, and not behind the node before.
pub init_pool-two :
    (object_size k base : ℕ) (h : Heap NodeHeader)
    → 0 < base
    → (p : ObjectPool) × (h' : Heap NodeHeader) × (init_pool object_size (suc (suc k)) base h
        ≡ some (p, h'))
      × Chain
          (λ b. b.next)
          IsFree
          h'
          p.header
          (base ∷ (base + (suc k) * (node_size + object_size)) ∷ [])
unfolding init_pool
init_pool-two object_size k base h nonzero =
    let real_size = node_size + object_size in
    let at = base + real_size in
    let first = fresh_node 0 in
    let h₀ = store base first h in
    let found = store_same base first h in
    let above : base < at = omega arith in
    let (h', runs, l) =
      link_nodes-Leads real_size k 2 at base (linked 1 at base first h₀) above
        (linked-Leads real_size 1 at base h₀ first above found (refl, refl)) in
    let one_less : suc (suc k) - 1 ≡ suc k = omega arith in
    let last : at + k * real_size ≡ base + suc k * real_size = omega arith in
    (
      record { buf = base; header = base },
      h',
      rw one_less (rw (link_nodes-step real_size 1 at base h₀ first above found k ∙ runs) refl),
      (
        refl,
        nonzero,
        (
          l.node,
          l.found,
          l.free,
          (
            l.next ∙ last,
            omega (arith, nonzero),
            (l.end, subst (λ x. h' x ≡ some l.end) last l.end_found, l.end_free, l.end_next),
          ),
        ),
      ),
    )
