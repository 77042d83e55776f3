-- ===== src/Heap.antt =====
-- Memory that holds nodes at addresses, and linked lists in it. The address 0 is nullptr.
use cpp_network_obj.Base.{
  ℕ, ◌<◌, ◌≡◌, ◌≢◌, sym, ◌∙◌, Option, none, some, List, [], ◌∷◌, ◌++◌, All, ◌==◌, if◌then◌else◌,
  arith,
}

abbrev pub Heap : Type 0 → Type 0
Heap B = ℕ → Option B

unfoldable pub store : {B : Type 0} → ℕ → B → Heap B → Heap B
store p b h q = if p == q then some b else h q

unfoldable pub release : {B : Type 0} → ℕ → Heap B → Heap B
release p h q = if p == q then none else h q

pub store_same : {B : Type 0} (p : ℕ) (b : B) (h : Heap B) → store p b h p ≡ some b
unfolding store
store_same p b h = ground arith

pub store_other : {B : Type 0} (p q : ℕ) (b : B) (h : Heap B) → p ≢ q → store p b h q ≡ h q
unfolding store
store_other p q b h ne = ground arith

-- No two of the addresses are the same.
abbrev pub Distinct : List ℕ → Type 0
Distinct [] = Unit {0}
Distinct (x ∷ xs) = All (λ y. x ≢ y) xs × Distinct xs

module _ {B : Type 0} (next : B → ℕ) (P : B → Type 0) where
  -- The list that begins at `p` has its nodes at these addresses, and each has the property.
  abbrev pub Chain : Heap B → ℕ → List ℕ → Type 0
  Chain h p [] = p ≡ 0
  Chain h p (x ∷ xs) = (p ≡ x) × (0 < x) × ((b : B) × (h x ≡ some b) × P b × Chain h (next b) xs)

  -- What is not in the list can change.
  pub Chain-frame :
      (h h' : Heap B) (xs : List ℕ) (p : ℕ)
      → All (λ x. h' x ≡ h x) xs
      → Chain h p xs
      → Chain h' p xs
  Chain-frame h h' [] p same c = c
  Chain-frame h h' (x ∷ xs) p (e, same) (at, nonzero, (b, found, prop, rest)) =
      (at, nonzero, (b, e ∙ found, prop, Chain-frame h h' xs (next b) same rest))

pub All-map :
    {A : Type 0} {P Q : A → Type 0} (xs : List A) → ((x : A) → P x → Q x) → All P xs → All Q xs
All-map [] f h = tt
All-map (x ∷ xs) f (p, h) = (f x p, All-map xs f h)

pub store-frame :
    {B : Type 0} (p : ℕ) (b : B) (h : Heap B) (xs : List ℕ)
    → All (λ y. p ≢ y) xs
    → All (λ x. store p b h x ≡ h x) xs
store-frame p b h xs fresh = All-map xs (λ x ne. store_other p x b h ne) fresh

pub Distinct-middle :
    (x : ℕ) (xs ys : List ℕ) → Distinct (x ∷ (xs ++ ys)) → Distinct (xs ++ (x ∷ ys))
Distinct-middle x [] ys d = d
Distinct-middle x (y ∷ xs) ys ((ne, apart), (apart', d)) =
    (All-insert (λ z. y ≢ z) x xs ys (λ e. ne (sym e)) apart', Distinct-middle x xs ys (apart, d))
  where
    All-insert :
        (P : ℕ → Type 0) (x : ℕ) (xs ys : List ℕ) → P x → All P (xs ++ ys) → All P (xs ++ (x ∷ ys))
    All-insert P x [] ys p h = (p, h)
    All-insert P x (z ∷ xs) ys p (q, h) = (q, All-insert P x xs ys p h)

pub All-remove :
    (P : ℕ → Type 0) (x : ℕ) (xs ys : List ℕ) → All P (xs ++ (x ∷ ys)) → P x × All P (xs ++ ys)
All-remove P x [] ys h = h
All-remove P x (z ∷ xs) ys (q, h) = let (p, h') = All-remove P x xs ys h in (p, (q, h'))

pub Distinct-front :
    (x : ℕ) (xs ys : List ℕ) → Distinct (xs ++ (x ∷ ys)) → Distinct (x ∷ (xs ++ ys))
Distinct-front x [] ys d = d
Distinct-front x (y ∷ xs) ys (apart, d) =
    let (ne, apart') = All-remove (λ z. y ≢ z) x xs ys apart in
    let (apart'', d') = Distinct-front x xs ys d in (((λ e. ne (sym e)), apart''), (apart', d'))
