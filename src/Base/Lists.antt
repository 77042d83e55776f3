-- ===== src/Base/Lists.antt =====
-- Lists measured and indexed by native numbers, and blocks of memory as lists.
use Prim.Native.Nat.{ℕ, zero, suc, ◌+◌, ◌-◌, ◌≤◌, min}
use mathlib.Core.Path.{◌≡◌, refl, ap, sym, ◌∙◌}
use mathlib.Core.List.{List, [], ◌∷◌, ◌++◌, append_assoc}
use native.Mathlib.Omega.{arith}

module _ {ℓ} {A : Type ℓ} where
  abbrev pub length : List A → ℕ
  length [] = 0
  length (x ∷ xs) = suc (length xs)

  abbrev pub get_or : List A → ℕ → A → A
  get_or [] i d = d
  get_or (x ∷ xs) zero d = x
  get_or (x ∷ xs) (suc i) d = get_or xs i d

  abbrev pub take : ℕ → List A → List A
  take zero xs = []
  take (suc n) [] = []
  take (suc n) (x ∷ xs) = x ∷ take n xs

  abbrev pub drop : ℕ → List A → List A
  drop zero xs = xs
  drop (suc n) [] = []
  drop (suc n) (x ∷ xs) = drop n xs

  abbrev pub replicate : ℕ → A → List A
  replicate zero a = []
  replicate (suc n) a = a ∷ replicate n a

  abbrev pub concat : List (List A) → List A
  concat [] = []
  concat (xs ∷ xss) = xs ++ concat xss

  abbrev pub All {κ} : (A → Type κ) → List A → Type κ
  All P [] = Unit
  All P (x ∷ xs) = P x × All P xs

module _ {ℓ} {A : Type ℓ} where
  pub length-append : (xs ys : List A) → length (xs ++ ys) ≡ length xs + length ys
  length-append [] ys = omega arith
  length-append (x ∷ xs) ys = omega (arith, length-append xs ys)

  pub length-take : (n : ℕ) (xs : List A) → length (take n xs) ≡ min n (length xs)
  length-take zero xs = omega arith
  length-take (suc n) [] = omega arith
  length-take (suc n) (x ∷ xs) = omega (arith, length-take n xs)

  pub length-drop : (n : ℕ) (xs : List A) → length (drop n xs) ≡ length xs - n
  length-drop zero xs = omega arith
  length-drop (suc n) [] = omega arith
  length-drop (suc n) (x ∷ xs) = omega (arith, length-drop n xs)

  pub length-replicate : (n : ℕ) (a : A) → length (replicate n a) ≡ n
  length-replicate zero a = refl
  length-replicate (suc n) a = ap suc (length-replicate n a)

  pub take-append-drop : (n : ℕ) (xs : List A) → take n xs ++ drop n xs ≡ xs
  take-append-drop zero xs = refl
  take-append-drop (suc n) [] = refl
  take-append-drop (suc n) (x ∷ xs) = rw (take-append-drop n xs)

  pub take_all : (n : ℕ) (xs : List A) → length xs ≤ n → take n xs ≡ xs
  take_all zero [] h = refl
  take_all zero (x ∷ xs) h = absurd (omega arith)
  take_all (suc n) [] h = refl
  take_all (suc n) (x ∷ xs) h = ap (◌∷◌ x) (take_all n xs (omega arith))

  pub take-nil : (n : ℕ) → take {A = A} n [] ≡ []
  take-nil zero = refl
  take-nil (suc n) = refl

  pub drop-nil : (n : ℕ) → drop {A = A} n [] ≡ []
  drop-nil zero = refl
  drop-nil (suc n) = refl

  -- A prefix of a concatenation whose first part is long enough.
  pub take-append_le : (n : ℕ) (xs ys : List A) → n ≤ length xs → take n (xs ++ ys) ≡ take n xs
  take-append_le zero xs ys h = refl
  take-append_le (suc n) [] ys h = absurd (omega arith)
  take-append_le (suc n) (x ∷ xs) ys h = ap (◌∷◌ x) (take-append_le n xs ys (omega arith))

  pub drop-append_le :
      (n : ℕ) (xs ys : List A) → n ≤ length xs → drop n (xs ++ ys) ≡ drop n xs ++ ys
  drop-append_le zero xs ys h = refl
  drop-append_le (suc n) [] ys h = absurd (omega arith)
  drop-append_le (suc n) (x ∷ xs) ys h = drop-append_le n xs ys (omega arith)

  -- The two parts of a concatenation, by a count that is given by an equation.
  pub take-append_eq : (n : ℕ) (xs ys : List A) → n ≡ length xs → take n (xs ++ ys) ≡ xs
  take-append_eq n xs ys e = take-append_le n xs ys (omega arith) ∙ take_all n xs (omega arith)

  pub drop-append_eq : (n : ℕ) (xs ys : List A) → n ≡ length xs → drop n (xs ++ ys) ≡ ys
  drop-append_eq zero [] ys e = refl
  drop-append_eq zero (x ∷ xs) ys e = absurd (omega arith)
  drop-append_eq (suc n) [] ys e = absurd (omega arith)
  drop-append_eq (suc n) (x ∷ xs) ys e = drop-append_eq n xs ys (omega arith)

  pub take-take : (m n : ℕ) (xs : List A) → m ≤ n → take m (take n xs) ≡ take m xs
  take-take zero n xs h = refl
  take-take (suc m) zero xs h = absurd (omega arith)
  take-take (suc m) (suc n) [] h = refl
  take-take (suc m) (suc n) (x ∷ xs) h = ap (◌∷◌ x) (take-take m n xs (omega arith))

  -- The window from `m` on of length `n` is what is left of a prefix.
  pub take-drop : (m n : ℕ) (xs : List A) → take n (drop m xs) ≡ drop m (take (m + n) xs)
  take-drop zero n xs = ap (λ k. take k xs) (omega arith)
  take-drop (suc m) n [] = take-nil n ∙ sym (drop_take_nil m n)
    where
      drop_take_nil : (m n : ℕ) → drop {A = A} (suc m) (take (suc m + n) []) ≡ []
      drop_take_nil m n = ap (drop (suc m)) (take-nil (suc m + n))
  take-drop (suc m) n (x ∷ xs) =
      take-drop m n xs ∙ ap (λ k. drop (suc m) (take k (x ∷ xs))) (shift m n)
    where
      shift : (m n : ℕ) → suc (m + n) ≡ suc m + n
      shift m n = omega arith

  pub drop-drop : (m n : ℕ) (xs : List A) → drop n (drop m xs) ≡ drop (m + n) xs
  drop-drop zero n xs = ap (λ k. drop k xs) (omega arith)
  drop-drop (suc m) n [] = drop-nil n ∙ sym (drop-nil (suc m + n))
  drop-drop (suc m) n (x ∷ xs) = drop-drop m n xs ∙ ap (λ k. drop k (x ∷ xs)) (shift m n)
    where
      shift : (m n : ℕ) → suc (m + n) ≡ suc m + n
      shift m n = omega arith

  pub concat-append : (xss yss : List (List A)) → concat (xss ++ yss) ≡ concat xss ++ concat yss
  concat-append [] yss = refl
  concat-append (xs ∷ xss) yss =
      ap (◌++◌ xs) (concat-append xss yss) ∙ sym (append_assoc xs (concat xss) (concat yss))

  -- Two ways to part one list: the shorter first part is a prefix of the longer.
  pub append_split :
      (m q t p : List A)
      → q ++ p ≡ m ++ t
      → length m ≤ length q
      → (q ≡ m ++ drop (length m) q) × (drop (length m) q ++ p ≡ t)
  append_split m q t p e h = (
    sym (take-append-drop (length m) q) ∙ ap (λ x. x ++ drop (length m) q) front,
    sym (drop-append_le (length m) q p h)
        ∙ ap (drop (length m)) e
        ∙ drop-append_eq (length m) m t refl,
  )
    where
      front : take (length m) q ≡ m
      front =
          sym (take-append_le (length m) q p h)
          ∙ ap (take (length m)) e
          ∙ take-append_eq (length m) m t refl

  pub All-map {κ ν} :
      {P : A → Type κ} {Q : A → Type ν} (xs : List A) → ((x : A) → P x → Q x) → All P xs → All Q xs
  All-map [] f h = tt
  All-map (x ∷ xs) f (p, h) = (f x p, All-map xs f h)

  pub All-append_left {κ} : (P : A → Type κ) (xs ys : List A) → All P (xs ++ ys) → All P xs
  All-append_left P [] ys h = tt
  All-append_left P (x ∷ xs) ys h = (h.0, All-append_left P xs ys h.1)

  pub All-append_right {κ} : (P : A → Type κ) (xs ys : List A) → All P (xs ++ ys) → All P ys
  All-append_right P [] ys h = h
  All-append_right P (x ∷ xs) ys h = All-append_right P xs ys h.1
