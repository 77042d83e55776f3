-- ===== src/EchoServer/Erasing.antt =====
-- Taking a client out of the list of the stand-alone epoll server.
use mathlib.Core.List.{Perm, perm_append_comm}
use mathlib.Core.List.Perm
use cpp_network_obj.Base.{
  ℕ, ◌≡◌, refl, sym, subst, Bool, true, false, ◌||◌, some, List, [], ◌∷◌, ◌++◌, ◌==◌, Bool-cases,
  ==_iff, inl, inr, arith,
}
use cpp_network_obj.EchoServer.{erase}

abbrev pub has : ℕ → List ℕ → Bool
has k [] = false
has k (j ∷ js) = (j == k) || has k js

-- A client that is there is erased once; the others stay.
pub record Erased (k : ℕ) (js : List ℕ) : Type 0 where
  pub rest : List ℕ
  pub runs : erase k js ≡ some rest
  pub balance : Perm (rest ++ k ∷ []) js
  pub others : (j : ℕ) → (j == k) ≡ false → has j js ≡ true → has j rest ≡ true

pub erase-Erased : (k : ℕ) (js : List ℕ) → has k js ≡ true → Erased k js
unfolding erase
erase-Erased k [] h = cc
erase-Erased k (j ∷ js) h = elim (Bool-cases (j == k)) [
  | inl e ↦ record {
    rest = js;
    runs = rw e refl;
    balance =
        subst (λ x. Perm (js ++ k ∷ []) (x ∷ js)) (sym ((==_iff j k).0 e))
          (perm_append_comm js (k ∷ []));
    others = λ i ne there. ground arith;
  }
  | inr e ↦
      let r = erase-Erased k js (ground (arith, h, e)) in
      record {
        rest = j ∷ r.rest;
        runs = rw e (rw r.runs refl);
        balance = Perm.cons j r.balance;
        others = λ i ne there. elim (Bool-cases (j == i)) [
          | inl same ↦ rw same refl
          | inr differ ↦ rw differ (r.others i ne (ground (arith, there, differ)))
        ];
      }
]

pub has-append : (j n : ℕ) (js : List ℕ) → has j js ≡ true → has j (js ++ n ∷ []) ≡ true
has-append j n [] h = cc
has-append j n (i ∷ js) h = elim (Bool-cases (i == j)) [
  | inl same ↦ rw same refl
  | inr differ ↦ rw differ (has-append j n js (ground (arith, h, differ)))
]
