-- ===== src/Config/Last.antt =====
-- Which argument of the command line the options are read from.
use cpp_network_obj.Base.{
  ℕ, ◌≡◌, refl, ap, ap₂, sym, ◌∙◌, Bool, true, false, ◌&&◌, Option, none, some, List, [], ◌∷◌, ℤ,
  ◌==◌, ==_iff, if◌then◌else◌, arith, Bool-cases, Option-cases, inl, inr,
}
use cpp_network_obj.Config.{
  Str, str_eq, KeyValues, assign, find, Config, empty, value_or, split, made_cmd, made_cmds, init,
  get_str, get_int, has_key,
}

and_both : (a b : Bool) → (a && b) ≡ true → (a ≡ true) × (b ≡ true)
and_both true b h = (refl, h)
and_both false b h = cc

==_self : (x : ℕ) → (x == x) ≡ true
==_self x = ground arith

str_eq-eq : (a b : Str) → str_eq a b ≡ true → a ≡ b
str_eq-eq [] [] h = refl
str_eq-eq [] (y ∷ ys) h = cc
str_eq-eq (x ∷ xs) [] h = cc
str_eq-eq (x ∷ xs) (y ∷ ys) h =
    let (e, es) = and_both (x == y) (str_eq xs ys) h in
    ap₂ ◌∷◌ ((==_iff x y).0 e) (str_eq-eq xs ys es)

str_eq_refl : (a : Str) → str_eq a a ≡ true
str_eq_refl [] = refl
str_eq_refl (x ∷ xs) = rw (==_self x) (str_eq_refl xs)

-- The value that the last of some arguments with that name gives.
unfoldable pub last_value : Str → List Str → Option Str
last_value name [] = none
last_value name (arg ∷ args) = elim (last_value name args) [
  | some v ↦ some v
  | none ↦ if str_eq (split arg).0 name then some (split arg).1 else none
]

apart : (j k name : Str) → str_eq j k ≡ false → str_eq j name ≡ true → str_eq k name ≡ false
apart j k name h e = elim (Bool-cases (str_eq k name)) [
  | inr e' ↦ e'
  | inl e' ↦
      let same : j ≡ k = str_eq-eq j name e ∙ sym (str_eq-eq k name e') in
      let eq : str_eq j k ≡ true = ap (str_eq j) (sym same) ∙ str_eq_refl j in cc
]

find-assign :
    (k : Str) (v : Str) (name : Str) (m : KeyValues)
    → find name (assign k v m) ≡ (if str_eq k name then some v else find name m)
unfolding find assign
find-assign k v name [] = refl
find-assign k v name ((j, w) ∷ m) = elim (Bool-cases (str_eq j k)) [
  | inl h ↦
      let same : str_eq j name ≡ str_eq k name = ap (λ x. str_eq x name) (str_eq-eq j k h) in
      elim (Bool-cases (str_eq k name)) [
        | inl e ↦ rw h (rw (same ∙ e) (rw e refl))
        | inr e ↦ rw h (rw (same ∙ e) (rw e refl))
      ]
  | inr h ↦ elim (Bool-cases (str_eq j name)) [
    | inl e ↦ rw h (rw e (rw (apart j k name h e) refl))
    | inr e ↦ rw h (rw e (find-assign k v name m))
  ]
]

or_found :
    (b : Bool) (v : Str) (o : Option Str)
    → (if b then some v else o)
      ≡ elim (if b then some v else none) as (λ x. Option Str) [ some w ↦ some w | none ↦ o ]
or_found true v o = refl
or_found false v o = refl

or_none : (o : Option Str) → elim o as (λ x. Option Str) [ some w ↦ some w | none ↦ none ] ≡ o
or_none none = refl
or_none (some v) = refl

made_cmds-find :
    (name : Str) (cmds : List Str) (c : Config)
    → find name (made_cmds cmds c).kv
      ≡ elim (last_value name cmds) [ some v ↦ some v | none ↦ find name c.kv ]
unfolding made_cmds made_cmd last_value
made_cmds-find name [] c = refl
made_cmds-find name (cmd ∷ cmds) c = elim (Option-cases (last_value name cmds)) [
  | inl e ↦
      made_cmds-find name cmds (made_cmd cmd c)
      ∙ rw e (
          find-assign (split cmd).0 (split cmd).1 name c.kv
          ∙ or_found (str_eq (split cmd).0 name) (split cmd).1 (find name c.kv))
  | inr (v, e) ↦ made_cmds-find name cmds (made_cmd cmd c) ∙ rw e refl
]

-- After Init of a new configuration with the arguments of main, getStr, getInt and hasKey answer by the
-- last argument whose part before the first '=' is the name, and by the default where there is none.
pub init-last :
    (path : Str) (cmds : List Str) (name def : Str) (atoi : Str → ℤ) (n : ℤ)
    → (c : Config) × (init (path ∷ cmds) empty ≡ some c)
      × (get_str c name def ≡ value_or (λ v. v) def (last_value name cmds))
      × (get_int atoi c name n ≡ value_or atoi n (last_value name cmds))
      × (has_key c name ≡ value_or (λ v. true) false (last_value name cmds))
unfolding init get_str get_int has_key
init-last path cmds name def atoi n =
    let c : Config = made_cmds cmds (record { exe_path = path; kv = [] }) in
    let found : find name c.kv ≡ last_value name cmds =
      made_cmds-find name cmds (record { exe_path = path; kv = [] })
      ∙ or_none (last_value name cmds) in
    (
      c,
      refl,
      ap (value_or (λ v. v) def) found,
      ap (value_or atoi n) found,
      ap (value_or (λ v. true) false) found,
    )
