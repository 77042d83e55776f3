-- ===== src/Client/Drain/Parting.antt =====
-- A stream of messages of which a first piece has arrived: what is complete in the piece.
use native.Mathlib.Decide.{dec_le}
use cpp_network_obj.Base.{
  ℕ, ◌≤◌, ◌<◌, ◌≡◌, refl, ap, sym, subst, ◌∙◌, true, false, List, [], ◌∷◌, ◌++◌, length, drop,
  concat, All, append_assoc, arith, length-append, append_split,
}
use cpp_network_obj.Buffer.Framing.{
  IsFramed, is_ready, is_ready-framed, is_ready-short, is_ready-prefix,
}

-- A stream of messages and a rest, of which `q` has arrived: the messages complete in `q`.
pub record Parted (ms : List (List ℕ)) (r q p : List ℕ) : Type 0 where
  pub first : List (List ℕ)
  pub second : List (List ℕ)
  pub left : List ℕ
  pub parts : ms ≡ first ++ second
  pub arrived : q ≡ concat first ++ left
  pub to_come : left ++ p ≡ concat second ++ r
  pub stops : is_ready left ≡ false

pub part :
    (ms : List (List ℕ)) (r q p : List ℕ)
    → All IsFramed ms
    → is_ready r ≡ false
    → q ++ p ≡ concat ms ++ r
    → Parted ms r q p
part [] r q p fs stop e = record {
  first = [];
  second = [];
  left = q;
  parts = refl;
  arrived = refl;
  to_come = e;
  stops = is_ready-prefix q p (ap is_ready e ∙ stop);
}
part (m ∷ ms) r q p (fm, fs) stop e = elim (dec_le (length m) (length q)) [
  | yes h ↦
      let (e₁, e₂) = append_split m q (concat ms ++ r) p (e ∙ append_assoc m (concat ms) r) h in
      let rest = part ms r (drop (length m) q) p fs stop e₂ in
      record {
        first = m ∷ rest.first;
        second = rest.second;
        left = rest.left;
        parts = ap (◌∷◌ m) rest.parts;
        arrived =
            e₁ ∙ ap (◌++◌ m) rest.arrived ∙ sym (append_assoc m (concat rest.first) rest.left);
        to_come = rest.to_come;
        stops = rest.stops;
      }
  | no h ↦
      let (e₁, e₂) =
        append_split q m p (concat ms ++ r) (sym (e ∙ append_assoc m (concat ms) r))
          (omega arith) in
      record {
        first = [];
        second = m ∷ ms;
        left = q;
        parts = refl;
        arrived = refl;
        to_come = e;
        stops =
            is_ready-short q (drop (length q) m) (subst IsFramed e₁ fm)
              (omega (arith, ap length e₁));
      }
]

pub length-concat-le : (ms : List (List ℕ)) → All IsFramed ms → length ms ≤ length (concat ms)
length-concat-le [] fs = omega arith
length-concat-le (m ∷ ms) (fm, fs) =
    omega (arith, length-append m (concat ms), length-concat-le ms fs)

-- What has arrived and is no message yet leaves room in a buffer that any message fits in.
pub room :
    (n : ℕ) (ms : List (List ℕ)) (r q p : List ℕ)
    → All IsFramed ms
    → All (λ m. length m ≤ n) ms
    → length r < n
    → q ++ p ≡ concat ms ++ r
    → is_ready q ≡ false
    → length q < n
room n [] r q p fs fit h e stop = omega (arith, ap length e, length-append q p)
room n (m ∷ ms) r q p (fm, fs) (fit, fits) h e stop = elim (dec_le (length m) (length q)) [
  | yes k ↦
      let (e₁, e₂) = append_split m q (concat ms ++ r) p (e ∙ append_assoc m (concat ms) r) k in
      absurd
        (true_false (sym (is_ready-framed m (drop (length m) q) fm) ∙ ap is_ready (sym e₁) ∙ stop))
  | no k ↦ omega arith
]
  where
    true_false : true ≡ false → ⊥
    true_false e = cc
