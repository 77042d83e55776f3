-- ===== src/MyClient/Missing.antt =====
-- The end of WorkThread where it was stopped while it made its clients.
use cpp_network_obj.Base.{
  ◌≡◌, refl, Bool, true, false, Option, none, some, List, [], ◌∷◌, ℤ, pos, ◌+ℤ◌, if◌then◌else◌,
  ◌>>=◌, Bool-cases, inl, inr,
}
use cpp_network_obj.Buffer.{Socket}
use cpp_network_obj.MyClient.Work.{Member}
use cpp_network_obj.MyClient.Setup.{Reply, Options, make_all, connect_one, connect_all, close_all}

abbrev has_null : List (Option Member) → Bool
has_null [] = false
has_null (none ∷ slots) = true
has_null (some m ∷ slots) = has_null slots

abbrev pub all_made : List Reply → Bool
all_made [] = true
all_made (r ∷ rs) = if r.made then all_made rs else false

close_all-null : (slots : List (Option Member)) → has_null slots ≡ true → close_all slots ≡ none
unfolding close_all
close_all-null [] h = cc
close_all-null (none ∷ slots) h = refl
close_all-null (some m ∷ slots) h = rw (close_all-null slots h) refl

-- What follows the loop that connects the clients.
abbrev then_close : Option (ℤ × List (Option Member)) → Option (List Socket)
unfolding close_all
then_close x = x >>= λ (n, slots). close_all slots

after_none :
    (x : Option (ℤ × List (Option Member))) (m : Member)
    → then_close x ≡ none
    → then_close (x >>= λ (n, slots). some (n, some m ∷ slots)) ≡ none
unfolding close_all
after_none none m h = refl
after_none (some (n, slots)) m h = rw h refl

connected_none :
    (x : Option (Bool × Member)) (rest : Option (ℤ × List (Option Member)))
    (slots : List (Option Member)) (n : ℤ)
    → then_close rest ≡ none
    → close_all slots ≡ none
    → then_close (
        x >>= λ (go, m').
        if go
        then (rest >>= λ (n', slots'). some (n', some m' ∷ slots'))
        else some (n, some m' ∷ slots))
      ≡ none
unfolding close_all
connected_none none rest slots n h g = refl
connected_none (some (true, m)) rest slots n h g = after_none rest m h
connected_none (some (false, m)) rest slots n h g = rw g refl

connect_all-null :
    (o : Options) (rs : List Reply) (slots : List (Option Member)) (n : ℤ)
    → has_null slots ≡ true
    → then_close (connect_all o rs slots n) ≡ none
unfolding connect_all close_all
connect_all-null o [] slots n h = close_all-null slots h
connect_all-null o (r ∷ rs) [] n h = cc
connect_all-null o (r ∷ rs) (none ∷ slots) n h = elim (Bool-cases r.run) [
  | inl e ↦ rw e refl
  | inr e ↦ rw e refl
]
connect_all-null o (r ∷ rs) (some m ∷ slots) n h = elim (Bool-cases r.run) [
  | inl e ↦ rw e (
      connected_none (connect_one o r m) (connect_all o rs slots (n +ℤ pos 1)) slots n
        (connect_all-null o rs slots (n +ℤ pos 1) h) (close_all-null slots h))
  | inr e ↦ rw e (close_all-null (some m ∷ slots) h)
]

make_all-null :
    (o : Options) (rs : List Reply) → all_made rs ≡ false → has_null (make_all o rs) ≡ true
unfolding make_all
make_all-null o [] h = cc
make_all-null o (r ∷ rs) h = elim (Bool-cases r.made) [
  | inl e ↦ rw e (make_all-null o rs (rw⁻¹ h (rw e refl)))
  | inr e ↦ rw e refl
]

-- Where the thread is stopped before it has made all its clients, it closes a client through a null
-- pointer, or has connected one through it before.
pub ending-null :
    (o : Options) (rs : List Reply) (n : ℤ)
    → all_made rs ≡ false
    → (connect_all o rs (make_all o rs) n >>= λ (n', slots). close_all slots) ≡ none
unfolding close_all
ending-null o rs n h = connect_all-null o rs (make_all o rs) n (make_all-null o rs h)
