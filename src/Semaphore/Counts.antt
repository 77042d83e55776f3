-- ===== src/Semaphore/Counts.antt =====
-- How many callers of wait() have returned, and that no wakeup is lost.
use cpp_network_obj.Base.{
  ℕ, ◌+◌, ◌-◌, ◌≤◌, ◌≡◌, refl, ap, ◌∙◌, some, pos, negsuc, ◌+ℤ◌, sub_ℕ, leb_ℤ, arith, ltb, leb,
  Bool-cases, inl, inr, ltb→lt, leb→le,
}
use cpp_network_obj.Semaphore.{Semaphore, is_negative, create, wait, resume, wakeup}

-- The steps of the threads that use a semaphore, in any order.
pub data Step : Semaphore → Semaphore → Type 0 where
  waits : (s : Semaphore) → Step s (wait s)
  resumes : (s s' : Semaphore) → resume s ≡ some s' → Step s s'
  wakes : (s : Semaphore) → Step s (wakeup s)

pub data Reach : Semaphore → Type 0 where
  new : Reach create
  next : {s s' : Semaphore} → Reach s → Step s s' → Reach s'

-- How the counters of the code stand to the callers.
pub record Counts (s : Semaphore) : Type 0 where
  pub waits : s.waits ≡ sub_ℕ s.woken s.entered
  pub callers : s.entered ≡ s.returned + s.blocked
  pub standing : s.blocked ≡ s.wakeups + (s.entered - s.woken)

sub_down : (a b : ℕ) → sub_ℕ a b +ℤ negsuc 0 ≡ sub_ℕ a (b + 1)
unfolding ◌+ℤ◌
sub_down a b = ground arith

sub_up : (a b : ℕ) → sub_ℕ a b +ℤ pos 1 ≡ sub_ℕ (a + 1) b
unfolding ◌+ℤ◌
sub_up a b = ground arith

is_negative-sub : (a b : ℕ) → is_negative (sub_ℕ a b) ≡ ltb a b
is_negative-sub a b = ground arith

leb_ℤ-sub : (a b : ℕ) → leb_ℤ (sub_ℕ a b) (pos 0) ≡ leb a b
leb_ℤ-sub a b = ground arith

pub wait-Counts : (s : Semaphore) → Counts s → Counts (wait s)
unfolding wait
wait-Counts s c =
    let down : s.waits +ℤ negsuc 0 ≡ sub_ℕ s.woken (s.entered + 1) =
      ap (λ w. w +ℤ negsuc 0) c.waits ∙ sub_down s.woken s.entered in
    let test = ap is_negative down ∙ is_negative-sub s.woken (s.entered + 1) in
    elim (Bool-cases (ltb s.woken (s.entered + 1))) [
      | inl e ↦ rw (test ∙ e) (record {
        waits = down;
        callers = omega (arith, c.callers);
        standing = omega (arith, c.standing, ltb→lt s.woken (s.entered + 1) e);
      })
      | inr e ↦ rw (test ∙ e) (record {
        waits = down;
        callers = omega (arith, c.callers);
        standing = ground (arith, c.standing, e);
      })
    ]

pub wakeup-Counts : (s : Semaphore) → Counts s → Counts (wakeup s)
unfolding wakeup
wakeup-Counts s c =
    let up : s.waits +ℤ pos 1 ≡ sub_ℕ (s.woken + 1) s.entered =
      ap (λ w. w +ℤ pos 1) c.waits ∙ sub_up s.woken s.entered in
    let test = ap (λ w. leb_ℤ w (pos 0)) up ∙ leb_ℤ-sub (s.woken + 1) s.entered in
    elim (Bool-cases (leb (s.woken + 1) s.entered)) [
      | inl e ↦ rw (test ∙ e) (record {
        waits = up;
        callers = c.callers;
        standing = omega (arith, c.standing, leb→le (s.woken + 1) s.entered e);
      })
      | inr e ↦
          rw (test ∙ e)
            (record { waits = up; callers = c.callers; standing = ground (arith, c.standing, e) })
    ]

pub resume-Counts : (s s' : Semaphore) → resume s ≡ some s' → Counts s → Counts s'
unfolding resume
resume-Counts s s' e c = ground (arith, c.waits, c.callers, c.standing)

reach-Counts : {s : Semaphore} → Reach s → Counts s
reach-Counts new = record { waits = refl; callers = refl; standing = refl }
reach-Counts (next r (waits s)) = wait-Counts s (reach-Counts r)
reach-Counts (next r (resumes s s' e)) = resume-Counts s s' e (reach-Counts r)
reach-Counts (next r (wakes s)) = wakeup-Counts s (reach-Counts r)

-- In every state that calls of wait() and wakeup() lead to, in any order: no more callers of wait()
-- have returned than wakeup() was called; each caller has returned or is blocked; and where wakeup() has
-- been called at least as often as wait(), each blocked caller has a wakeup that lets it go.
pub semaphore-Reach :
    {s : Semaphore}
    → Reach s
    → (s.returned ≤ s.woken)
      × (s.entered ≡ s.returned + s.blocked)
      × (s.entered ≤ s.woken → s.blocked ≡ s.wakeups)
semaphore-Reach r =
    let c = reach-Counts r in
    (omega (arith, c.callers, c.standing), c.callers, (λ h. omega (arith, c.standing, h)))
