-- ===== src/Thread/Accounts.antt =====
-- The calls of OnWork and of Close in the states that the steps of the threads lead to.
use cpp_network_obj.Base.{
  ℕ, ◌+◌, ◌≤◌, ◌≡◌, refl, sym, subst, ◌∙◌, Bool, true, false, none, some, ltb, ◌&&◌, not,
  if◌then◌else◌, arith, Bool-cases, Option-cases, inl, inr, ltb→lt,
}
use cpp_network_obj.Semaphore.{Semaphore, wait, resume, wakeup}
use cpp_network_obj.Semaphore.Counts.{Counts, wait-Counts, wakeup-Counts, resume-Counts}
use cpp_network_obj.Thread.{
  CellThread, new_thread, start, close, close_end, exit_test, exit_set, work_wakes, work_ends,
}

-- The steps of the threads that use a CELLThread.
pub data Step : CellThread → CellThread → Type 0 where
  starts : {t t' : CellThread} → start t ≡ some t' → Step t t'
  closes : {t t' : CellThread} → close t ≡ some t' → Step t t'
  close_ends : {t t' : CellThread} → close_end t ≡ some t' → Step t t'
  exit_tests : {t t' : CellThread} → exit_test t ≡ some t' → Step t t'
  exit_sets : {t t' : CellThread} → exit_set t ≡ some t' → Step t t'
  wakes : {t t' : CellThread} → work_wakes t ≡ some t' → Step t t'
  ends : {t t' : CellThread} → work_ends t ≡ some t' → Step t t'

pub data Reach : CellThread → Type 0 where
  new : Reach new_thread
  next : {t t' : CellThread} → Reach t → Step t t' → Reach t'

abbrev one : Bool → ℕ
one b = if b then 1 else 0

-- The calls of OnWork, and those of Close that waited.
pub record Accounts (t : CellThread) : Type 0 where
  pub counts : Counts t.sem
  pub waiting : t.sem.blocked ≡ one t.closing
  pub workers : t.started ≡ t.running + t.exiting + t.sem.woken
  pub covered : t.sem.entered + one t.is_run ≤ t.started

-- What the semaphore's operations do to the ghost counters.
wait_counters :
    (s : Semaphore)
    → ((wait s).woken ≡ s.woken)
      × ((wait s).entered ≡ s.entered + 1)
      × ((wait s).blocked ≡ s.blocked + one (ltb s.blocked (wait s).blocked))
unfolding wait
wait_counters s = ground arith

wakeup_counters :
    (s : Semaphore)
    → ((wakeup s).woken ≡ s.woken + 1)
      × ((wakeup s).entered ≡ s.entered)
      × ((wakeup s).blocked ≡ s.blocked)
unfolding wakeup
wakeup_counters s = ground arith

resume_counters :
    (s s' : Semaphore)
    → resume s ≡ some s'
    → Counts s
    → (s'.woken ≡ s.woken) × (s'.entered ≡ s.entered) × (s'.blocked + 1 ≡ s.blocked)
unfolding resume
resume_counters s s' e c = ground (arith, c.standing)

-- Inversion of a step that has a condition.
allowed :
    (b : Bool) (x : CellThread) {t' : CellThread}
    → (if b then some x else none) ≡ some t'
    → (b ≡ true) × (x ≡ t')
allowed true x h = (refl, cc)
allowed false x h = cc

free :
    (b : Bool) (x : CellThread) {t' : CellThread}
    → (if b then none else some x) ≡ some t'
    → (b ≡ false) × (x ≡ t')
free false x h = (refl, cc)
free true x h = cc

both : (a b : Bool) → (a && b) ≡ true → a ≡ true
both true b h = refl
both false b h = h

pub and_false : (b : Bool) → (b && false) ≡ false
and_false true = refl
and_false false = refl

pub not_some : {x : CellThread} → none ≡ some x → ⊥
not_some h = cc

branches :
    (P : CellThread → Type 0) (b : Bool) (x y : CellThread)
    → (b ≡ true → P x)
    → (b ≡ false → P y)
    → P (if b then x else y)
branches P true x y f g = f refl
branches P false x y f g = g refl

covered_if :
    {t : CellThread} {b : Bool} → Accounts t → t.is_run ≡ b → t.sem.entered + one b ≤ t.started
covered_if {t} a h = subst (λ b. t.sem.entered + one b ≤ t.started) h a.covered

pub waiting_if : {t : CellThread} {b : Bool} → Accounts t → t.closing ≡ b → t.sem.blocked ≡ one b
waiting_if {t} a h = subst (λ b. t.sem.blocked ≡ one b) h a.waiting

start-Accounts : {t t' : CellThread} → start t ≡ some t' → Accounts t → Accounts t'
unfolding start
start-Accounts {t} e a =
    let (open_lock, same) = free t.closing _ e in
    subst Accounts same (
      branches Accounts t.is_run _ _ (λ h. a)
        (λ h. record {
          counts = a.counts;
          waiting = a.waiting;
          workers = omega (arith, a.workers);
          covered = omega (arith, covered_if a h);
        }))

close-Accounts : {t t' : CellThread} → close t ≡ some t' → Accounts t → Accounts t'
unfolding close
close-Accounts {t} e a =
    let (open_lock, same) = free t.closing _ e in
    let (woken, entered, blocked) = wait_counters t.sem in
    subst Accounts same (
      branches Accounts t.is_run _ _
        (λ h. record {
          counts = wait-Counts t.sem a.counts;
          waiting = omega (arith, blocked, waiting_if a open_lock);
          workers = omega (arith, a.workers, woken);
          covered = omega (arith, covered_if a h, entered);
        })
        (λ h. a))

close_end-Accounts : {t t' : CellThread} → close_end t ≡ some t' → Accounts t → Accounts t'
unfolding close_end
close_end-Accounts {t} {t'} e a = elim (Bool-cases t.closing) [
  | inr h ↦ absurd (not_some (sym (rw h refl) ∙ e))
  | inl h ↦ elim (Option-cases (resume t.sem)) [
    | inl stuck ↦ absurd (not_some (sym (rw h (rw stuck refl)) ∙ e))
    | inr (sem, resumed) ↦
        let same : record t { sem = sem; closing = false } ≡ t' = cc in
        let (woken, entered, blocked) = resume_counters t.sem sem resumed a.counts in
        subst Accounts same (record {
          counts = resume-Counts t.sem sem resumed a.counts;
          waiting = omega (arith, blocked, waiting_if a h);
          workers = omega (arith, a.workers, woken);
          covered = omega (arith, a.covered, entered);
        })
  ]
]

exit_test-Accounts : {t t' : CellThread} → exit_test t ≡ some t' → Accounts t → Accounts t'
unfolding exit_test
exit_test-Accounts {t} e a =
    let (some_run, same) = allowed (ltb 0 t.running) _ e in
    subst Accounts same (
      branches Accounts t.is_run _ _
        (λ h. record {
          counts = a.counts;
          waiting = a.waiting;
          workers = omega (arith, a.workers, ltb→lt 0 t.running some_run);
          covered = a.covered;
        })
        (λ h. a))

exit_set-Accounts : {t t' : CellThread} → exit_set t ≡ some t' → Accounts t → Accounts t'
unfolding exit_set
exit_set-Accounts {t} e a =
    let (can, same) = allowed (ltb 0 t.exiting && not t.closing) _ e in
    subst Accounts same (record {
      counts = a.counts;
      waiting = a.waiting;
      workers =
          omega (arith, a.workers, ltb→lt 0 t.exiting (both (ltb 0 t.exiting) (not t.closing) can));
      covered = omega (arith, a.covered);
    })

work_wakes-Accounts : {t t' : CellThread} → work_wakes t ≡ some t' → Accounts t → Accounts t'
unfolding work_wakes
work_wakes-Accounts {t} e a =
    let (some_run, same) = allowed (ltb 0 t.running) _ e in
    let (woken, entered, blocked) = wakeup_counters t.sem in
    subst Accounts same (record {
      counts = wakeup-Counts t.sem a.counts;
      waiting = blocked ∙ a.waiting;
      workers = omega (arith, a.workers, woken, ltb→lt 0 t.running some_run);
      covered = omega (arith, a.covered, entered);
    })

work_ends-Accounts : {t t' : CellThread} → work_ends t ≡ some t' → Accounts t → Accounts t'
unfolding work_ends
work_ends-Accounts {t} e a =
    let (can, same) = allowed (ltb 0 t.ending) _ e in
    subst Accounts same (record {
      counts = a.counts;
      waiting = a.waiting;
      workers = a.workers;
      covered = omega (arith, a.covered);
    })

pub reach-Accounts : {t : CellThread} → Reach t → Accounts t
reach-Accounts new = record {
  counts = record { waits = refl; callers = refl; standing = refl };
  waiting = refl;
  workers = refl;
  covered = omega arith;
}
reach-Accounts (next r (starts e)) = start-Accounts e (reach-Accounts r)
reach-Accounts (next r (closes e)) = close-Accounts e (reach-Accounts r)
reach-Accounts (next r (close_ends e)) = close_end-Accounts e (reach-Accounts r)
reach-Accounts (next r (exit_tests e)) = exit_test-Accounts e (reach-Accounts r)
reach-Accounts (next r (exit_sets e)) = exit_set-Accounts e (reach-Accounts r)
reach-Accounts (next r (wakes e)) = work_wakes-Accounts e (reach-Accounts r)
reach-Accounts (next r (ends e)) = work_ends-Accounts e (reach-Accounts r)
