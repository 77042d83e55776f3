-- ===== src/Thread/Closing.antt =====
-- When Close of a thread can return.
use cpp_network_obj.Base.{
  ◌+◌, ◌-◌, ◌≤◌, ◌<◌, ◌≡◌, refl, sym, ◌∙◌, true, false, some, ltb, ◌==◌, ==_iff, arith, Bool-cases,
  inl, inr, ◌⊎◌,
}
use cpp_network_obj.Semaphore.{resume}
use cpp_network_obj.Thread.{
  CellThread, start, close, close_end, exit_test, exit_set, work_wakes, work_ends,
}
use cpp_network_obj.Thread.Accounts.{
  Step, starts, closes, close_ends, exit_tests, exit_sets, wakes, ends, Reach, Accounts, waiting_if,
  not_some, and_false, reach-Accounts,
}

can_return :
    (t : CellThread)
    → Accounts t
    → t.closing ≡ true
    → ((t' : CellThread) × (close_end t ≡ some t')) ⊎ (0 < t.running + t.exiting)
unfolding close_end resume
can_return t a h = elim (Bool-cases (t.sem.wakeups == 0)) [
  | inr e ↦ inl (
    record t {
      sem = record (t.sem) {
        wakeups = t.sem.wakeups - 1;
        blocked = t.sem.blocked - 1;
        returned = t.sem.returned + 1;
      };
      closing = false;
    },
    rw h (rw e refl),
  )
  | inl e ↦ inr (
      omega (
        arith,
        (==_iff t.sem.wakeups 0).0 e,
        waiting_if a h,
        a.counts.standing,
        a.workers,
        a.covered,
      ))
]

-- In every state that the steps lead to, in any order: no more calls of Close have waited and returned
-- than calls of OnWork have passed their wakeup; each call of OnWork that has begun is in onRun, in
-- Exit, or has passed it; and a call of Close that waits either can return, or some call of OnWork is
-- still to pass its wakeup.
pub thread-Reach :
    {t : CellThread}
    → Reach t
    → (t.sem.returned ≤ t.sem.woken)
      × (t.started ≡ t.running + t.exiting + t.sem.woken)
      × (t.closing ≡ true
          → ((t' : CellThread) × (close_end t ≡ some t')) ⊎ (0 < t.running + t.exiting))
thread-Reach {t} r =
    let a = reach-Accounts r in
    (omega (arith, a.counts.callers, a.counts.standing), a.workers, (λ h. can_return t a h))

-- While a call of Close waits for the semaphore, which holds no wakeup, and no call of OnWork is
-- left but those in Exit before its mutex, no step of Start, Close, Exit or OnWork is possible:
-- Exit waits for the mutex that Close holds, and Close for the wakeup of an OnWork.
pub exit-close-stuck :
    (t : CellThread)
    → t.closing ≡ true
    → t.running ≡ 0
    → t.ending ≡ 0
    → t.sem.wakeups ≡ 0
    → ¬ ((t' : CellThread) × Step t t')
unfolding start close close_end exit_test exit_set work_wakes work_ends resume
exit-close-stuck t h run ended empty (t', starts e) = not_some (sym (rw h refl) ∙ e)
exit-close-stuck t h run ended empty (t', closes e) = not_some (sym (rw h refl) ∙ e)
exit-close-stuck t h run ended empty (t', close_ends e) = not_some (sym (rw h (rw empty refl)) ∙ e)
exit-close-stuck t h run ended empty (t', exit_tests e) = not_some (sym (rw run refl) ∙ e)
exit-close-stuck t h run ended empty (t', exit_sets e) =
    not_some (sym (rw h (rw (and_false (ltb 0 t.exiting)) refl)) ∙ e)
exit-close-stuck t h run ended empty (t', wakes e) = not_some (sym (rw run refl) ∙ e)
exit-close-stuck t h run ended empty (t', ends e) = not_some (sym (rw ended refl) ∙ e)
