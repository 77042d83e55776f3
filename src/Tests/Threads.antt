-- ===== src/Tests/Threads.antt =====
-- The semaphore and the task server in concrete runs.
use cpp_network_obj.Base.{ℕ, ◌+◌, ◌≤◌, ◌<◌, ◌≡◌, refl, true, false, some, [], ◌∷◌, ◌⊎◌, ◌+ℤ◌}
use cpp_network_obj.Semaphore.{Semaphore, wait, wakeup}
use cpp_network_obj.Semaphore
use cpp_network_obj.Semaphore.Counts.{semaphore-Reach}
use cpp_network_obj.Semaphore.Counts
use cpp_network_obj.Thread.{CellThread, start, close, close_end, exit_test}
use cpp_network_obj.Thread.Accounts
use cpp_network_obj.Thread.Closing.{thread-Reach, exit-close-stuck}
use cpp_network_obj.Task.{
  Place, at_test, taken, ended, TaskServer, add_task, take_tasks, run_tasks, start_finish,
  finish_task,
}
use cpp_network_obj.Task
use cpp_network_obj.Task.Once.{Kept, reach-Kept}
use cpp_network_obj.Task.Once

-- A caller that waits before it is woken.
abbrev woken_once : Semaphore
woken_once = wakeup (wait Semaphore.create)

woken_once-Reach : Counts.Reach woken_once
woken_once-Reach =
    Counts.Reach.next (Counts.Reach.next Counts.Reach.new (Counts.Step.waits Semaphore.create))
      (Counts.Step.wakes (wait Semaphore.create))

semaphore-Reach_example :
    (woken_once.returned ≤ woken_once.woken)
    × (woken_once.entered ≡ woken_once.returned + woken_once.blocked)
    × (woken_once.entered ≤ woken_once.woken → woken_once.blocked ≡ woken_once.wakeups)
semaphore-Reach_example = semaphore-Reach woken_once-Reach

-- Three tasks: the second comes while the first is executed, the third while the last loop runs.
abbrev three_tasks : TaskServer ℕ
three_tasks = finish_task (
    finish_task (
      finish_task
        (add_task (start_finish (run_tasks (add_task (take_tasks (add_task Task.create 5)) 7))) 9)))

three_tasks-Reach : Once.Reach three_tasks (5 ∷ 7 ∷ 9 ∷ []) []
unfolding add_task take_tasks run_tasks start_finish finish_task
three_tasks-Reach =
    Once.Reach.finishes
      (Once.Reach.finishes
        (Once.Reach.finishes
          (Once.Reach.adds 9
            (Once.Reach.starts_finish
              (Once.Reach.runs
                (Once.Reach.adds 7
                  (Once.Reach.takes (Once.Reach.adds 5 Once.Reach.new (λ e. cc)) refl) (λ e. cc))
                refl)
              refl)
            (λ e. cc))
          refl)
        refl)
      refl

reach-Kept_example : Kept three_tasks (5 ∷ 7 ∷ 9 ∷ [])
reach-Kept_example = reach-Kept three_tasks-Reach

-- A thread that stands in Exit before its mutex, while Close waits.
abbrev locked : CellThread
locked = record {
  is_run = false;
  sem = wait Semaphore.create;
  running = 0;
  exiting = 1;
  ending = 0;
  closing = true;
  started = 1;
}

locked-Reach : Accounts.Reach locked
unfolding start close exit_test wait ◌+ℤ◌
locked-Reach =
    Accounts.Reach.next
      (Accounts.Reach.next (Accounts.Reach.next Accounts.Reach.new (Accounts.Step.starts refl))
        (Accounts.Step.exit_tests refl))
      (Accounts.Step.closes refl)

thread-Reach_example :
    (locked.sem.returned ≤ locked.sem.woken)
    × (locked.started ≡ locked.running + locked.exiting + locked.sem.woken)
    × (locked.closing ≡ true
        → ((t' : CellThread) × (close_end locked ≡ some t'))
          ⊎ (0 < locked.running + locked.exiting))
thread-Reach_example = thread-Reach locked-Reach

exit-close-stuck_example : ¬ ((t' : CellThread) × Accounts.Step locked t')
unfolding wait ◌+ℤ◌
exit-close-stuck_example = exit-close-stuck locked refl refl refl refl
