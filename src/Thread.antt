-- ===== src/Thread.antt =====
-- depends/include/CELLThread.hpp: a thread that can be started, closed and left, as steps that the
-- program's threads take in any order. What a mutex keeps together is one step, but for Close, which
-- holds the mutex while it waits for the semaphore.
pub mod Accounts
pub mod Closing
use cpp_network_obj.Base.{
  ℕ, zero, suc, ◌+◌, ◌-◌, ◌<◌, ◌≡◌, Bool, true, false, Option, none, some, ltb, ◌&&◌, not,
  if◌then◌else◌, ◌>>=◌,
}
use cpp_network_obj.Semaphore.{Semaphore, create, wait, resume, wakeup}
use cpp_network_obj.Semaphore

-- `running` calls of OnWork are in onRun, `exiting` of them have found _isRun set in Exit and wait for
-- its mutex, and `ending` are past the semaphore. `closing` says that a call of Close is inside
-- wait(), and holds the mutex; `started` calls of OnWork have begun.
pub record CellThread : Type 0 where
  pub is_run : Bool
  pub sem : Semaphore
  pub running : ℕ
  pub exiting : ℕ
  pub ending : ℕ
  pub closing : Bool
  pub started : ℕ

abbrev pub new_thread : CellThread
new_thread = record {
  is_run = false;
  sem = create;
  running = 0;
  exiting = 0;
  ending = 0;
  closing = false;
  started = 0;
}

-- Start; `none` while another call holds the mutex.
unfoldable pub start : CellThread → Option CellThread
start t =
    if t.closing
    then none
    else some (
        if t.is_run
        then t
        else record t { is_run = true; running = t.running + 1; started = t.started + 1 })

-- Close, up to where it waits for the semaphore or returns.
unfoldable pub close : CellThread → Option CellThread
unfolding wait
close t =
    if t.closing
    then none
    else some (
        if t.is_run
        then (let sem = wait t.sem in
            record t { is_run = false; sem = sem; closing = ltb t.sem.blocked sem.blocked })
        else t)

-- Close returns from the wait.
unfoldable pub close_end : CellThread → Option CellThread
unfolding resume
close_end t =
    if t.closing
    then (resume t.sem >>= λ sem. some (record t { sem = sem; closing = false }))
    else none

-- Exit, called in onRun: the test of _isRun.
unfoldable pub exit_test : CellThread → Option CellThread
exit_test t =
    if ltb 0 t.running
    then some
        (if t.is_run then record t { running = t.running - 1; exiting = t.exiting + 1 } else t)
    else none

-- The rest of Exit, under the mutex.
unfoldable pub exit_set : CellThread → Option CellThread
exit_set t =
    if ltb 0 t.exiting && not t.closing
    then some (record t { is_run = false; running = t.running + 1; exiting = t.exiting - 1 })
    else none

-- OnWork behind onRun: the wakeup, and then the end.
unfoldable pub work_wakes : CellThread → Option CellThread
unfolding wakeup
work_wakes t =
    if ltb 0 t.running
    then some (record t { sem = wakeup t.sem; running = t.running - 1; ending = t.ending + 1 })
    else none

unfoldable pub work_ends : CellThread → Option CellThread
work_ends t =
    if ltb 0 t.ending then some (record t { is_run = false; ending = t.ending - 1 }) else none
