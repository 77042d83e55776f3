-- ===== src/Semaphore.antt =====
-- depends/include/CELLSemaphore.hpp, with ghost counters of the callers of wait(). The two parts of
-- wait(), before and after it blocks, are two operations; the mutex makes each of them and wakeup() one
-- step.
pub mod Counts
use cpp_network_obj.Base.{
  ℕ, ◌==◌, ◌+◌, ◌-◌, Bool, true, false, Option, none, some, ℤ, pos, negsuc, ◌+ℤ◌, leb_ℤ,
  if◌then◌else◌,
}

-- `waits` and `wakeups` are _wait and _wakeup. `entered` calls of wait() have begun, `blocked` of
-- them stand in the condition variable, `returned` are done; `woken` calls of wakeup() are done.
pub record Semaphore : Type 0 where
  pub waits : ℤ
  pub wakeups : ℕ
  pub entered : ℕ
  pub blocked : ℕ
  pub returned : ℕ
  pub woken : ℕ

abbrev pub create : Semaphore
create = record { waits = pos 0; wakeups = 0; entered = 0; blocked = 0; returned = 0; woken = 0 }

abbrev pub is_negative : ℤ → Bool
is_negative (pos n) = false
is_negative (negsuc n) = true

-- wait(), up to where it blocks or returns.
unfoldable pub wait : Semaphore → Semaphore
wait s =
    let s' : Semaphore = record s { waits = s.waits +ℤ negsuc 0; entered = s.entered + 1 } in
    if is_negative s'.waits
    then record s' { blocked = s'.blocked + 1 }
    else record s' { returned = s'.returned + 1 }

-- The condition variable lets one of the blocked callers go once _wakeup is above 0.
unfoldable pub resume : Semaphore → Option Semaphore
resume s =
    if s.wakeups == 0
    then none
    else some
        (record s { wakeups = s.wakeups - 1; blocked = s.blocked - 1; returned = s.returned + 1 })

unfoldable pub wakeup : Semaphore → Semaphore
wakeup s =
    let s' : Semaphore = record s { waits = s.waits +ℤ pos 1; woken = s.woken + 1 } in
    if leb_ℤ s'.waits (pos 0) then record s' { wakeups = s'.wakeups + 1 } else s'
