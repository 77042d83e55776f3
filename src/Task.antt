-- ===== src/Task.antt =====
-- depends/include/CELLTask.hpp: the tasks of a task server, in the order of the calls of addTask. The
-- thread's loop is cut into steps where other threads can come between; its sleep is left out. The thread tests and walks over the buffer without
-- the mutex; a step of it is taken to see the buffer before or after a call of addTask, not in between.
pub mod Once
use cpp_network_obj.Base.{ℕ, ◌+◌, List, [], ◌∷◌, ◌++◌, drop}

-- Where the thread stands: at the test of isRun(), behind the taking of the buffered tasks, in the loop
-- behind that, or past its end.
pub data Place : Type 0 where
  at_test taken finishing ended : Place

-- `executed` are the tasks that have been called, oldest first; `next` is the place in the buffer of the
-- iterator of the last loop.
pub record TaskServer (T : Type 0) : Type 0 where
  pub tasks : List T
  pub tasks_buf : List T
  pub executed : List T
  pub next : ℕ
  pub place : Place

module _ {T : Type 0} where
  abbrev pub create : TaskServer T
  create = record { tasks = []; tasks_buf = []; executed = []; next = 0; place = Place.at_test }

  unfoldable pub add_task : TaskServer T → T → TaskServer T
  add_task s t = record s { tasks_buf = s.tasks_buf ++ t ∷ [] }

  -- The first part of a round: the buffered tasks are taken over.
  unfoldable pub take_tasks : TaskServer T → TaskServer T
  take_tasks s = record s { tasks = s.tasks ++ s.tasks_buf; tasks_buf = []; place = Place.taken }

  -- The second part: all tasks are called and cleared.
  unfoldable pub run_tasks : TaskServer T → TaskServer T
  run_tasks s = record s { tasks = []; executed = s.executed ++ s.tasks; place = Place.at_test }

  -- Behind the loop: the last loop starts at the first of the buffered tasks, and takes no mutex.
  unfoldable pub start_finish : TaskServer T → TaskServer T
  start_finish s = record s { next = 0; place = Place.finishing }

  -- A step of the last loop: it ends where the iterator is behind the last of the buffered tasks, as they
  -- are by then, and else calls the task and moves on.
  unfoldable pub finish_task : TaskServer T → TaskServer T
  finish_task s = elim (drop s.next s.tasks_buf) [
    | [] ↦ record s { place = Place.ended }
    | t ∷ rest ↦ record s { executed = s.executed ++ t ∷ []; next = s.next + 1 }
  ]
