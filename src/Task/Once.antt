-- ===== src/Task/Once.antt =====
-- Each task is executed once, in the order in which the tasks were added.
use cpp_network_obj.Base.{
  ℕ, ◌+◌, ◌≤◌, arith, length, drop, drop-drop, drop-append_le, length-append, length-drop, ◌≡◌,
  refl, ap, sym, subst, ◌∙◌, List, [], ◌∷◌, ◌++◌, append_assoc, append-nil,
}
use cpp_network_obj.Task.{
  Place, at_test, taken, finishing, ended, TaskServer, create, add_task, take_tasks, run_tasks,
  start_finish, finish_task,
}

module _ {T : Type 0} where
  -- The steps of the thread and of those that add tasks, in any order; the second index lists what
  -- has been added, and the third what was added after the thread had ended.
  pub data Reach : TaskServer T → List T → List T → Type 0 where
    new : Reach create [] []
    adds :
        {s : TaskServer T} {added : List T} (t : T)
        → Reach s added []
        → (s.place ≡ ended → ⊥)
        → Reach (add_task s t) (added ++ t ∷ []) []
    adds_late :
        {s : TaskServer T} {added late : List T} (t : T)
        → Reach s added late
        → s.place ≡ ended
        → Reach (add_task s t) added (late ++ t ∷ [])
    takes :
        {s : TaskServer T} {added late : List T}
        → Reach s added late
        → s.place ≡ at_test
        → Reach (take_tasks s) added late
    runs :
        {s : TaskServer T} {added late : List T}
        → Reach s added late
        → s.place ≡ taken
        → Reach (run_tasks s) added late
    starts_finish :
        {s : TaskServer T} {added late : List T}
        → Reach s added late
        → s.place ≡ at_test
        → Reach (start_finish s) added late
    finishes :
        {s : TaskServer T} {added late : List T}
        → Reach s added late
        → s.place ≡ finishing
        → Reach (finish_task s) added late

  -- What has been executed, and what is still to come, at each place of the thread.
  abbrev KeptAt : Place → (tasks buf executed : List T) → ℕ → (added : List T) → Type 0
  KeptAt at_test tasks buf executed next added = (tasks ≡ []) × (executed ++ buf ≡ added)
  KeptAt taken tasks buf executed next added = executed ++ (tasks ++ buf) ≡ added
  KeptAt finishing tasks buf executed next added =
      (next ≤ length buf) × (executed ++ drop next buf ≡ added)
  KeptAt ended tasks buf executed next added = executed ≡ added

  abbrev pub Kept : TaskServer T → List T → Type 0
  Kept s added = KeptAt s.place s.tasks s.tasks_buf s.executed s.next added

  add-KeptAt :
      (p : Place) (tasks buf executed : List T) (next : ℕ) (added : List T) (t : T)
      → (p ≡ ended → ⊥)
      → KeptAt p tasks buf executed next added
      → KeptAt p tasks (buf ++ t ∷ []) executed next (added ++ t ∷ [])
  add-KeptAt at_test tasks buf executed next added t running (none, e) =
      (none, sym (append_assoc executed buf (t ∷ [])) ∙ ap (λ l. l ++ t ∷ []) e)
  add-KeptAt taken tasks buf executed next added t running e =
      ap (◌++◌ executed) (sym (append_assoc tasks buf (t ∷ [])))
      ∙ sym (append_assoc executed (tasks ++ buf) (t ∷ []))
      ∙ ap (λ l. l ++ t ∷ []) e
  add-KeptAt finishing tasks buf executed next added t running (inside, e) = (
    omega (arith, inside, length-append buf (t ∷ [])),
    ap (◌++◌ executed) (drop-append_le next buf (t ∷ []) inside)
        ∙ sym (append_assoc executed (drop next buf) (t ∷ []))
        ∙ ap (λ l. l ++ t ∷ []) e,
  )
  add-KeptAt ended tasks buf executed next added t running e = absurd (running refl)

  -- A case of KeptAt, at a place that is known.
  at :
      (s : TaskServer T) (added : List T) (p : Place)
      → s.place ≡ p
      → Kept s added
      → KeptAt p s.tasks s.tasks_buf s.executed s.next added
  at s added p e k = subst (λ x. KeptAt x s.tasks s.tasks_buf s.executed s.next added) e k

  -- A step of the last loop.
  finish_task-Kept :
      (s : TaskServer T) (added : List T)
      → s.place ≡ finishing
      → (rest : List T) → drop s.next s.tasks_buf ≡ rest
      → Kept s added
      → Kept (finish_task s) added
  unfolding finish_task
  finish_task-Kept s added e [] left k =
      let (inside, all) = at s added finishing e k in
      let ends : finish_task s ≡ record s { place = ended } = rw (left, finish_task) refl in
      subst (λ x. Kept x added) (sym ends)
        (sym (append-nil s.executed) ∙ ap (◌++◌ s.executed) (sym left) ∙ all)
  finish_task-Kept s added e (t ∷ rest) left k =
      let (inside, all) = at s added finishing e k in
      let after : drop (s.next + 1) s.tasks_buf ≡ rest =
        sym (drop-drop s.next 1 s.tasks_buf) ∙ ap (drop 1) left in
      let calls : finish_task s ≡ record s { executed = s.executed ++ t ∷ []; next = s.next + 1 } =
        rw (left, finish_task) refl in
      subst (λ x. Kept x added) (sym calls)
        (subst (λ p. KeptAt p s.tasks s.tasks_buf (s.executed ++ t ∷ []) (s.next + 1) added) (sym e)
          (
            omega (arith, length-drop s.next s.tasks_buf, ap length left),
            append_assoc s.executed (t ∷ []) (drop (s.next + 1) s.tasks_buf)
                ∙ ap (λ l. s.executed ++ t ∷ l) after
                ∙ ap (◌++◌ s.executed) (sym left)
                ∙ all,
          ))

  -- In any order of the steps, with tasks added also while the last loop runs: at each place of the
  -- thread, the tasks executed, followed by those taken over and those buffered that the last loop has
  -- not passed, are the tasks that were added before the end of that loop, each once and in order; when
  -- the loop has ended exactly these have been executed, and a task that is added later never is.
  pub reach-Kept : {s : TaskServer T} {added late : List T} → Reach s added late → Kept s added
  unfolding add_task take_tasks run_tasks start_finish
  reach-Kept new = (refl, refl)
  reach-Kept (adds {s = s} {added = added} t r running) =
      add-KeptAt s.place s.tasks s.tasks_buf s.executed s.next added t running (reach-Kept r)
  reach-Kept (adds_late {s = s} {added = added} t r e) =
      subst (λ x. KeptAt x s.tasks (s.tasks_buf ++ t ∷ []) s.executed s.next added) (sym e)
        (at s added ended e (reach-Kept r))
  reach-Kept (takes {s = s} {added = added} r e) =
      ap (◌++◌ s.executed) (append-nil (s.tasks ++ s.tasks_buf))
      ∙ ap (λ l. s.executed ++ (l ++ s.tasks_buf)) (at s added at_test e (reach-Kept r)).0
      ∙ (at s added at_test e (reach-Kept r)).1
  reach-Kept (runs {s = s} {added = added} r e) =
      (refl, append_assoc s.executed s.tasks s.tasks_buf ∙ at s added taken e (reach-Kept r))
  reach-Kept (starts_finish {s = s} {added = added} r e) =
      (omega arith, (at s added at_test e (reach-Kept r)).1)
  reach-Kept (finishes {s = s} {added = added} r e) =
      finish_task-Kept s added e (drop s.next s.tasks_buf) refl (reach-Kept r)
