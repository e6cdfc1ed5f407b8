-- ===== src/Storage/Stats.antt =====
-- The statistics of a goal's tasks.
use mathlib.Core.Path.{subst, sym}
use mathlib.Core.List.{◌++◌ as append}
use opc_platform.Prelude.{
  ℕ, suc, map, length, ◌&&◌, ◌+◌, ◌≤◌, String, Bool, true, false, ◌≡◌, refl, ap, ◌∙◌, some, List,
  [], ◌∷◌, if◌then◌else◌, arith, str_eq, eq_iff, Map, lookup, has_key, insert, keep, Bool-cases,
  inl, inr,
}
use opc_platform.Storage.{Store, TaskRecord, HierarchyStats, rows, task_completed, task_failed}
use opc_platform.Storage.Agents.{create_task}
use opc_platform.Storage.Goals.{sum_of, one_if, stats_of, goal_stats}

rows-insert :
    {R : Type 0} (key : String) (row : R) (table : Map R)
    → has_key key table ≡ false
    → rows (insert key row table) ≡ append (rows table) (row ∷ [])
unfolding insert lookup rows
rows-insert key row [] h = refl
rows-insert key row ((k, r) ∷ table) h = ground (arith, h, rows-insert key row table)

keep-append :
    {R : Type 0} (p : R → Bool) (xs : List R) (x : R)
    → keep p (append xs (x ∷ [])) ≡ (if p x then append (keep p xs) (x ∷ []) else keep p xs)
keep-append p [] x = ground arith
keep-append p (y ∷ xs) x = ground (arith, keep-append p xs x)

-- A status is one of the two at most.
one_status :
    (s : String)
    → (if str_eq s task_completed then 1 else 0) + (if str_eq s task_failed then 1 else 0) ≤ 1
one_status s = elim (Bool-cases (str_eq s task_completed)) [
  | inl completed ↦
      let named : s ≡ task_completed = ground (arith, completed, eq_iff s task_completed) in
      subst
        (λ x.
          (if str_eq x task_completed then 1 else 0) + (if str_eq x task_failed then 1 else 0) ≤ 1)
        (sym named) (omega arith)
  | inr other ↦ ground (arith, other)
]

create_task-inv :
    {C : Type 0} (t : TaskRecord C) (s s' : Store C)
    → create_task t s ≡ some s'
    → (s.available ≡ true)
      × (has_key t.task_id s.tasks ≡ false)
      × (s' ≡ record s { tasks = insert t.task_id t s.tasks })
unfolding create_task
create_task-inv t s s' e = (ground (arith, e), ground (arith, e), ground (arith, e))

module _ {C : Type 0} where
  sum_of-append :
      (column : TaskRecord C → ℕ) (tasks : List (TaskRecord C)) (t : TaskRecord C)
      → sum_of column (append tasks (t ∷ [])) ≡ sum_of column tasks + column t
  unfolding sum_of
  sum_of-append column [] t = omega arith
  sum_of-append column (x ∷ tasks) t = omega (arith, sum_of-append column tasks t)

  length-append :
      (tasks : List (TaskRecord C)) (t : TaskRecord C)
      → length (append tasks (t ∷ [])) ≡ suc (length tasks)
  length-append [] t = refl
  length-append (x ∷ tasks) t = ap suc (length-append tasks t)

  costs-append :
      (tasks : List (TaskRecord C)) (t : TaskRecord C)
      → map (λ x. x.cost) (append tasks (t ∷ [])) ≡ append (map (λ x. x.cost) tasks) (t.cost ∷ [])
  costs-append [] t = refl
  costs-append (x ∷ tasks) t = ap (λ cs. x.cost ∷ cs) (costs-append tasks t)

  ended-le :
      (tasks : List (TaskRecord C))
      → sum_of (one_if task_completed) tasks + sum_of (one_if task_failed) tasks ≤ length tasks
  unfolding sum_of
  ended-le [] = omega arith
  ended-le (t ∷ tasks) = omega (arith, ended-le tasks, one_status t.status)

module _ {C : Type 0} (sum_real : List C → C) where
  -- How the columns of a goal grow by a task, if the task is one of the goal.
  abbrev Grown : TaskRecord C → Bool → List (TaskRecord C) → List (TaskRecord C) → Type 0
  Grown t mine tasks grown =
      let old = stats_of sum_real tasks in
      let new = stats_of sum_real grown in
      (new.total_tokens_in ≡ old.total_tokens_in + (if mine then t.tokens_in else 0))
      × (new.total_tokens_out ≡ old.total_tokens_out + (if mine then t.tokens_out else 0))
      × (new.task_count ≡ old.task_count + (if mine then 1 else 0))
      × (new.completed_tasks
          ≡ old.completed_tasks + (if mine && str_eq t.status "Completed" then 1 else 0))
      × (new.failed_tasks ≡ old.failed_tasks + (if mine && str_eq t.status "Failed" then 1 else 0))
      × (new.completed_tasks + new.failed_tasks ≤ new.task_count)
      × (new.total_cost
          ≡ sum_real (
              if mine
              then append (map (λ x. x.cost) tasks) (t.cost ∷ [])
              else map (λ x. x.cost) tasks))

  Grown-if :
      (t : TaskRecord C) (mine : Bool) (tasks : List (TaskRecord C))
      → Grown t mine tasks (if mine then append tasks (t ∷ []) else tasks)
  unfolding stats_of
  Grown-if t true tasks =
      let grown = append tasks (t ∷ []) in
      (
        sum_of-append (λ x. x.tokens_in) tasks t,
        sum_of-append (λ x. x.tokens_out) tasks t,
        omega (arith, length-append tasks t),
        sum_of-append (one_if task_completed) tasks t,
        sum_of-append (one_if task_failed) tasks t,
        ended-le grown,
        ap sum_real (costs-append tasks t),
      )
  Grown-if t false tasks =
      (omega arith, omega arith, omega arith, omega arith, omega arith, ended-le tasks, refl)

  -- A task that is created for a goal adds to the statistics of that goal its tokens of both kinds, and
  -- one to the tasks, and one to the completed or to the failed ones by its status; the cost is the
  -- database's sum of the costs of the goal's tasks with that of the new one. The statistics of other
  -- goals stay. No more tasks are completed or failed than there are.
  pub goal_stats-create_task :
      (goal : String) (t : TaskRecord C) (s s' : Store C)
      → create_task t s ≡ some s'
      → let mine = str_eq t.goal_id goal in
        let costs = map (λ x. x.cost) (keep (λ x. str_eq x.goal_id goal) (rows s.tasks)) in
        (old : HierarchyStats C) × (new : HierarchyStats C) × (goal_stats sum_real goal s
          ≡ some old)
        × (goal_stats sum_real goal s' ≡ some new)
        × (old.total_cost ≡ sum_real costs)
        × ((new.total_tokens_in ≡ old.total_tokens_in + (if mine then t.tokens_in else 0))
            × (new.total_tokens_out ≡ old.total_tokens_out + (if mine then t.tokens_out else 0))
            × (new.task_count ≡ old.task_count + (if mine then 1 else 0))
            × (new.completed_tasks
                ≡ old.completed_tasks + (if mine && str_eq t.status "Completed" then 1 else 0))
            × (new.failed_tasks
                ≡ old.failed_tasks + (if mine && str_eq t.status "Failed" then 1 else 0))
            × (new.completed_tasks + new.failed_tasks ≤ new.task_count)
            × (new.total_cost ≡ sum_real (if mine then append costs (t.cost ∷ []) else costs)))
  unfolding create_task goal_stats stats_of
  goal_stats-create_task goal t s s' e =
      let made = create_task-inv t s s' e in
      let mine = λ (x : TaskRecord C). str_eq x.goal_id goal in
      let kept = keep mine (rows s.tasks) in
      let grown = keep mine (rows (insert t.task_id t s.tasks)) in
      let grown_eq : grown ≡ (if mine t then append kept (t ∷ []) else kept) =
        ap (keep mine) (rows-insert t.task_id t s.tasks made.1)
        ∙ keep-append mine (rows s.tasks) t in
      (
        stats_of sum_real kept,
        stats_of sum_real grown,
        rw made.0 refl,
        subst (λ x. goal_stats sum_real goal x ≡ some (stats_of sum_real grown)) (sym made.2)
            (rw made.0 refl),
        refl,
        subst (Grown t (mine t) kept) (sym grown_eq) (Grown-if t (mine t) kept),
      )
