-- ===== src/Controller/Tasks/Kept.antt =====
-- The tasks that the store holds while the agents change.
use opc_platform.Prelude.{
  suc, String, true, ◌≡◌, refl, ◌∙◌, Option, none, some, ◌⊎◌, inl, inr, arith, eq_iff, lookup,
  lookup_or, has_key, insert, leb, Option-cases, if-either,
}
use opc_platform.Storage.{TaskRecord, phase_stopped, phase_failed, task_failed, task_completed}
use opc_platform.Storage.Agents.{update_task, updated_task, update_agent, get_agent, get_task}
use opc_platform.Storage.RoundTrips.{lookup-update_row}
use opc_platform.Controller.Agents.{Controller, write_agent, write_phase, stop_agent}
use opc_platform.Controller.Tasks.{
  Env, Turn, ExecuteResult, write_task, failed_with, pause_agent, trip_breaker, finish_failed,
  finish_completed, finish_task, circuit_breaker_threshold,
}

module _ {C : Type 0} where
  -- The tasks are the same, and the store is available.
  pub record KeepsTasks (c c' : Controller C) : Type 0 where
    pub up : c'.store.available ≡ true
    pub tasks_eq : c'.store.tasks ≡ c.store.tasks

  pub keep : (c : Controller C) → c.store.available ≡ true → KeepsTasks c c
  keep c up = record { up = up; tasks_eq = refl }

  pub and_then : (c d e : Controller C) → KeepsTasks c d → KeepsTasks d e → KeepsTasks c e
  and_then c d e p q = record { up = q.up; tasks_eq = q.tasks_eq ∙ p.tasks_eq }

  pub write_phase-KeepsTasks :
      (phase : String) (message : Option String) (name : String) (c : Controller C)
      → c.store.available ≡ true
      → KeepsTasks c (write_phase phase message name c)
  unfolding write_phase write_agent get_agent update_agent
  write_phase-KeepsTasks phase message name c up =
      elim (Option-cases (lookup name c.store.agents)) [
        | inl missing ↦ record {
          up = ground (arith, up, missing);
          tasks_eq = ground (arith, up, missing);
        }
        | inr (a, found) ↦ record {
          up = ground (arith, up, found);
          tasks_eq = ground (arith, up, found);
        }
      ]

  pub stop_agent-KeepsTasks :
      (name : String) (c : Controller C)
      → c.store.available ≡ true
      → KeepsTasks c (stop_agent name c).0
  unfolding stop_agent
  stop_agent-KeepsTasks name c up = elim (Option-cases (lookup name c.agents)) [
    | inl idle ↦ rw (idle, stop_agent) (keep c up)
    | inr (ma, running) ↦
        let stopped = write_phase-KeepsTasks phase_stopped none name _ up in
        rw (running, stop_agent) (record { up = stopped.up; tasks_eq = stopped.tasks_eq })
  ]

  -- The store holds a task with this status.
  abbrev pub Holds : String → String → Controller C → Type 0
  Holds id status c = (t : TaskRecord C) × (get_task id c.store ≡ some t) × (t.status ≡ status)

  pub write_task-Holds :
      (task : TaskRecord C) (c : Controller C)
      → c.store.available ≡ true
      → has_key task.task_id c.store.tasks ≡ true
      → Holds task.task_id task.status (write_task task c)
  unfolding write_task update_task get_task
  write_task-Holds task c up there = elim (Option-cases (lookup task.task_id c.store.tasks)) [
    | inl missing ↦ (task, ground (arith, missing, there), refl)
    | inr (old, found) ↦ (
      updated_task task old,
      ground (
        arith,
        up,
        found,
        lookup-update_row task.task_id task.task_id (updated_task task) c.store.tasks,
        eq_iff task.task_id task.task_id,
      ),
      refl,
    )
  ]

  pub write_task-there :
      (task : TaskRecord C) (c : Controller C)
      → c.store.available ≡ true
      → has_key task.task_id c.store.tasks ≡ true
      → ((write_task task c).store.available ≡ true)
        × (has_key task.task_id (write_task task c).store.tasks ≡ true)
  unfolding write_task update_task
  write_task-there task c up there = (
    ground (arith, up),
    ground (
      arith,
      up,
      there,
      lookup-update_row task.task_id task.task_id (updated_task task) c.store.tasks,
      eq_iff task.task_id task.task_id,
    ),
  )

  pub KeepsTasks-Holds :
      (id status : String) (c c' : Controller C)
      → KeepsTasks c c'
      → c.store.available ≡ true
      → Holds id status c
      → Holds id status c'
  unfolding get_task
  KeepsTasks-Holds id status c c' kept up held =
      (held.0, ground (arith, up, kept.up, kept.tasks_eq, held.1), held.2)

module _ {C : Type 0} (env : Env C) where
  pub trip_breaker-KeepsTasks :
      (name : String) (c : Controller C)
      → c.store.available ≡ true
      → KeepsTasks c (trip_breaker env name c)
  unfolding trip_breaker
  trip_breaker-KeepsTasks name c up =
      let n = suc (lookup_or name c.fail_counts 0) in
      let counted : Controller C = record c { fail_counts = insert name n c.fail_counts } in
      let stopped = stop_agent-KeepsTasks name counted up in
      let c' = (stop_agent name counted).0 in
      let written =
        write_phase-KeepsTasks phase_failed (some (env.breaker_text n)) name c' stopped.up in
      if-either (KeepsTasks c) (leb circuit_breaker_threshold n)
        (record { up = written.up; tasks_eq = written.tasks_eq ∙ stopped.tasks_eq })
        (record { up = up; tasks_eq = refl })

  pub pause_agent-KeepsTasks :
      (why name : String) (c : Controller C)
      → c.store.available ≡ true
      → KeepsTasks c (pause_agent env why name c)
  unfolding pause_agent
  pause_agent-KeepsTasks why name c up =
      let c' = (stop_agent name c).0 in
      let stopped = stop_agent-KeepsTasks name c up in
      elim (Option-cases (stop_agent name c).1) [
        | inl fine ↦
            rw (fine, pause_agent)
              (and_then c c' _ stopped
                (write_phase-KeepsTasks phase_stopped (some _) name c' stopped.up))
        | inr (error, failed) ↦ rw (failed, pause_agent) stopped
      ]

  pub finish_task-Holds :
      (turn : Turn) (answer : String ⊎ ExecuteResult C) (task : TaskRecord C) (c : Controller C)
      → c.store.available ≡ true
      → has_key task.task_id c.store.tasks ≡ true
      → Holds task.task_id
          (elim answer [ inl text ↦ task_failed | inr result ↦ task_completed ])
          (finish_task env turn answer task c)
  unfolding finish_task finish_failed finish_completed
  finish_task-Holds turn (inl text) task c up there =
      let failed = failed_with text turn.ended task in
      let written = write_task-there failed c up there in
      KeepsTasks-Holds task.task_id task_failed (write_task failed c) _
        (trip_breaker-KeepsTasks task.agent_name (write_task failed c) written.0) written.0
        (write_task-Holds failed c up there)
  finish_task-Holds turn (inr result) task c up there = write_task-Holds _ _ up there
