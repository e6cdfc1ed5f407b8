-- ===== src/Controller/Calls/Breaker.antt =====
-- The circuit breaker of ExecuteTask.
use opc_platform.Prelude.{
  suc, String, Bool, true, false, ◌≡◌, refl, ◌∙◌, ap, Option, none, some, List, [], inl, inr,
  if◌then◌else◌, arith, eq_iff, lookup, lookup_or, has_key, insert, leb, Option-cases, Bool-cases,
  lookup-delete,
}
use opc_platform.Storage.{Store, TaskRecord, phase_stopped, phase_failed}
use opc_platform.Storage.Agents.{update_task, update_agent, get_agent}
use opc_platform.Controller.Agents.{
  Controller, Specs, write_agent, write_phase, stop_agent, new_controller,
}
use opc_platform.Controller.Tasks.{
  Env, Turn, write_task, failed_with, trip_breaker, finish_failed, finish_task,
  circuit_breaker_threshold,
}
use opc_platform.Controller.Calls.{Call, run_calls}
use opc_platform.Storage.RoundTrips.{lookup-update_row}
use opc_platform.Controller.Agents.Records.{IsConsistent, phased, stop_agent-IsConsistent}
use opc_platform.Controller.Calls.Consistency.{run_calls-IsConsistent, write_task-IsConsistent}
use opc_platform.Controller.Calls.Failures.{write_task-SameCounts}
use opc_platform.Controller.Calls.Counts.{failed_in_row, new_controller-count}

module _ {C : Type 0} where
  write_phase-agents :
      (phase : String) (message : Option String) (name : String) (c : Controller C)
      → (write_phase phase message name c).agents ≡ c.agents
  unfolding write_phase write_agent
  write_phase-agents phase message name c = elim (Option-cases (get_agent name c.store)) [
    | inl missing ↦ ground (arith, missing)
    | inr (a, found) ↦ ground (arith, found)
  ]

  write_task-agents :
      (task : TaskRecord C) (c : Controller C) → (write_task task c).agents ≡ c.agents
  unfolding write_task
  write_task-agents task c = elim (Option-cases (update_task task c.store)) [
    | inl failed ↦ ground (arith, failed)
    | inr (store, written) ↦ ground (arith, written)
  ]

  -- The phase in the record of an agent.
  unfoldable pub phase_of : String → Controller C → Option String
  phase_of name c = elim (get_agent name c.store) [ none ↦ none | some a ↦ some a.phase ]

  abbrev known_phase : String → String → Controller C → Option String
  known_phase phase name c = if has_key name c.store.agents then some phase else none

  phase_of-write_phase :
      (phase : String) (message : Option String) (name : String) (c : Controller C)
      → IsConsistent c
      → let c' = write_phase phase message name c in
        (phase_of name c' ≡ known_phase phase name c)
        × (has_key name c'.store.agents ≡ has_key name c.store.agents)
  unfolding phase_of write_phase get_agent write_agent update_agent
  phase_of-write_phase phase message name c ok = elim (Option-cases (lookup name c.store.agents)) [
    | inl missing ↦ (ground (arith, ok.up, missing), ground (arith, ok.up, missing))
    | inr (a, found) ↦
        let at = ok.named name a found in
        let read = lookup-update_row name name (λ old. phased phase message a) c.store.agents in
        (
          ground (arith, ok.up, found, at, read, eq_iff name name),
          ground (arith, ok.up, found, at, read, eq_iff name name),
        )
  ]

  -- `stop_agent` on an agent, whether it runs or not.
  stop_agent-stops :
      (name : String) (c : Controller C)
      → IsConsistent c
      → let c' = (stop_agent name c).0 in
        (has_key name c'.agents ≡ false)
        × (has_key name c'.store.agents ≡ has_key name c.store.agents)
  unfolding stop_agent write_phase get_agent write_agent update_agent
  stop_agent-stops name c ok = elim (Option-cases (lookup name c.agents)) [
    | inl idle ↦ (ground (arith, idle), ground (arith, idle))
    | inr (ma, running) ↦ elim (Option-cases (lookup name c.store.agents)) [
      | inl missing ↦ (
        ground (arith, running, ok.up, missing, lookup-delete name name c.agents, eq_iff name name),
        ground (arith, running, ok.up, missing),
      )
      | inr (a, found) ↦
          let at = ok.named name a found in
          let read =
            lookup-update_row name name (λ old. phased phase_stopped none a) c.store.agents in
          (
            ground
                (arith, running, ok.up, found, lookup-delete name name c.agents, eq_iff name name),
            ground (arith, running, ok.up, found, at, read, eq_iff name name),
          )
    ]
  ]

-- A property that depends on the test, too.
if-dependent :
    {A : Type 0} (Q : Bool → A → Type 0) (b : Bool) {c d : A}
    → Q true c
    → Q false d
    → Q b (if b then c else d)
if-dependent Q true p q = p
if-dependent Q false p q = q

module _ {C : Type 0} (env : Env C) where
  trip_breaker-trips :
      (name : String) (c : Controller C)
      → IsConsistent c
      → let c' = trip_breaker env name c in
        let trips = leb circuit_breaker_threshold (suc (lookup_or name c.fail_counts 0)) in
        (has_key name c'.agents ≡ (if trips then false else has_key name c.agents))
        × (phase_of name c' ≡ (if trips then known_phase phase_failed name c else phase_of name c))
  unfolding trip_breaker phase_of
  trip_breaker-trips name c ok =
      let n = suc (lookup_or name c.fail_counts 0) in
      let counted : Controller C = record c { fail_counts = insert name n c.fail_counts } in
      let kept : IsConsistent counted = record {
        up = ok.up;
        known = ok.known;
        named = ok.named;
        marked = ok.marked;
      } in
      let stopped = stop_agent-stops name counted kept in
      let c' = (stop_agent name counted).0 in
      let written =
        phase_of-write_phase phase_failed (some (env.breaker_text n)) name c'
          (stop_agent-IsConsistent name counted kept) in
      let same = write_phase-agents phase_failed (some (env.breaker_text n)) name c' in
      if-dependent
        (λ (trips : Bool) (d : Controller C).
          (has_key name d.agents ≡ (if trips then false else has_key name c.agents))
          × (phase_of name d
              ≡ (if trips then known_phase phase_failed name c else phase_of name c)))
        (leb circuit_breaker_threshold n)
        (
          ap (has_key name) same ∙ stopped.0,
          written.0 ∙ ap (λ b. if b then some phase_failed else none) stopped.1,
        )
        (refl, refl)

  write_task-phases :
      (task : TaskRecord C) (c : Controller C) (name : String)
      → (phase_of name (write_task task c) ≡ phase_of name c)
        × (has_key name (write_task task c).store.agents ≡ has_key name c.store.agents)
  unfolding write_task update_task phase_of get_agent
  write_task-phases task c name = elim (Bool-cases c.store.available) [
    | inl up ↦ (ground (arith, up), ground (arith, up))
    | inr down ↦ (ground (arith, down), ground (arith, down))
  ]

  -- After any calls on a new controller, whose store is available and empty of agents, a further task
  -- of an agent that fails in the adapter stops the agent and leaves its record, if there is one, with
  -- the phase Failed, just where it is the fifth failure of the agent or a later one since the agent
  -- last completed a task, or since the beginning; otherwise the agent runs, or not, and has its phase
  -- as before. A stop, a start, a restart or a deletion in between does not count.
  pub run_calls-breaker :
      (specs : Specs) (calls : List (Call C)) (store : Store C) (turn : Turn) (text : String)
      (task : TaskRecord C)
      → store.available ≡ true
      → store.agents ≡ []
      → let c = run_calls specs env calls (new_controller store) in
        let c' = finish_task env turn (inl text) task c in
        let name = task.agent_name in
        let trips = leb circuit_breaker_threshold (suc (failed_in_row name 0 calls)) in
        (has_key name c'.agents ≡ (if trips then false else has_key name c.agents))
        × (phase_of name c' ≡ (
            if trips
            then (if has_key name c.store.agents then some phase_failed else none)
            else phase_of name c))
  unfolding finish_task finish_failed
  run_calls-breaker specs calls store turn text task up empty =
      let c = run_calls specs env calls (new_controller store) in
      let name = task.agent_name in
      let failed = failed_with text turn.ended task in
      let d = write_task failed c in
      let ok = run_calls-IsConsistent env specs calls store up empty in
      let tripped = trip_breaker-trips name d (write_task-IsConsistent failed c ok) in
      let counts : lookup_or name d.fail_counts 0 ≡ failed_in_row name 0 calls =
        ap (λ m. lookup_or name m 0) (write_task-SameCounts failed c)
        ∙ new_controller-count env specs name calls store in
      let phases = write_task-phases failed c name in
      let trips = leb circuit_breaker_threshold (suc (failed_in_row name 0 calls)) in
      (
        tripped.0
            ∙ ap
                (λ k.
                  if leb circuit_breaker_threshold (suc k) then false else has_key name d.agents)
                counts
            ∙ ap (λ m. if trips then false else has_key name m) (write_task-agents failed c),
        tripped.1
            ∙ ap
                (λ k.
                  if leb circuit_breaker_threshold (suc k)
                  then known_phase phase_failed name d
                  else phase_of name d)
                counts
            ∙ ap (λ b. if trips then (if b then some phase_failed else none) else phase_of name d)
                phases.1
            ∙ ap (λ q. if trips then known_phase phase_failed name c else q) phases.0,
      )
