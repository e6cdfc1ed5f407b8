-- ===== src/Controller/Agents/Running.antt =====
-- The calls that apply, start, delete and recover agents.
use mathlib.Core.Path.{subst, sym}
use opc_platform.Prelude.{
  ◌⊎◌, ◌&&◌, if-either, suc, String, true, false, ◌≡◌, Option, some, List, [], ◌∷◌, if◌then◌else◌,
  arith, str_eq, eq_iff, lookup, has_key, insert, delete, lookup-insert, lookup-delete,
  Option-cases, Bool-cases, inl, inr,
}
use opc_platform.Storage.{
  AgentRecord, phase_created, phase_starting, phase_running, phase_failed, insert_row, delete_known,
}
use opc_platform.Storage.Agents.{create_agent, get_agent, update_agent, delete_agent}
use opc_platform.Controller.Agents.{
  AgentSpec, ManagedAgent, Controller, Specs, write_agent, apply, start_agent, recover_each,
  write_phase, stop_agent, delete_agent_record, remove_agent,
}
use opc_platform.Controller.Agents.Records.{
  IsConsistent, write_agent-IsConsistent, grow-IsConsistent, stop_agent-IsConsistent,
}

abbrev new_record : Specs → AgentSpec → AgentRecord
new_record specs spec = record {
  name = spec.name;
  agent_type = spec.agent_type;
  phase = phase_created;
  spec_yaml = specs.marshal spec;
  restarts = 0;
  message = "";
}

module _ {C : Type 0} where
  abbrev failed_start : AgentRecord → String → Controller C → Controller C
  failed_start a error c =
      write_agent (record a { phase = phase_failed; message = error })
        (record c { adapters_made = suc c.adapters_made })

  abbrev good_start : AgentRecord → AgentSpec → String → Controller C → Controller C
  good_start a spec name c =
      write_agent (record a { phase = phase_running; message = "" })
        (record c {
          adapters_made = suc c.adapters_made;
          agents = insert name (record { spec = spec; adapter = c.adapters_made }) c.agents;
        })

  -- The three ways in which a start ends.
  start_agent-cases :
      (specs : Specs) (answer : Option String) (name : String) (c : Controller C)
      → c.store.available ≡ true
      → let c' = (start_agent specs answer name c).0 in
        (c' ≡ c)
        ⊎ ((a : AgentRecord) × (lookup name c.store.agents ≡ some a)
            × (((error : String) × (c' ≡ failed_start a error c))
                ⊎ ((spec : AgentSpec) × (c' ≡ good_start a spec name c))))
  unfolding start_agent get_agent
  start_agent-cases specs answer name c up = elim (Option-cases (lookup name c.store.agents)) [
    | inl missing ↦ inl (ground (arith, up, missing))
    | inr (a, found) ↦ elim (Option-cases (specs.unmarshal a.spec_yaml)) [
      | inl bad ↦ inl (ground (arith, up, found, bad))
      | inr (spec, parsed) ↦ elim (Bool-cases (specs.registered a.agent_type)) [
        | inr unknown ↦ inl (ground (arith, up, found, parsed, unknown))
        | inl registered ↦ elim (Option-cases answer) [
          | inr (error, failed) ↦
              inr (a, found, inl (error, ground (arith, up, found, parsed, registered, failed)))
          | inl started ↦
              inr (a, found, inr (spec, ground (arith, up, found, parsed, registered, started)))
        ]
      ]
    ]
  ]

  pub start_agent-IsConsistent :
      (specs : Specs) (answer : Option String) (name : String) (c : Controller C)
      → IsConsistent c
      → IsConsistent (start_agent specs answer name c).0
  start_agent-IsConsistent specs answer name c ok =
      elim (start_agent-cases specs answer name c ok.up) [
        | inl same ↦ subst IsConsistent (sym same) ok
        | inr (a, found, inl (error, e)) ↦ subst IsConsistent (sym e) (
            write_agent-IsConsistent (record a { phase = phase_failed; message = error })
              (record c { adapters_made = suc c.adapters_made })
              (record { up = ok.up; known = ok.known; named = ok.named; marked = ok.marked })
              (λ p. ground (arith, p, eq_iff phase_failed phase_running)))
        | inr (a, found, inr (spec, e)) ↦
            let ma : ManagedAgent = record { spec = spec; adapter = c.adapters_made } in
            subst IsConsistent (sym e) (
              write_agent-IsConsistent (record a { phase = phase_running; message = "" })
                (record c { adapters_made = suc c.adapters_made; agents = insert name ma c.agents })
                (grow-IsConsistent name ma c ok (ground (arith, found)) (suc c.adapters_made))
                (λ p. ground (
                  arith,
                  ok.named name a found,
                  lookup-insert name name ma c.agents,
                  eq_iff name name,
                )))
      ]

  apply-cases :
      (specs : Specs) (spec : AgentSpec) (c : Controller C)
      → c.store.available ≡ true
      → let c' = (apply specs spec c).0 in
        (c' ≡ c)
        ⊎ (((a : AgentRecord) × (lookup spec.name c.store.agents ≡ some a)
              × (c'
                  ≡ write_agent
                      (record a { agent_type = spec.agent_type; spec_yaml = specs.marshal spec })
                      c))
            ⊎ (c' ≡ record c {
              store = record c.store {
                agents = insert spec.name (new_record specs spec) c.store.agents;
              };
            }))
  unfolding apply get_agent update_agent create_agent insert_row write_agent
  apply-cases specs spec c up = elim (Bool-cases (str_eq spec.name "")) [
    | inl nameless ↦ inl (ground (arith, nameless))
    | inr named ↦ elim (Option-cases (lookup spec.name c.store.agents)) [
      | inr (a, found) ↦ inr (inl (a, found, ground (arith, named, up, found)))
      | inl new ↦ inr (inr (ground (arith, named, up, new)))
    ]
  ]

  pub apply-IsConsistent :
      (specs : Specs) (spec : AgentSpec) (c : Controller C)
      → IsConsistent c
      → IsConsistent (apply specs spec c).0
  apply-IsConsistent specs spec c ok =
      let name = spec.name in
      elim (apply-cases specs spec c ok.up) [
        | inl same ↦ subst IsConsistent (sym same) ok
        | inr (inl (a, found, e)) ↦ subst IsConsistent (sym e) (
            write_agent-IsConsistent
              (record a { agent_type = spec.agent_type; spec_yaml = specs.marshal spec }) c ok
              (λ p. ground (arith, found, p, ok.named name a found, ok.marked name a found)))
        | inr (inr e) ↦
            let new = new_record specs spec in
            let read = λ (n : String). lookup-insert name n new c.store.agents in
            subst IsConsistent (sym e) (record {
              up = ok.up;
              known = λ n k. ground (arith, k, ok.known n, read n);
              named = λ n b f. ground (arith, f, ok.named n b, read n, eq_iff name n);
              marked = λ n b f p.
                  ground (arith, f, p, ok.marked n b, read n, eq_iff phase_created phase_running);
            })
      ]

  stop_agent-gone :
      (name : String) (c : Controller C) → has_key name (stop_agent name c).0.agents ≡ false
  unfolding stop_agent write_phase write_agent
  stop_agent-gone name c = elim (Option-cases (lookup name c.agents)) [
    | inl idle ↦ ground (arith, idle)
    | inr (ma, running) ↦
        ground (arith, running, lookup-delete name name c.agents, eq_iff name name)
  ]

  delete_agent_record-cases :
      (name : String) (c : Controller C)
      → let c' = (delete_agent_record name c).0 in
        (c' ≡ c)
        ⊎ (c' ≡ record c { store = record c.store { agents = delete name c.store.agents } })
  unfolding delete_agent_record delete_agent delete_known
  delete_agent_record-cases name c =
      elim (Bool-cases (c.store.available && has_key name c.store.agents)) [
        | inl there ↦ inr (ground (arith, there))
        | inr missing ↦ inl (ground (arith, missing))
      ]

  delete_agent_record-IsConsistent :
      (name : String) (c : Controller C)
      → IsConsistent c
      → has_key name c.agents ≡ false
      → IsConsistent (delete_agent_record name c).0
  delete_agent_record-IsConsistent name c ok idle = elim (delete_agent_record-cases name c) [
    | inl same ↦ subst IsConsistent (sym same) ok
    | inr e ↦
        let read = λ (n : String). lookup-delete name n c.store.agents in
        subst IsConsistent (sym e) (record {
          up = ok.up;
          known = λ n k. ground (arith, k, idle, ok.known n, read n, eq_iff name n);
          named = λ n b f. ground (arith, f, ok.named n b, read n);
          marked = λ n b f p. ground (arith, f, p, ok.marked n b, read n);
        })
  ]

  pub remove_agent-IsConsistent :
      (name : String) (c : Controller C) → IsConsistent c → IsConsistent (remove_agent name c).0
  unfolding remove_agent
  remove_agent-IsConsistent name c ok = elim (Bool-cases (has_key name c.agents)) [
    | inl running ↦
        rw (running, remove_agent)
          (delete_agent_record-IsConsistent name (stop_agent name c).0
            (stop_agent-IsConsistent name c ok) (stop_agent-gone name c))
    | inr idle ↦ rw (idle, remove_agent) (delete_agent_record-IsConsistent name c ok idle)
  ]

  pub recover_each-IsConsistent :
      (specs : Specs) (answers : String → Option String) (agents : List AgentRecord)
      (c : Controller C)
      → IsConsistent c
      → IsConsistent (recover_each specs answers agents c)
  unfolding recover_each
  recover_each-IsConsistent specs answers [] c ok = ok
  recover_each-IsConsistent specs answers (a ∷ agents) c ok =
      let started = start_agent-IsConsistent specs (answers a.name) a.name c ok in
      recover_each-IsConsistent specs answers agents
        (if str_eq a.phase phase_running
          then (start_agent specs (answers a.name) a.name c).0
          else if str_eq a.phase phase_starting
          then (start_agent specs (answers a.name) a.name c).0
          else c)
        (if-either IsConsistent (str_eq a.phase phase_running) started
          (if-either IsConsistent (str_eq a.phase phase_starting) started ok))
