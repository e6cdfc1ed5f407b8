-- ===== src/Controller/Agents.antt =====
-- pkg/controller/controller.go: agents are applied, started, stopped and deleted. An adapter is the
-- number of an instance; what its calls answer is an argument. JSON is a parameter.
pub mod Records
pub mod Running
use opc_platform.Prelude.{
  ℕ, suc, String, Bool, true, false, Option, none, some, List, [], ◌∷◌, if◌then◌else◌, str_eq, ℤ,
  Map, lookup, has_key, insert, delete, keys,
}
use opc_platform.Quota.{AgentUsage}
use opc_platform.Cost.{Tracker}
use opc_platform.Storage.{
  Store, AgentRecord, phase_created, phase_starting, phase_running, phase_failed, phase_stopped,
}
use opc_platform.Storage.Agents.{create_agent, get_agent, list_agents, update_agent, delete_agent}
use opc_platform.Controller.Lifecycle.{RecoveryConfig}

-- What the controller reads of an `AgentSpec`.
pub record AgentSpec : Type 0 where
  pub name : String
  pub agent_type : String
  pub provider : String
  pub model : String
  pub tokens_per_task : ℤ
  pub tokens_per_hour : ℤ
  pub tokens_per_day : ℤ
  pub cost_per_task : String
  pub cost_per_day : String
  pub cost_per_month : String
  pub on_exceed : String
  pub recovery : RecoveryConfig

pub record ManagedAgent : Type 0 where
  pub spec : AgentSpec
  pub adapter : ℕ

-- The adapters that were made are numbered, and `stopped` lists those whose `Stop` was called.
pub record Controller (C : Type 0) : Type 0 where
  pub store : Store C
  pub agents : Map ManagedAgent
  pub fail_counts : Map ℕ
  pub cost_mgr : Option (Tracker C)
  pub usage : Map (AgentUsage C)
  pub adapters_made : ℕ
  pub stopped : List ℕ

-- `json.Marshal` of a specification, `json.Unmarshal`, and whether the registry knows a type.
pub record Specs : Type 0 where
  pub marshal : AgentSpec → String
  pub unmarshal : String → Option AgentSpec
  pub registered : String → Bool

pub data ControllerError : Type 0 where
  name_required update_failed create_failed : ControllerError
  agent_missing bad_spec unknown_type not_running delete_failed : ControllerError
  start_failed : String → ControllerError

module _ {C : Type 0} where
  unfoldable pub new_controller : Store C → Controller C
  new_controller store = record {
    store = store;
    agents = [];
    fail_counts = [];
    cost_mgr = none;
    usage = [];
    adapters_made = 0;
    stopped = [];
  }

  unfoldable pub set_cost_tracker : Tracker C → Controller C → Controller C
  set_cost_tracker tracker c = record c { cost_mgr = some tracker }

  -- `c.store.UpdateAgent(ctx, record)` with its error dropped.
  unfoldable pub write_agent : AgentRecord → Controller C → Controller C
  unfolding update_agent
  write_agent a c = elim (update_agent a c.store) [
    | none ↦ c
    | some store ↦ record c { store = store }
  ]

  unfoldable pub apply : Specs → AgentSpec → Controller C → Controller C × Option ControllerError
  unfolding update_agent create_agent get_agent
  apply specs spec c =
      if str_eq spec.name "" then (c, some name_required) else (elim (get_agent spec.name c.store) [
        | some existing ↦
            elim (update_agent
              (record existing { agent_type = spec.agent_type; spec_yaml = specs.marshal spec })
              c.store) [
                | none ↦ (c, some update_failed)
                | some store ↦ (record c { store = store }, none)
              ]
        | none ↦
            elim (create_agent
              (record {
                name = spec.name;
                agent_type = spec.agent_type;
                phase = phase_created;
                spec_yaml = specs.marshal spec;
                restarts = 0;
                message = "";
              })
              c.store) [
                | none ↦ (c, some create_failed)
                | some store ↦ (record c { store = store }, none)
              ]
      ])

  -- `answer` is the error of the adapter's `Start`.
  unfoldable pub start_agent :
      Specs → Option String → String → Controller C → Controller C × Option ControllerError
  unfolding write_agent get_agent
  start_agent specs answer name c = elim (get_agent name c.store) [
    | none ↦ (c, some agent_missing)
    | some found ↦ elim (specs.unmarshal found.spec_yaml) [
      | none ↦ (c, some bad_spec)
      | some spec ↦
          if specs.registered found.agent_type
          then (elim answer [
            | some error ↦ (
              write_agent (record found { phase = phase_failed; message = error })
                  (record c { adapters_made = suc c.adapters_made }),
              some (start_failed error),
            )
            | none ↦ (
              write_agent (record found { phase = phase_running; message = "" })
                  (record c {
                    adapters_made = suc c.adapters_made;
                    agents =
                        insert name (record { spec = spec; adapter = c.adapters_made }) c.agents;
                  }),
              none,
            )
          ])
          else (c, some unknown_type)
    ]
  ]

  -- The phase of a record, where there is one.
  unfoldable pub write_phase : String → Option String → String → Controller C → Controller C
  unfolding write_agent get_agent
  write_phase phase message name c = elim (get_agent name c.store) [
    | none ↦ c
    | some a ↦
        write_agent
          (record a {
            phase = phase;
            message = elim message [ none ↦ a.message | some text ↦ text ];
          })
          c
  ]

  unfoldable pub stop_agent : String → Controller C → Controller C × Option ControllerError
  unfolding write_phase
  stop_agent name c = elim (lookup name c.agents) [
    | none ↦ (c, some not_running)
    | some ma ↦ (
      write_phase phase_stopped none name
          (record c { agents = delete name c.agents; stopped = ma.adapter ∷ c.stopped }),
      none,
    )
  ]

  unfoldable pub delete_agent_record : String → Controller C → Controller C × Option ControllerError
  unfolding delete_agent
  delete_agent_record name c = elim (delete_agent name c.store) [
    | none ↦ (c, some delete_failed)
    | some store ↦ (record c { store = store }, none)
  ]

  -- `DeleteAgent`.
  unfoldable pub remove_agent : String → Controller C → Controller C × Option ControllerError
  unfolding stop_agent delete_agent_record
  remove_agent name c =
      delete_agent_record name (if has_key name c.agents then (stop_agent name c).0 else c)

  -- `RecoverAgents`: the agents that were running or starting are started; `answers` are the
  -- errors of their adapters.
  unfoldable pub recover_each :
      Specs → (String → Option String) → List AgentRecord → Controller C → Controller C
  unfolding start_agent
  recover_each specs answers [] c = c
  recover_each specs answers (a ∷ agents) c = recover_each specs answers agents (
      if str_eq a.phase phase_running
      then (start_agent specs (answers a.name) a.name c).0
      else if str_eq a.phase phase_starting
      then (start_agent specs (answers a.name) a.name c).0
      else c)

  unfoldable pub recover_agents : Specs → (String → Option String) → Controller C → Controller C
  unfolding recover_each list_agents
  recover_agents specs answers c = elim (list_agents c.store) [
    | none ↦ c
    | some agents ↦ recover_each specs answers agents c
  ]
