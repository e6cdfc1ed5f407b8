-- ===== src/Controller/Agents/Records.antt =====
-- What stands between the running agents and the phases of the records, and the steps that write both.
use opc_platform.Prelude.{
  ℕ, String, true, false, ◌≡◌, refl, Option, none, some, ◌∷◌, arith, str_eq, eq_iff, lookup,
  has_key, insert, delete, lookup-insert, lookup-delete, Option-cases, inl, inr,
}
use opc_platform.Storage.{AgentRecord, phase_running, phase_stopped}
use opc_platform.Storage.Agents.{get_agent, update_agent}
use opc_platform.Storage.RoundTrips.{lookup-update_row}
use opc_platform.Controller.Agents.{ManagedAgent, Controller, write_agent, write_phase, stop_agent}

abbrev pub phased : String → Option String → AgentRecord → AgentRecord
phased phase message a = record a {
  phase = phase;
  message = elim message [ none ↦ a.message | some text ↦ text ];
}

module _ {C : Type 0} where
  -- Every running agent has a record, a record stands at its name, and only the record of a running
  -- agent has the phase Running.
  pub record IsConsistent (c : Controller C) : Type 0 where
    pub up : c.store.available ≡ true
    pub known : (n : String) → has_key n c.agents ≡ true → has_key n c.store.agents ≡ true
    pub named : (n : String) (a : AgentRecord) → lookup n c.store.agents ≡ some a → a.name ≡ n
    pub marked :
        (n : String) (a : AgentRecord)
        → lookup n c.store.agents ≡ some a
        → a.phase ≡ phase_running
        → has_key n c.agents ≡ true

  pub write_agent-IsConsistent :
      (a : AgentRecord) (c : Controller C)
      → IsConsistent c
      → (a.phase ≡ phase_running → has_key a.name c.agents ≡ true)
      → IsConsistent (write_agent a c)
  unfolding write_agent update_agent
  write_agent-IsConsistent a c ok h = record {
    up = ground (arith, ok.up);
    known = λ n k. ground (
      arith,
      ok.up,
      ok.known n,
      k,
      eq_iff a.name n,
      lookup-update_row a.name n (λ old. a) c.store.agents,
    );
    named = λ n b f. ground (
      arith,
      ok.up,
      ok.named n b,
      f,
      eq_iff a.name n,
      lookup-update_row a.name n (λ old. a) c.store.agents,
    );
    marked = λ n b f p. ground (
      arith,
      ok.up,
      ok.marked n b,
      f,
      p,
      h,
      eq_iff a.name n,
      lookup-update_row a.name n (λ old. a) c.store.agents,
    );
  }

  -- A change of the agents' map that keeps the running ones running.
  pub grow-IsConsistent :
      (name : String) (ma : ManagedAgent) (c : Controller C)
      → IsConsistent c
      → has_key name c.store.agents ≡ true
      → (made : ℕ)
      → IsConsistent (record c { adapters_made = made; agents = insert name ma c.agents })
  grow-IsConsistent name ma c ok there made = record {
    up = ok.up;
    known = λ n k.
        ground (arith, ok.known n, k, there, eq_iff name n, lookup-insert name n ma c.agents);
    named = ok.named;
    marked = λ n b f p. ground (arith, ok.marked n b, f, p, lookup-insert name n ma c.agents);
  }

  -- The same, but for the phase of one agent.
  pub record IsConsistentBut (name : String) (c : Controller C) : Type 0 where
    pub up : c.store.available ≡ true
    pub known : (n : String) → has_key n c.agents ≡ true → has_key n c.store.agents ≡ true
    pub named : (n : String) (a : AgentRecord) → lookup n c.store.agents ≡ some a → a.name ≡ n
    pub marked :
        (n : String) (a : AgentRecord)
        → lookup n c.store.agents ≡ some a
        → a.phase ≡ phase_running
        → str_eq name n ≡ false
        → has_key n c.agents ≡ true

  pub IsConsistent-but :
      (name : String) (c : Controller C) → IsConsistent c → IsConsistentBut name c
  IsConsistent-but name c ok = record {
    up = ok.up;
    known = ok.known;
    named = ok.named;
    marked = λ n a f p other. ok.marked n a f p;
  }

  -- The phase that is written makes up for it, where it is not Running.
  pub write_phase-IsConsistent :
      (phase : String) (message : Option String) (name : String) (c : Controller C)
      → IsConsistentBut name c
      → str_eq phase phase_running ≡ false
      → IsConsistent (write_phase phase message name c)
  unfolding write_phase get_agent write_agent update_agent
  write_phase-IsConsistent phase message name c ok idle =
      elim (Option-cases (lookup name c.store.agents)) [
        | inl missing ↦ record {
          up = ground (arith, ok.up, missing);
          known = λ n k. ground (arith, ok.up, missing, ok.known n, k);
          named = λ n b f. ground (arith, ok.up, missing, f, ok.named n b);
          marked = λ n b f p. ground (arith, ok.up, missing, f, p, ok.marked n b, eq_iff name n);
        }
        | inr (a, found) ↦
            let at = ok.named name a found in
            let new = phased phase message a in
            let read = λ (n : String). lookup-update_row name n (λ old. new) c.store.agents in
            record {
              up = ground (arith, ok.up, found);
              known = λ n k. ground (arith, ok.up, found, at, ok.known n, k, read n);
              named =
                  λ n b f. ground (arith, ok.up, found, at, f, ok.named n b, read n, eq_iff name n);
              marked = λ n b f p. ground (
                arith,
                ok.up,
                found,
                at,
                idle,
                f,
                p,
                ok.marked n b,
                read n,
                eq_iff phase phase_running,
              );
            }
      ]

  -- A stop leaves the other agents as they were, and the agent itself without the phase Running.
  pub stop_agent-IsConsistent :
      (name : String) (c : Controller C) → IsConsistent c → IsConsistent (stop_agent name c).0
  unfolding stop_agent
  stop_agent-IsConsistent name c ok = elim (Option-cases (lookup name c.agents)) [
    | inl idle ↦ rw (idle, stop_agent) ok
    | inr (ma, running) ↦
        rw (running, stop_agent)
          (write_phase-IsConsistent phase_stopped none name
            (record c { agents = delete name c.agents; stopped = ma.adapter ∷ c.stopped })
            (record {
              up = ok.up;
              known = λ n k. ground (arith, k, ok.known n, lookup-delete name n c.agents);
              named = ok.named;
              marked = λ n b f p other.
                  ground (arith, other, f, p, ok.marked n b, lookup-delete name n c.agents);
            })
            refl)
  ]
