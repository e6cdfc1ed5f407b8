-- ===== src/Storage/Refinement.antt =====
-- The agents' table of pkg/storage/sqlite/sqlite.go against a finite map of agents by their names.
use opc_platform.Prelude.{
  String, Bool, true, false, ◌≡◌, refl, ◌∙◌, ap, Option, none, some, List, [], ◌∷◌, inl, inr, arith,
  if◌then◌else◌, str_eq, lookup, lookup-insert, lookup-delete, Option-cases,
}
use opc_platform.Storage.{Store, AgentRecord, insert_row, update_row, delete_known}
use opc_platform.Storage.Agents.{create_agent, get_agent, update_agent, delete_agent}

pub data AgentStatement : Type 0 where
  creates updates : AgentRecord → AgentStatement
  deletes reads : String → AgentStatement

-- What the caller sees: whether there is an error, or what is read.
pub data Answer : Type 0 where
  done failed : Answer
  found : Option AgentRecord → Answer

unfoldable pub changed : {S : Type 0} → S → Option S → S × Answer
changed old none = (old, failed)
changed old (some new) = (new, done)

unfoldable pub run_statement : {C : Type 0} → AgentStatement → Store C → Store C × Answer
run_statement (creates a) s = changed s (create_agent a s)
run_statement (updates a) s = changed s (update_agent a s)
run_statement (deletes name) s = changed s (delete_agent name s)
run_statement (reads name) s = (s, found (get_agent name s))

unfoldable pub answers : {C : Type 0} → List AgentStatement → Store C → List Answer
answers [] s = []
answers (x ∷ xs) s = (run_statement x s).1 ∷ answers xs (run_statement x s).0

-- The specification: a function from names to agents.
abbrev pub Agents : Type 0
Agents = String → Option AgentRecord

abbrev pub is_known : String → Agents → Bool
is_known name f = elim (f name) [ none ↦ false | some a ↦ true ]

abbrev pub set_agent : String → Option AgentRecord → Agents → Agents
set_agent name value f n = if str_eq name n then value else f n

unfoldable pub specified : AgentStatement → Agents → Agents × Answer
specified (creates a) f =
    if is_known a.name f then (f, failed) else (set_agent a.name (some a) f, done)
specified (updates a) f = (if is_known a.name f then set_agent a.name (some a) f else f, done)
specified (deletes name) f = if is_known name f then (set_agent name none f, done) else (f, failed)
specified (reads name) f = (f, found (f name))

unfoldable pub specified_answers : List AgentStatement → Agents → List Answer
specified_answers [] f = []
specified_answers (x ∷ xs) f = (specified x f).1 ∷ specified_answers xs (specified x f).0

module _ {C : Type 0} where
  -- The store stands for the function.
  record Represents (f : Agents) (s : Store C) : Type 0 where
    up : s.available ≡ true
    same : (n : String) → lookup n s.agents ≡ f n

  statement-Represents :
      (x : AgentStatement) (f : Agents) (s : Store C)
      → Represents f s
      → ((run_statement x s).1 ≡ (specified x f).1)
        × Represents (specified x f).0 (run_statement x s).0
  unfolding run_statement specified changed create_agent update_agent delete_agent get_agent
      insert_row delete_known update_row
  statement-Represents (creates a) f s r =
      let at = r.same a.name in
      elim (Option-cases (f a.name)) [
        | inl new ↦ (
          ground (arith, r.up, at, new),
          record {
            up = ground (arith, r.up, at, new);
            same = λ n. ground (arith, r.up, at, new, r.same n, lookup-insert a.name n a s.agents);
          },
        )
        | inr (b, known) ↦ (
          ground (arith, r.up, at, known),
          record {
            up = ground (arith, r.up, at, known);
            same = λ n. ground (arith, r.up, at, known, r.same n);
          },
        )
      ]
  statement-Represents (updates a) f s r =
      let at = r.same a.name in
      elim (Option-cases (f a.name)) [
        | inl new ↦ (
          ground (arith, r.up, at, new),
          record {
            up = ground (arith, r.up, at, new);
            same = λ n. ground (arith, r.up, at, new, r.same n);
          },
        )
        | inr (b, known) ↦ (
          ground (arith, r.up, at, known),
          record {
            up = ground (arith, r.up, at, known);
            same =
                λ n. ground (arith, r.up, at, known, r.same n, lookup-insert a.name n a s.agents);
          },
        )
      ]
  statement-Represents (deletes name) f s r =
      let at = r.same name in
      elim (Option-cases (f name)) [
        | inl new ↦ (
          ground (arith, r.up, at, new),
          record {
            up = ground (arith, r.up, at, new);
            same = λ n. ground (arith, r.up, at, new, r.same n);
          },
        )
        | inr (b, known) ↦ (
          ground (arith, r.up, at, known),
          record {
            up = ground (arith, r.up, at, known);
            same = λ n. ground (arith, r.up, at, known, r.same n, lookup-delete name n s.agents);
          },
        )
      ]
  statement-Represents (reads name) f s r = (ground (arith, r.up, r.same name), r)

  answers-Represents :
      (xs : List AgentStatement) (f : Agents) (s : Store C)
      → Represents f s
      → answers xs s ≡ specified_answers xs f
  unfolding answers specified_answers
  answers-Represents [] f s r = refl
  answers-Represents (x ∷ xs) f s r =
      let step = statement-Represents x f s r in
      ap (λ a. a ∷ answers xs (run_statement x s).0) step.0
      ∙ ap (λ as'. (specified x f).1 ∷ as')
          (answers-Represents xs (specified x f).0 (run_statement x s).0 step.1)

  -- Where the database is available, CreateAgent, UpdateAgent, DeleteAgent and GetAgent answer in any
  -- order as a function from names to agents does, that is set and cleared at a name: a creation fails
  -- on a known name, a deletion on an unknown one, and an update of an unknown one does nothing.
  pub answers-refine :
      (xs : List AgentStatement) (s : Store C)
      → s.available ≡ true
      → answers xs s ≡ specified_answers xs (λ n. lookup n s.agents)
  answers-refine xs s up =
      answers-Represents xs (λ n. lookup n s.agents) s (record { up = up; same = λ n. refl })
