-- ===== src/Cost/Disk.antt =====
-- The events file of pkg/cost/cost.go.
use Prim.Native.String.{◌++◌}
use mathlib.Core.Path.{subst}
use opc_platform.Prelude.{
  ℕ, ◌≡◌, refl, ◌⊎◌, String, Bool, true, false, not, Option, none, some, List, [], ◌∷◌,
  if◌then◌else◌, Write, unopened, whole, cut_off, Bool-cases, Option-cases, inl, inr, ap, sym, ◌∙◌,
  arith, str_eq, Map,
}
use mathlib.Core.List.{◌++◌ as append}
use opc_platform.Cost.{
  EventsFile, joined, CostEvent, ModelPricing, Tracker, Rates, nothing, complete_event,
  persist_event, record_cost,
}

module _ {C : Type 0} (rates : Rates C) where
  -- The loop of `loadFromDisk`: a line above 1 MB ends it with an error, an empty line and one that
  -- is no event are skipped.
  unfoldable pub load_lines :
      (String → Bool)
      → (String → Option (CostEvent C))
      → List String
      → List (CostEvent C)
      → List (CostEvent C) × Bool
  load_lines fits unmarshal [] events = (events, true)
  load_lines fits unmarshal (line ∷ lines) events =
      let rest = load_lines fits unmarshal lines (
        if str_eq line ""
        then events
        else (elim (unmarshal line) [ none ↦ events | some e ↦ append events (e ∷ []) ])) in
      if not (fits line) then (events, false) else rest

  -- The scanner's lines: a rest without a newline is one.
  abbrev pub scanned : EventsFile → List String
  scanned file = elim file.rest [ none ↦ file.lines | some rest ↦ append file.lines (rest ∷ []) ]

  -- `NewTracker`: what is read of the file, and the built-in prices.
  unfoldable pub new_tracker :
      (String → Bool)
      → (String → Option (CostEvent C))
      → Map (ModelPricing C)
      → EventsFile
      → Tracker C
  unfolding load_lines
  new_tracker fits unmarshal default_pricing file = record {
    events = (load_lines fits unmarshal (scanned file) []).0;
    budget = record {
      daily_limit = (nothing rates);
      monthly_limit = (nothing rates);
      alert_pct = (nothing rates);
    };
    pricing = default_pricing;
    file = file;
  }

  -- What one more line adds.
  abbrev pub read_line :
      (String → Option (CostEvent C)) → String → List (CostEvent C) → List (CostEvent C)
  read_line unmarshal line events =
      if str_eq line ""
      then events
      else (elim (unmarshal line) [ none ↦ events | some e ↦ append events (e ∷ []) ])

  load_lines-append :
      (fits : String → Bool) (unmarshal : String → Option (CostEvent C)) (file : List String)
      (line : String) (events : List (CostEvent C))
      → (load_lines fits unmarshal file events).1 ≡ true
      → fits line ≡ true
      → load_lines fits unmarshal (append file (line ∷ [])) events
        ≡ (read_line unmarshal line (load_lines fits unmarshal file events).0, true)
  unfolding load_lines
  load_lines-append fits unmarshal [] line events ok f = ground (arith, f)
  load_lines-append fits unmarshal (l ∷ file) line events ok f =
      let next : List (CostEvent C) = read_line unmarshal l events in
      elim (Bool-cases (fits l)) [
        | inl short ↦
            let scan = λ (b : Bool) (lines : List String).
              if not b then (events, false) else load_lines fits unmarshal lines next in
            let ok' = subst (λ b. (scan b file).1 ≡ true) short ok in
            subst
              (λ b.
                scan b (append file (line ∷ [])) ≡ (read_line unmarshal line (scan b file).0, true))
              (sym short) (load_lines-append fits unmarshal file line next ok' f)
        | inr long ↦ absurd (ground (arith, ok, long))
      ]

  -- The file ends with a newline, and what a new tracker reads of it is what this one holds.
  pub record IsSaved (fits : String → Bool) (unmarshal : String → Option (CostEvent C))
      (t : Tracker C) : Type 0 where
    pub ended : t.file.rest ≡ none
    pub readable : (load_lines fits unmarshal t.file.lines []).1 ≡ true
    pub same : (load_lines fits unmarshal t.file.lines []).0 ≡ t.events

  -- Nothing is written, a part of the line is, or the line is and the event is recorded.
  pub record_cost-cases :
      (marshal : CostEvent C → Option String) (write : Write String) (new_id : String) (now : ℕ)
      (event : CostEvent C) (t : Tracker C)
      → let e = complete_event rates new_id now event in
        let recorded = record_cost rates marshal write new_id now event t in
        (recorded ≡ (t, false))
        ⊎ (((part : String) × (write ≡ cut_off part)
              × (recorded ≡ (
                record t { file = record t.file { rest = some (joined t.file.rest part) } },
                false,
              )))
            ⊎ ((line : String) × (marshal e ≡ some line)
                × (recorded ≡ (
                  record t {
                    file = record {
                      lines = append t.file.lines (joined t.file.rest line ∷ []);
                      rest = none;
                    };
                    events = append t.events (e ∷ []);
                  },
                  true,
                ))))
  unfolding record_cost persist_event
  record_cost-cases marshal unopened new_id now event t = inl refl
  record_cost-cases marshal whole new_id now event t =
      elim (Option-cases (marshal (complete_event rates new_id now event))) [
        | inl failed ↦ inl (ground (arith, failed))
        | inr (line, written) ↦ inr (inr (line, written, ground (arith, written)))
      ]
  record_cost-cases marshal (cut_off part) new_id now event t =
      elim (Option-cases (marshal (complete_event rates new_id now event))) [
        | inl failed ↦ inl (ground (arith, failed))
        | inr (line, written) ↦ inr (inl (part, refl, ground (arith, written)))
      ]

  module _ (fits : String → Bool) (unmarshal : String → Option (CostEvent C))
      (marshal : CostEvent C → Option String) where
    -- After a write that was cut off, the next event that is recorded is lost where its line does not
    -- make an event behind the part that was written: this tracker has it, and a new one does not.
    pub record_cost-cut_off :
        (part new_id : String) (now : ℕ) (event : CostEvent C) (t : Tracker C)
        → t.file.rest ≡ some part
        → (load_lines fits unmarshal t.file.lines []).1 ≡ true
        → (load_lines fits unmarshal t.file.lines []).0 ≡ t.events
        → (line : String) → marshal (complete_event rates new_id now event) ≡ some line
        → fits (part ++ line) ≡ true
        → unmarshal (part ++ line) ≡ none
        → let recorded = record_cost rates marshal whole new_id now event t in
          (recorded.1 ≡ true)
          × (recorded.0.events ≡ append t.events (complete_event rates new_id now event ∷ []))
          × (load_lines fits unmarshal (scanned recorded.0.file) [] ≡ (t.events, true))
    unfolding record_cost persist_event
    record_cost-cut_off part new_id now event t left ok same line written short malformed =
        let both = load_lines-append fits unmarshal t.file.lines (part ++ line) [] ok short in
        let lost : load_lines fits unmarshal (append t.file.lines (joined t.file.rest line ∷ [])) []
            ≡ (t.events, true) =
          ap (λ r. load_lines fits unmarshal (append t.file.lines (joined r line ∷ [])) []) left
          ∙ both
          ∙ ground (arith, malformed, same) in
        let wrote : scanned (record_cost rates marshal whole new_id now event t).0.file
            ≡ append t.file.lines (joined t.file.rest line ∷ []) =
          ground (arith, written) in
        (
          ground (arith, written),
          ground (arith, written),
          ap (λ lines. load_lines fits unmarshal lines []) wrote ∙ lost,
        )
