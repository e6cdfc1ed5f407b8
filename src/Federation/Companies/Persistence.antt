-- ===== src/Federation/Companies/Persistence.antt =====
-- The companies in memory and in the state file.
use mathlib.Core.Path.{subst, sym}
use opc_platform.Prelude.{
  String, ◌≡◌, refl, ap, Option, none, some, List, [], ◌∷◌, inl, inr, arith, Map, lookup,
  Option-cases, MapOrder, All, whole,
}
use opc_platform.Federation.Companies.{
  Company, CompanyStatus, CompanyRegistration, FederationController, Json, Outside, offline,
  find_company_by_name, save_state, register_company, unregister_company, update_company_status,
  all_offline, load_state, new_federation_controller,
}

pub data CompanyCall : Type 0 where
  registers : MapOrder → CompanyRegistration → CompanyCall
  unregisters : String → CompanyCall
  updates : String → CompanyStatus → CompanyCall

all_offline-twice : (m : Map Company) → all_offline (all_offline m) ≡ all_offline m
unfolding all_offline
all_offline-twice [] = refl
all_offline-twice ((k, c) ∷ m) =
    ap (λ ms. (k, record c { status = offline }) ∷ ms) (all_offline-twice m)

module _ {T : Type 0} (json : Json T) where
  unfoldable pub company_call :
      Outside T → CompanyCall → FederationController T → FederationController T
  company_call outside (registers order reg) fc = (register_company json order outside reg fc).0
  company_call outside (unregisters id) fc = (unregister_company json outside id fc).0
  company_call outside (updates id status) fc = (update_company_status json outside id status fc).0

  unfoldable pub run_companies :
      List (Outside T × CompanyCall) → FederationController T → FederationController T
  unfolding company_call
  run_companies [] fc = fc
  run_companies ((outside, x) ∷ calls) fc = run_companies calls (company_call outside x fc)

  -- A controller that is made of the file has the companies, offline.
  abbrev IsSaved : FederationController T → Type 0
  IsSaved fc = load_state json fc.file ≡ all_offline fc.companies

  load_state-IsSaved : (file : Option T) → load_state json file ≡ all_offline (load_state json file)
  unfolding load_state all_offline
  load_state-IsSaved none = refl
  load_state-IsSaved (some text) = elim (Option-cases (json.unmarshal text)) [
    | inl bad ↦ rw (bad, load_state) refl
    | inr (m, found) ↦ rw (found, load_state) (sym (all_offline-twice m))
  ]

  module _ (marshals : (m : Map Company) → (text : T) × (json.marshal m ≡ some text))
      (reads : (m : Map Company) (text : T)
        → json.marshal m ≡ some text
        → json.unmarshal text ≡ some m) where
    save_state-IsSaved :
        (outside : Outside T) (fc : FederationController T)
        → outside.write ≡ whole
        → IsSaved (save_state json outside fc).0
    unfolding save_state load_state
    save_state-IsSaved outside fc writable =
        let (text, marshalled) = marshals fc.companies in
        let saved : (save_state json outside fc).0 ≡ record fc { file = some text } =
          ground (arith, marshalled, writable) in
        subst IsSaved (sym saved) (ground (arith, reads fc.companies text marshalled))

    company_call-IsSaved :
        (outside : Outside T) (x : CompanyCall) (fc : FederationController T)
        → outside.write ≡ whole
        → IsSaved fc
        → IsSaved (company_call outside x fc)
    unfolding company_call register_company unregister_company update_company_status
    company_call-IsSaved outside (registers order reg) fc writable ok =
        elim (Option-cases (find_company_by_name order reg.name fc)) [
          | inr (company, taken) ↦ rw (taken, company_call, register_company) ok
          | inl new ↦
              rw (new, company_call, register_company) (save_state-IsSaved outside _ writable)
        ]
    company_call-IsSaved outside (unregisters id) fc writable ok =
        elim (Option-cases (lookup id fc.companies)) [
          | inl missing ↦ rw (missing, company_call, unregister_company) ok
          | inr (company, found) ↦
              rw (found, company_call, unregister_company) (save_state-IsSaved outside _ writable)
        ]
    company_call-IsSaved outside (updates id status) fc writable ok =
        elim (Option-cases (lookup id fc.companies)) [
          | inl missing ↦ rw (missing, company_call, update_company_status) ok
          | inr (company, found) ↦
              rw (found, company_call, update_company_status)
                (save_state-IsSaved outside _ writable)
        ]

    run_companies-keeps :
        (calls : List (Outside T × CompanyCall)) (fc : FederationController T)
        → All (λ c. c.0.write ≡ whole) calls
        → IsSaved fc
        → IsSaved (run_companies calls fc)
    unfolding run_companies
    run_companies-keeps [] fc h ok = ok
    run_companies-keeps ((outside, x) ∷ calls) fc (writable, h) ok =
        run_companies-keeps calls (company_call outside x fc) h
          (company_call-IsSaved outside x fc writable ok)

    -- Where companies can be written as JSON and read back, and the file can be written at every call,
    -- a controller that is made anew after any calls has the same companies, all offline.
    pub run_companies-new :
        (calls : List (Outside T × CompanyCall)) (file : Option T)
        → All (λ c. c.0.write ≡ whole) calls
        → let fc = run_companies calls (new_federation_controller json file) in
          (new_federation_controller json fc.file).companies ≡ all_offline fc.companies
    unfolding new_federation_controller
    run_companies-new calls file h =
        run_companies-keeps calls (new_federation_controller json file) h (load_state-IsSaved file)
