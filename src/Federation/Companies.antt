-- ===== src/Federation/Companies.antt =====
-- pkg/federation/controller.go: the companies of the federation and the file that keeps them. A company
-- is a value, and the text of the file is of a type `T`; the transport's answers, the new identifier and key, the time, JSON and whether the file
-- can be written are parameters.
pub mod Persistence
use opc_platform.Prelude.{
  ℕ, String, Bool, true, false, Option, none, some, List, [], ◌∷◌, if◌then◌else◌, str_eq, Map,
  lookup, insert, delete, keys, has_key, MapOrder, Write, unopened, whole, cut_off,
}

pub data CompanyStatus : Type 0 where
  online offline busy : CompanyStatus

pub record Company : Type 0 where
  pub company_id : String
  pub name : String
  pub endpoint : String
  pub dashboard_url : String
  pub company_type : String
  pub status : CompanyStatus
  pub agents : List String
  pub api_key : String
  pub joined_at : ℕ

pub record CompanyRegistration : Type 0 where
  pub name : String
  pub endpoint : String
  pub dashboard_url : String
  pub company_type : String
  pub agents : List String

-- The companies, and the text of the state file, where there is one.
pub record FederationController (T : Type 0) : Type 0 where
  pub companies : Map Company
  pub file : Option T

pub record Json (T : Type 0) : Type 0 where
  pub marshal : Map Company → Option T
  pub unmarshal : T → Option (Map Company)

pub data CompanyError : Type 0 where
  already_registered not_found not_persisted : CompanyError

-- What one call finds outside.
pub record Outside (T : Type 0) : Type 0 where
  pub pings : String → Bool
  pub write : Write T
  pub new_id : String
  pub new_key : String
  pub now : ℕ

-- The first company of the name, in the order in which the keys are visited.
unfoldable pub find_name : String → Map Company → List String → Option Company
find_name name companies [] = none
find_name name companies (k ∷ ks) =
    let rest = find_name name companies ks in
    elim (lookup k companies) [ none ↦ rest | some c ↦ if str_eq c.name name then some c else rest ]

abbrev pub new_company : {T : Type 0} → Outside T → CompanyRegistration → Company
new_company outside reg = record {
  company_id = outside.new_id;
  name = reg.name;
  endpoint = reg.endpoint;
  dashboard_url = reg.dashboard_url;
  company_type = reg.company_type;
  status = if outside.pings reg.endpoint then online else offline;
  agents = reg.agents;
  api_key = outside.new_key;
  joined_at = outside.now;
}

unfoldable pub all_offline : Map Company → Map Company
all_offline [] = []
all_offline ((k, c) ∷ companies) = (k, record c { status = offline }) ∷ all_offline companies

module _ {T : Type 0} where
  unfoldable pub find_company_by_name : MapOrder → String → FederationController T → Option Company
  unfolding find_name keys
  find_company_by_name order name fc =
      find_name name fc.companies (order.range 0 (keys fc.companies))

  unfoldable pub get_company : String → FederationController T → Option Company
  get_company id fc = lookup id fc.companies

  -- The controller, and whether the file was written. `os.WriteFile` empties the file first, so that a
  -- write that is cut off leaves a part of the new text only.
  unfoldable pub save_state :
      Json T → Outside T → FederationController T → FederationController T × Bool
  save_state json outside fc = elim (json.marshal fc.companies) [
    | none ↦ (fc, false)
    | some text ↦ elim outside.write [
      | unopened ↦ (fc, false)
      | whole ↦ (record fc { file = some text }, true)
      | cut_off part ↦ (record fc { file = some part }, false)
    ]
  ]

  unfoldable pub register_company :
      Json T
      → MapOrder
      → Outside T
      → CompanyRegistration
      → FederationController T
      → FederationController T × Option CompanyError
  unfolding find_company_by_name save_state
  register_company json order outside reg fc = elim (find_company_by_name order reg.name fc) [
    | some company ↦ (fc, some already_registered)
    | none ↦
        let saved = save_state json outside (record fc {
          companies = insert outside.new_id (new_company outside reg) fc.companies;
        }) in
        (saved.0, if saved.1 then none else some not_persisted)
  ]

  unfoldable pub unregister_company :
      Json T
      → Outside T
      → String
      → FederationController T
      → FederationController T × Option CompanyError
  unfolding save_state
  unregister_company json outside id fc = elim (lookup id fc.companies) [
    | none ↦ (fc, some not_found)
    | some company ↦
        let saved = save_state json outside (record fc { companies = delete id fc.companies }) in
        (saved.0, if saved.1 then none else some not_persisted)
  ]

  unfoldable pub update_company_status :
      Json T
      → Outside T
      → String
      → CompanyStatus
      → FederationController T
      → FederationController T × Option CompanyError
  unfolding save_state
  update_company_status json outside id status fc = elim (lookup id fc.companies) [
    | none ↦ (fc, some not_found)
    | some company ↦
        let saved =
          save_state json outside (record fc {
            companies = insert id (record company { status = status }) fc.companies;
          }) in
        (saved.0, if saved.1 then none else some not_persisted)
  ]

  -- A file that cannot be read as JSON leaves no companies; the error is logged.
  unfoldable pub load_state : Json T → Option T → Map Company
  unfolding all_offline
  load_state json none = []
  load_state json (some text) = elim (json.unmarshal text) [
    | none ↦ []
    | some companies ↦ all_offline companies
  ]

  unfoldable pub new_federation_controller : Json T → Option T → FederationController T
  unfolding load_state
  new_federation_controller json file = record { companies = load_state json file; file = file }
