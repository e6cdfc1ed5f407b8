-- ===== src/Tests/Companies.antt =====
-- A federation of one company, and a queue with one request.
use mathlib.Core.Path.{sym}
use opc_platform.Prelude.{
  Write, whole, cut_off, ℕ, ◌*◌, ◌≤◌, ◌≡◌, refl, true, false, none, some, List, [], ◌∷◌, Map,
  lookup, insert, delete, keys,
}
use opc_platform.Federation.Retries.{
  enqueue, ready, remaining, backoff, send_ready, process_once, max_retries,
}
use opc_platform.Federation.Retries.Bounds.{
  QueueCall, enqueues, ticks, run_queue, sends_in, enqueued_in, sends_in-max_retries,
}
use opc_platform.Federation.Companies.{
  Company, CompanyRegistration, FederationController, Json, Outside, busy, find_name,
  find_company_by_name, get_company, save_state, register_company, update_company_status,
  all_offline, load_state, new_federation_controller, already_registered,
}
use opc_platform.Federation.Companies.Persistence.{
  CompanyCall, registers, updates, company_call, run_companies, run_companies-new,
}
use opc_platform.Tests.Samples.{plain_order}

companies : Unit {0}
unfolding lookup insert delete keys enqueue ready remaining backoff send_ready process_once
    run_queue sends_in enqueued_in find_name find_company_by_name get_company save_state
    register_company update_company_status all_offline load_state new_federation_controller
    company_call run_companies
companies = tt

abbrev refused : ℕ → QueueCall
refused now = ticks (record { now = now; later = now; accepts = λ e. false })

abbrev queue_calls : List QueueCall
queue_calls =
    enqueues "r" "http://x" "{}" 0 ∷ refused 1 ∷ refused 2 ∷ refused 10 ∷ refused 10000 ∷ []

-- It is too early at 1, and the request is sent at 2, 10 and 10000.
three_sends : sends_in queue_calls [] ≡ 3
unfolding companies
three_sends = refl

sends_in-max_retries_example : sends_in queue_calls [] ≤ max_retries * enqueued_in queue_calls
sends_in-max_retries_example = sends_in-max_retries queue_calls

abbrev registration : CompanyRegistration
registration = record {
  name = "acme";
  endpoint = "http://acme";
  dashboard_url = "";
  company_type = "software";
  agents = [];
}

abbrev outside : Write (Map Company) → Outside (Map Company)
outside write = record {
  pings = λ endpoint. true;
  write = write;
  new_id = "c1";
  new_key = "k";
  now = 5;
}

-- A file that holds the companies as they are.
abbrev json : Json (Map Company)
json = record { marshal = λ m. some m; unmarshal = λ m. some m }

abbrev nobody : FederationController (Map Company)
nobody = record { companies = []; file = none }

abbrev company_calls : List (Outside (Map Company) × CompanyCall)
company_calls =
    (outside whole, registers plain_order registration) ∷ (outside whole, updates "c1" busy) ∷ []

run_companies-new_example :
    let fc = run_companies json company_calls (new_federation_controller json none) in
    (new_federation_controller json fc.file).companies ≡ all_offline fc.companies
run_companies-new_example =
    run_companies-new json (λ m. (m, refl)) (λ m text e. sym e) company_calls none
      (refl, (refl, tt))

-- It cannot be registered again, though the first call failed.
failed_stays :
    let r = register_company json plain_order (outside (cut_off [])) registration nobody in
    (register_company json plain_order (outside whole) registration r.0).1 ≡ some already_registered
unfolding companies
failed_stays = refl
