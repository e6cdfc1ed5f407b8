-- ===== src/Federation/Heartbeats.antt =====
-- pkg/federation/heartbeat.go: the monitor of the companies and its pending issues. A loop is a
-- goroutine that `Start` makes; `loops` counts those that run, and a closed channel stays closed. The
-- companies are visited in the order of an argument, and the answers of the network are a function.
use opc_platform.Prelude.{
  ℕ, suc, String, Bool, true, false, Option, none, some, List, [], ◌∷◌, if◌then◌else◌, str_eq,
}
use mathlib.Core.List.{◌++◌ as append}
use opc_platform.Federation.Companies.{
  Company, CompanyStatus, FederationController, Json, Outside, online, offline, busy,
  update_company_status,
}

pub record PendingIssue : Type 0 where
  pub issue_id : String
  pub company_id : String
  pub reason : String
  pub since : Option ℕ

pub record HeartbeatMonitor : Type 0 where
  pub running : Bool
  pub stop_closed : Bool
  pub loops : ℕ
  pub pending_issues : List PendingIssue

abbrev pub new_monitor : HeartbeatMonitor
new_monitor = record { running = false; stop_closed = false; loops = 0; pending_issues = [] }

-- A new loop ends at once where the channel is closed.
unfoldable pub start : HeartbeatMonitor → HeartbeatMonitor
start hm =
    if hm.running
    then hm
    else record hm { running = true; loops = if hm.stop_closed then hm.loops else suc hm.loops }

-- `none` is the panic of a second `close`.
unfoldable pub stop : HeartbeatMonitor → Option HeartbeatMonitor
stop hm =
    if hm.running
    then (if hm.stop_closed
        then none
        else some (record hm { running = false; stop_closed = true; loops = 0 }))
    else some hm

unfoldable pub add_pending_issue : ℕ → PendingIssue → HeartbeatMonitor → HeartbeatMonitor
add_pending_issue now issue hm =
    let since : Option ℕ = elim issue.since [ none ↦ some now | some t ↦ some t ] in
    record hm { pending_issues = append hm.pending_issues (record issue { since = since } ∷ []) }

-- The first issue of the identifier goes.
unfoldable pub without_issue : String → List PendingIssue → List PendingIssue
without_issue id [] = []
without_issue id (issue ∷ issues) =
    let rest = without_issue id issues in if str_eq issue.issue_id id then issues else issue ∷ rest

unfoldable pub remove_pending_issue : String → HeartbeatMonitor → HeartbeatMonitor
unfolding without_issue
remove_pending_issue id hm = record hm { pending_issues = without_issue id hm.pending_issues }

abbrev pub is_online : CompanyStatus → Bool
is_online online = true
is_online offline = false
is_online busy = false

module _ {T : Type 0} (json : Json T) where
  -- One company; the error of the update is logged only. A company that is online and answers is left
  -- as it is. Each company is visited once, so its status is still that of the list.
  unfoldable pub check_company :
      Outside T → Company → FederationController T → FederationController T
  unfolding update_company_status
  check_company outside company fc =
      if outside.pings company.endpoint
      then (if is_online company.status
          then fc
          else (update_company_status json outside company.company_id online fc).0)
      else (update_company_status json outside company.company_id offline fc).0

  unfoldable pub check_all :
      Outside T → List Company → FederationController T → FederationController T
  unfolding check_company
  check_all outside [] fc = fc
  check_all outside (company ∷ companies) fc =
      check_all outside companies (check_company outside company fc)
