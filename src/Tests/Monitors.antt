-- ===== src/Tests/Monitors.antt =====
-- A monitor that is started, stopped and started again, and two pending issues.
use opc_platform.Prelude.{◌≡◌, refl, String, true, false, none, some, [], ◌∷◌}
use opc_platform.Federation.Heartbeats.{
  PendingIssue, HeartbeatMonitor, new_monitor, start, stop, add_pending_issue, without_issue,
  remove_pending_issue,
}

monitors : Unit {0}
unfolding start stop add_pending_issue without_issue remove_pending_issue
monitors = tt

abbrev stopped : HeartbeatMonitor
stopped = record { running = false; stop_closed = true; loops = 0; pending_issues = [] }

abbrev restarted : HeartbeatMonitor
restarted = record { running = true; stop_closed = true; loops = 0; pending_issues = [] }

first_stop : stop (start new_monitor) ≡ some stopped
unfolding monitors
first_stop = refl

-- It says that it runs, but no loop does, and it cannot be stopped.
second_start : start stopped ≡ restarted
unfolding monitors
second_start = refl

second_stop : stop restarted ≡ none
unfolding monitors
second_stop = refl

abbrev issue : String → PendingIssue
issue id = record { issue_id = id; company_id = "c"; reason = "blocked"; since = some 3 }

one_left :
    (remove_pending_issue "a" (
      add_pending_issue 5 (issue "b") (add_pending_issue 4 (issue "a") new_monitor))).pending_issues
    ≡ issue "b" ∷ []
unfolding monitors
one_left = refl
