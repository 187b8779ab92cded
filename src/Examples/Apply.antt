-- ===== src/Examples/Apply.antt =====
-- Runs of the application of a plan.
use nyanya_agent.Prelude.{
  List, map, select, ◌==◌, ◌≡◌, ◌⊎◌, refl, true, false, none, some, [], ◌∷◌, Result, ok, All,
  if◌then◌else◌, find, any_row, first, update, update_where, select,
}
use nyanya_agent.Paths.{Text, length}
use nyanya_agent.Ledger.{
  Change, ChangeAction, ChangePlan, PlanStatus, execution_status_code, plan_status_code,
  task_status_code, ◌among◌, task_terminal,
}
use nyanya_agent.Operations.{
  Workspaces, check_workspace, assigned_root, creates_only, cutoff, is_create, owns, plan_matches,
  require_apply_ownership, require_execution_ownership,
}
use nyanya_agent.Apply.{
  World, Outside, Disk, apply, get_plan, planned, apply_plan, check_root, take_lock, apply_locked,
  commit, prepare, require_eligible, appliable_parent, check_applying, check_claim, current_plan,
  digest, finish, hash_eq, journal_of, journal_row, mark_uncertain, never_started, ready_draft_of,
  same_before, set_draft_applied, set_file, set_plan_status, unreconciled, write_journal,
  apply_change, apply_changes, change_as, change_file, check_before, check_cancelled, cleanup,
  create_exclusively, create_file, delete_file, guard, ignore_safe, modify_file, put, replace_file,
  set_applied, write_temporary, write_until, create_temporary, put_temporary, move_temporary,
}
use nyanya_agent.Apply.Follows.{WrittenBy}
use nyanya_agent.Apply.Leftovers.{LeftBy}
use nyanya_agent.Apply.Crash.{apply_crash_safe}
use nyanya_agent.Apply.Applied.{IsEnd, apply-IsEnd}
use nyanya_agent.Apply.Written.{apply_completes}
use nyanya_agent.Apply.Resolution.{
  Evidence, is_after, observe, observe_file, observation, all_after, applying_attempt, at_least,
  at_most, check_resolvable, check_status, child_end, end_draft, failed_apply, held_claim,
  parent_end, parent_hold, proposing_attempt, related, resolution, resolve_conn, resolved_event,
  resolved_executions, settle_parent, settle_related,
}
use nyanya_agent.Apply.Resolve.{evidence_hash, resolve, resolve_plan, observe_disk, check_seen}
use nyanya_agent.Apply.Resolved.{IsResolved, resolve-IsResolved}
use nyanya_agent.Examples.{waiting}
use nyanya_agent.Prelude.Steps.{◌>>=◌, read, ◌>>◌, proceed, raise, recovered, return, try_except}
use nyanya_agent.Plans.{require_plan_conn, latest_plan, plan_draft, draft_of, is_ready, plan_event}
use nyanya_agent.Effects.{
  is_apply, attempt_resolved, effect_tasks, is_plan_resolved, journal_in_doubt, plan_in_doubt,
  plan_settled, resolution_owner, task_in_doubt, uncertain_statuses, unresolved_attempt,
  unresolved_effects,
}
use nyanya_agent.Messages.{take}
use nyanya_agent.Operations.Dispatch.{hold_operation}
use nyanya_agent.Tasks.{set_task_status}

abbrev pub everywhere : Workspaces
everywhere = record {
  resolve = λ path. some path;
  is_dir = λ path. true;
  is_anchor = λ path. false;
  is_allowed = λ path. true;
  is_remote = λ owner. false;
  assigned = λ owner. none;
}

-- Lengths stand for digests here; no write stops.
abbrev outside : Outside
outside = record {
  sha256 = length;
  plan_digest = λ changes. 99;
  clock = λ tick. 20;
  cancelled = λ tick. false;
  others = λ tick l. l;
  stops = λ n. none;
  adapter = 2;
  lock_granted = true;
  workspaces = everywhere;
}

abbrev a_creation : Change
a_creation = record {
  path = 7;
  action = ChangeAction.create;
  content = 104 ∷ 105 ∷ [];
  before_hash = none;
  after_hash = some 2;
}

abbrev a_change : Change
a_change = record {
  path = 8;
  action = ChangeAction.modify;
  content = 97 ∷ 98 ∷ 99 ∷ [];
  before_hash = some 1;
  after_hash = some 3;
}

abbrev a_file_plan : ChangePlan
a_file_plan = record {
  id = 41;
  task = 1;
  owner = 5;
  workspace = 3;
  plan_hash = 99;
  changes = a_creation ∷ a_change ∷ [];
  status = PlanStatus.approved;
  expires_at = 1000;
  decided_by = some 5;
  created_at = 10;
}

abbrev a_disk : Disk
a_disk path = if path == 8 then some (120 ∷ []) else none

abbrev pub a_world : World
a_world = record {
  ledger = record waiting { plans = a_file_plan ∷ [] };
  disk = a_disk;
  temporary = λ n. none;
  tick = 0;
}

abbrev an_end : Result (Unit {0}) × World
an_end = apply outside 41 5 none a_world

apply_returns : apply outside 41 5 none a_world ≡ (ok tt, an_end.1)
unfolding apply ◌>>=◌ read get_plan find apply_plan check_root check_workspace ◌>>◌ take_lock
    apply_locked commit prepare require_eligible require_plan_conn latest_plan plan_draft
    appliable_parent check_applying check_claim current_plan digest finish hash_eq journal_of
    journal_row mark_uncertain never_started ready_draft_of same_before set_draft_applied set_file
    set_plan_status unreconciled write_journal apply_change apply_changes change_as change_file
    check_before check_cancelled cleanup create_exclusively create_file delete_file guard
    ignore_safe modify_file put replace_file set_applied write_temporary write_until is_apply
    execution_status_code plan_status_code task_status_code ◌among◌ take assigned_root creates_only
    cutoff is_create owns plan_matches require_apply_ownership require_execution_ownership draft_of
    is_ready proceed raise recovered return try_except any_row first update update_where length
    create_temporary put_temporary move_temporary
apply_returns = refl

plan_found : get_plan outside 41 5 a_world ≡ some a_file_plan
unfolding get_plan find
plan_found = refl

apply_completes_example : All (λ c. an_end.1.disk c.path ≡ planned c) a_file_plan.changes
apply_completes_example =
    apply_completes outside 41 5 none a_file_plan a_world an_end.1 plan_found
      (((λ p. cc), tt), (tt, tt)) apply_returns

-- A run in which the second file cannot be written.
abbrev full_disk : Outside
full_disk = record outside { stops = λ n. if n == 1 then some 1 else none }

apply_crash_safe_example :
    (((apply full_disk 41 5 none a_world).1.disk 8 ≡ a_world.disk 8)
      ⊎ ((plan : ChangePlan) × (get_plan full_disk 41 5 a_world ≡ some plan)
          × WrittenBy plan.changes 8 ((apply full_disk 41 5 none a_world).1.disk 8)))
    × (((apply full_disk 41 5 none a_world).1.temporary 1 ≡ a_world.temporary 1)
        ⊎ ((plan : ChangePlan) × (get_plan full_disk 41 5 a_world ≡ some plan)
            × LeftBy plan.changes 1 ((apply full_disk 41 5 none a_world).1.temporary 1)))
apply_crash_safe_example = apply_crash_safe full_disk 5 none 41 8 1 a_world

apply-IsEnd_example : IsEnd 41 a_world (apply full_disk 41 5 none a_world)
apply-IsEnd_example = apply-IsEnd full_disk 5 none 41 a_world

-- The owner resolves the plan after an application that has made one of its two changes.
abbrev an_uncertain_plan : ChangePlan
an_uncertain_plan = record a_file_plan { status = PlanStatus.uncertain }

abbrev an_interrupted_world : World
an_interrupted_world = record {
  ledger = record waiting { plans = an_uncertain_plan ∷ [] };
  disk = λ path. if path == 7 then some (104 ∷ 105 ∷ []) else a_disk path;
  temporary = λ n. none;
  tick = 5;
}

abbrev paths_after : List Evidence → Text
paths_after rows = map (λ e. e.path) (select (λ e. is_after e.observed) rows)

abbrev a_resolution : Result (Unit {0}) × World
a_resolution = resolve outside paths_after 41 5 1 an_interrupted_world

resolve_returns : resolve outside paths_after 41 5 1 an_interrupted_world ≡ (ok tt, a_resolution.1)
unfolding resolve ◌>>=◌ read get_plan find resolve_plan check_root check_workspace ◌>>◌ take_lock
    observe_disk check_seen evidence_hash observe is_after observe_file observation digest hash_eq
    ready_draft_of set_plan_status all_after applying_attempt at_least at_most check_resolvable
    check_status child_end end_draft failed_apply held_claim parent_end parent_hold
    proposing_attempt related resolution resolve_conn resolved_event resolved_executions
    settle_parent settle_related commit attempt_resolved effect_tasks is_apply is_plan_resolved
    journal_in_doubt plan_in_doubt plan_settled resolution_owner task_in_doubt uncertain_statuses
    unresolved_attempt unresolved_effects execution_status_code plan_status_code task_status_code
    task_terminal ◌among◌ hold_operation assigned_root is_ready plan_event proceed any_row select
    update update_where set_task_status length
resolve_returns = refl

uncertain_plan_found : get_plan outside 41 5 an_interrupted_world ≡ some an_uncertain_plan
unfolding get_plan find
uncertain_plan_found = refl

resolve-IsResolved_example :
    (evidence_hash outside paths_after
        (observe outside an_interrupted_world.disk an_uncertain_plan.changes)
      ≡ 1)
    × (a_resolution.1.disk ≡ an_interrupted_world.disk)
    × IsResolved outside an_uncertain_plan an_interrupted_world.disk a_resolution.1.ledger
resolve-IsResolved_example =
    resolve-IsResolved outside paths_after 5 41 1 an_uncertain_plan an_interrupted_world
      a_resolution.1 uncertain_plan_found resolve_returns
