-- ===== src/ScanEngine/Engine.antt =====
-- apps/worker/src/scan-engine/engine.ts: `runChecks`, over observations collected before.
-- What the environment answers while one check runs is a `World`: the clock, the signal, and how the
-- race of `analyze`, its timeout and the signal ends.
pub mod Gates
pub mod Runs
pub mod Levels
pub mod Totality
pub mod Foreign
mod Tests
use webprobe.Base.{
  ℕ, ◌-◌, String, Bool, true, false, not, ◌&&◌, ◌||◌, Option, none, some, List, [], ◌∷◌, map,
  if◌then◌else◌, ◌==◌, string_key, contains, any, find, Result, ok, throw, ◌>>=◌, ◌>>◌, throw_if,
  get,
}
use webprobe.Base.Text.{Text, codes}
use webprobe.Base.Value.{Number, is_given}
use webprobe.ScanEngine.Types.{
  ScanMode, public_audit, verified_monitoring, verified_deep_audit, mode_key, BudgetKind,
  ScanProfile, CoverageReason, budget_http_requests, budget_host_requests, budget_pages,
  budget_bytes_transferred, budget_dns_queries, budget_tls_handshakes, budget_active_safe_checks,
  budget_time, authorization_unavailable, scope_denied, ssrf_denied, dns_failed, transport_failed,
  transport_timeout, check_timeout,
}
use webprobe.ScanEngine.Authorization.{
  Level, public, verified, deep, AuthorizationDecision, allowed, refused,
}
use webprobe.ScanEngine.Budget.{
  BudgetLedger, BudgetReservation, denied, check_time, reserve_many, mark_partial,
}
use webprobe.ScanEngine.Budget
use webprobe.ScanEngine.Scope.{Url, ScopeDecision}
use webprobe.ScanEngine.Scope
use webprobe.ScanEngine.Registry.{
  CheckDefinition, Checks, Activity, activity_key, level_key, list_all,
}
use webprobe.ScanEngine.Registry
use webprobe.ScanEngine.Evidence.{CheckEvidence, create_evidence}

abbrev pub reason_text : CoverageReason → String
reason_text budget_http_requests = "budget-http-requests"
reason_text budget_host_requests = "budget-host-requests"
reason_text budget_pages = "budget-pages"
reason_text budget_bytes_transferred = "budget-bytes-transferred"
reason_text budget_dns_queries = "budget-dns-queries"
reason_text budget_tls_handshakes = "budget-tls-handshakes"
reason_text budget_active_safe_checks = "budget-active-safe-checks"
reason_text budget_time = "budget-time"
reason_text authorization_unavailable = "authorization-unavailable"
reason_text scope_denied = "scope-denied"
reason_text ssrf_denied = "ssrf-denied"
reason_text dns_failed = "dns-failed"
reason_text transport_failed = "transport-failed"
reason_text transport_timeout = "transport-timeout"
reason_text check_timeout = "check-timeout"

pub data Status : Type 0 where
  completed skipped failed : Status

pub record CheckRun : Type 0 where
  pub check_id : String
  pub check_version : String
  pub status : Status
  pub started_at : ℕ
  pub completed_at : ℕ
  pub duration_ms : ℕ
  pub budget_used : BudgetKind → ℕ
  pub skip_reason : Option String
  pub evidence : List CheckEvidence

-- How the race ends: with the values of `analyze`, or with an error's message.
pub data Outcome : Type 0 where
  settled : List CheckEvidence → Outcome
  rejected : String → Outcome

pub record World : Type 0 where
  pub started_at : ℕ
  pub aborted_before : Bool
  pub time_at : Number
  pub reserve_at : Number
  pub outcome : Outcome
  pub aborted_after : Bool
  pub completed_at : ℕ
  pub ended_at : ℕ

-- `key in input.observations` is a look into the list `observed`.
pub record Input : Type 0 where
  pub profile : ScanProfile
  pub origins : List String
  pub authorization : AuthorizationDecision
  pub target_url : String
  pub observed : List String
  pub observation_failures : List (String × String)

pub may_run : CheckDefinition → ScanProfile → Option String
may_run check profile =
    if not (contains profile.mode check.modes)
    then some "not-applicable"
    else if not (contains check.id profile.allowed_checks)
    then some "profile-denied"
    else if check.activity == Activity.active_safe && not profile.allow_active_safe
    then some "active-safe-denied"
    else if check.authorization == deep && not (profile.mode == verified_deep_audit)
    then some "authorization-denied"
    else if check.authorization == verified && profile.mode == public_audit
    then some "authorization-denied"
    else none

pub is_authorized : AuthorizationDecision → ScanMode → Bool
is_authorized (refused _) mode = false
is_authorized (allowed level) mode =
    not (mode == verified_deep_audit && not (level == deep))
    && not (mode == verified_monitoring && level == public)

-- A denial gives the reason.
abbrev pub denial : BudgetReservation → Option String → Option String
denial Budget.allowed before = before
denial (denied reason) before = some (reason_text reason)

module _ (parse_url : String → Option Url) (input : Input) where
  pub is_in_scope : Bool
  is_in_scope = elim (Scope.allows parse_url input.origins input.target_url) [
    | ScopeDecision.allowed ↦ true
    | _ ↦ false
  ]

  -- The first assignment of `skipReason`.
  pub early_reason : CheckDefinition → World → Option String
  early_reason check world =
      if world.aborted_before
      then some "scan-interrupted"
      else if not is_in_scope
      then some "scope-denied"
      else if not (is_authorized input.authorization input.profile.mode)
      then some "authorization-unavailable"
      else may_run check input.profile

  pub missing_observation : Option (List String) → Option String
  missing_observation none = none
  missing_observation (some keys) = find (λ key. not (contains key input.observed)) keys

  -- `observationFailures?.[missing] ?? "observation-unavailable"`
  pub failure_reason : String → String
  failure_reason missing = elim (get missing input.observation_failures) [
    | none ↦ "observation-unavailable"
    | some reason ↦ reason
  ]

  pub observation_reason : CheckDefinition → Option String → Option String
  observation_reason check early =
      if is_given early then early else elim (missing_observation check.required_observations) [
        | none ↦ early
        | some missing ↦ if missing == "" then early else some (failure_reason missing)
      ]

  pub time_reason : BudgetLedger → World → Option String → BudgetLedger × Option String
  time_reason l world before =
      if is_given before
      then (l, before)
      else let (m, time) = check_time l world.time_at in (m, denial time before)

  pub reserve_reason :
      BudgetLedger → CheckDefinition → World → Option String → Result (BudgetLedger × Option String)
  reserve_reason l check world before =
      if is_given before then ok (l, before) else elim (parse_url input.target_url) [
        | none ↦ throw "Invalid URL"
        | some url ↦ do
          (m, reservation) ←
              reserve_many l world.reserve_at check.budget (some (codes url.hostname))
          ok (m, denial reservation before)
      ]

  -- All that stands before the analysis.
  pub gate : BudgetLedger → CheckDefinition → World → Result (BudgetLedger × Option String)
  gate l check world =
      let (m, reason) = time_reason l world (observation_reason check (early_reason check world)) in
      reserve_reason m check world reason

-- `.map(createEvidence)`
pub create_all : List CheckEvidence → Result (List CheckEvidence)
create_all [] = ok []
create_all (e ∷ es) = do made ← create_evidence e; rest ← create_all es; ok (made ∷ rest)

abbrev pub is_foreign : CheckDefinition → CheckEvidence → Bool
is_foreign check item = not (item.check_id == check.id) || not (item.check_version == check.version)

pub record Finish : Type 0 where
  pub status : Status
  pub skip_reason : Option String
  pub evidence : List CheckEvidence

pub catch_reason : String → String
catch_reason message = if message == "check-timeout" then "check-timeout" else "check-failed"

-- The `catch` block; `evidence` is what was assigned before the error.
pub catch : World → List CheckEvidence → String → Result Finish
catch world evidence message =
    if world.aborted_after
    then throw message
    else ok
        (record { status = failed; skip_reason = some (catch_reason message); evidence = evidence })

-- A check that ran to its end keeps `skipReason`, which is null or empty here.
pub finish_settled :
    CheckDefinition → World → Option String → Result (List CheckEvidence) → Result Finish
finish_settled check world reason (throw message) = catch world [] message
finish_settled check world reason (ok evidence) =
    if any (is_foreign check) evidence
    then catch world evidence "Check evidence identity mismatch"
    else ok (record { status = completed; skip_reason = reason; evidence = evidence })

-- The `try` block.
pub analyze : CheckDefinition → World → Option String → Outcome → Result Finish
analyze check world reason (rejected message) = catch world [] message
analyze check world reason (settled values) = finish_settled check world reason (create_all values)

pub finish : CheckDefinition → World → Option String → Result Finish
finish check world reason =
    if is_given reason
    then ok (record { status = skipped; skip_reason = reason; evidence = [] })
    else analyze check world reason world.outcome

abbrev pub make_run : CheckDefinition → World → BudgetLedger → BudgetLedger → Finish → CheckRun
make_run check world before after f = record {
  check_id = check.id;
  check_version = check.version;
  status = f.status;
  started_at = world.started_at;
  completed_at = world.completed_at;
  duration_ms = world.ended_at - world.started_at;
  budget_used = λ k. after.used k - before.used k;
  skip_reason = f.skip_reason;
  evidence = f.evidence;
}

module _ (parse_url : String → Option Url) (input : Input) where
  -- The body of the loop.
  pub run_check : BudgetLedger → CheckDefinition → World → Result (BudgetLedger × CheckRun)
  run_check l check world = do
    (m, reason) ← gate parse_url input l check world
    f ← finish check world reason
    ok (m, make_run check world l m f)

  pub run_all :
      (CheckDefinition → World)
      → BudgetLedger
      → List CheckDefinition
      → Result (BudgetLedger × List CheckRun)
  run_all world l [] = ok (l, [])
  run_all world l (check ∷ checks) = do
    (m, run) ← run_check l check (world check)
    (n, runs) ← run_all world m checks
    ok (n, run ∷ runs)

  -- The two marks before the loop.
  pub mark : BudgetLedger → BudgetLedger
  mark l =
      let m = if is_in_scope parse_url input then l else mark_partial l scope_denied in
      if is_authorized input.authorization input.profile.mode
      then m
      else mark_partial m authorization_unavailable

  pub run_checks :
      (CheckDefinition → World) → BudgetLedger → Checks → Result (BudgetLedger × List CheckRun)
  run_checks world l registry = run_all world (mark l) (list_all registry)
