-- ===== src/ScanEngine/Engine/Tests.antt =====
-- Witnesses of the engine: one check of a deep audit, over a target in scope.
use webprobe.Base.{
  String, ◌≡◌, ◌≢◌, refl, Option, none, some, List, [], ◌∷◌, Result, true, false, if◌then◌else◌,
  ◌==◌, string_key, contains,
}
use webprobe.Base.Value.{nat, Number, object, no_entry}
use webprobe.ScanEngine.Types.{verified_deep_audit, public_audit, BudgetLimits, ScanMode-discrete}
use webprobe.ScanEngine.Authorization.{Level, public, deep, allowed}
use webprobe.ScanEngine.Budget.{BudgetLedger, fresh}
use webprobe.ScanEngine.Budget.Invariant.{IsValid, fresh-IsValid}
use webprobe.ScanEngine.Scope.{Url, allows, origin_of}
use webprobe.ScanEngine.Registry.{
  CheckDefinition, active_safe, list_all, Level-discrete, Activity-discrete,
}
use webprobe.ScanEngine.Registry.Sample.{
  options_check, registry, registry-AllSound, options_check-IsSound,
}
use webprobe.ScanEngine.Evidence.{CheckEvidence, observation, quotient}
use webprobe.ScanEngine.Engine.{
  World, Input, settled, CheckRun, run_checks, is_in_scope, is_authorized, may_run,
}
use webprobe.ScanEngine.Engine.Gates.{IsCleared}
use webprobe.ScanEngine.Engine.Runs.{AllFaithful, run_checks_lem}
use webprobe.ScanEngine.Engine.Levels.{cleared_levels}
use webprobe.ScanEngine.Engine.Totality.{Returns, run_checks-Returns}

abbrev limits : BudgetLimits Number
limits = record {
  per_kind = λ k. nat 5;
  max_requests_per_hostname = nat 5;
  max_duration_ms = nat 1000;
}

abbrev ledger : BudgetLedger
ledger = fresh limits (nat 100)

abbrev table : String → Option Url
table raw =
    if raw == "https://a.example"
    then some (record {
      protocol = "https:";
      username = "";
      password = "";
      hostname = "a.example";
      port = "";
      origin = "https://a.example";
    })
    else none

abbrev input : Input
input = record {
  profile = record {
    mode = verified_deep_audit;
    budget = record { per_kind = λ k. 5; max_requests_per_hostname = 5; max_duration_ms = 1000 };
    request_timeout_ms = 10;
    navigation_timeout_ms = 10;
    max_redirects = 5;
    concurrency = 1;
    allowed_checks = "deep-options" ∷ [];
    allow_active_safe = true;
  };
  origins = "https://a.example" ∷ [];
  authorization = allowed deep;
  target_url = "https://a.example";
  observed = "http" ∷ [];
  observation_failures = [];
}

abbrev item : String → CheckEvidence
item id = record {
  check_id = id;
  check_version = "1.0.0";
  classification = observation;
  confidence = quotient 9 10;
  details = object no_entry;
}

abbrev world : CheckDefinition → World
world check = record {
  started_at = 150;
  aborted_before = false;
  time_at = nat 151;
  reserve_at = nat 152;
  outcome = settled (item "deep-options" ∷ []);
  aborted_after = false;
  completed_at = 160;
  ended_at = 161;
}

abbrev result : Result (BudgetLedger × List CheckRun)
result = run_checks table input world ledger registry

run_checks-Returns_example : Returns result
run_checks-Returns_example =
    run_checks-Returns table input _ refl world ledger registry registry-AllSound (λ c. refl)

abbrev final : Returns result
final = run_checks-Returns table input _ refl world ledger registry registry-AllSound (λ c. refl)

run_checks_lem_example :
    IsValid final.0.0 × AllFaithful table input world (list_all registry) final.0.1
run_checks_lem_example =
    run_checks_lem table input world ledger final.0.0 registry final.0.1
      (fresh-IsValid limits (nat 100)) final.1

options_check-IsCleared : IsCleared table input options_check (world options_check)
unfolding is_in_scope is_authorized may_run allows origin_of contains ScanMode-discrete
    Level-discrete Activity-discrete
options_check-IsCleared = record {
  running = refl;
  in_scope = refl;
  authorized = refl;
  profile_allows = refl;
}

cleared_levels_example :
    (deep ≡ deep → (verified_deep_audit ≡ verified_deep_audit) × (allowed deep ≡ allowed deep))
    × (active_safe ≡ active_safe
        → (true ≡ true)
          × (verified_deep_audit ≢ public_audit)
          × ((l : Level) × (allowed deep ≡ allowed l) × (l ≢ public)))
cleared_levels_example =
    cleared_levels table input options_check (world options_check) options_check-IsSound
      options_check-IsCleared

abbrev foreign_world : CheckDefinition → World
foreign_world check = record (world check) { outcome = settled (item "deep-other" ∷ []) }

abbrev foreign_final : Returns (run_checks table input foreign_world ledger registry)
foreign_final =
    run_checks-Returns table input _ refl foreign_world ledger registry registry-AllSound
      (λ c. refl)
