-- ===== src/DeepLease/Tests.antt =====
-- A deep scan whose first worker dies and whose second takes over, and the witnesses at it.
use webprobe.Base.{◌≤◌, ◌≡◌, refl, true, false, none, some, [], ◌∷◌, length, ok, throw, arith}
use webprobe.Base.Text.{codes, text_key}
use webprobe.Security.Ownership.Tests.{proof, parse_home, names_only}
use webprobe.ScanEngine.Types.{verified_deep_audit, ScanMode-discrete}
use webprobe.DeepLease.Rows.{
  Attempt, running, retrying, scan_running, Database, DeepLease, attempts_of, latest,
  max_deep_attempts,
}
use webprobe.DeepLease.Claims.{
  Claimant, read_claim, write_claim, claim_deep_lease, take_over, insert, release_deep_lease,
}
use webprobe.DeepLease.Checks.{assert_deep_lease, renew_row}
use webprobe.DeepLease.Endings.{Persist, write_persist}
use webprobe.DeepLease.Steps.{system, Reach, start, next, begin, commit, stay, then_step, release}
use webprobe.DeepLease.Sound.{IsSound}
use webprobe.DeepLease.Safety.{Reach-IsSound, at_most_five}
use webprobe.DeepLease.Exclusion.{one_holder, replaced_lem}
use webprobe.DeepLease.Reclaim.{IsClaimable, claim_again}

abbrev empty : Database
empty = record {
  scan = record {
    id = 1;
    organization_id = 2;
    site_id = 3;
    status = scan_running;
    mode = verified_deep_audit;
    completed_at = none;
    deep_error = none;
  };
  attempts = [];
  has_check_runs = false;
  site = proof;
  authorization = none;
}

abbrev worker : Claimant
worker = record { scan_id = 1; organization_id = 2; site_id = 3 }

abbrev first_attempt : Attempt
first_attempt = record {
  id = 10;
  attempt_number = 1;
  status = running;
  retryable = false;
  error_code = none;
  started_at = 5;
  completed_at = none;
  lease_until = some 30_005;
  lease_token = some 100;
}

abbrev after_first : Database
after_first = attempts_of empty (first_attempt ∷ [])

abbrev after_second : Database
after_second = attempts_of empty (
    record {
      id = 11;
      attempt_number = 2;
      status = running;
      retryable = false;
      error_code = none;
      started_at = 40_000;
      completed_at = none;
      lease_until = some 70_000;
      lease_token = some 111;
    }
    ∷ record first_attempt {
      status = retrying;
      retryable = true;
      error_code = some "deep-lease-expired";
      completed_at = some 40_000;
      lease_until = none;
    }
    ∷ [])

abbrev first_lease : DeepLease
first_lease = record {
  scan_id = 1;
  attempt_id = 10;
  attempt_number = 1;
  token = 100;
  organization_id = 2;
  site_id = 3;
}

abbrev second_lease : DeepLease
second_lease = record {
  scan_id = 1;
  attempt_id = 11;
  attempt_number = 2;
  token = 111;
  organization_id = 2;
  site_id = 3;
}

first_reached : Reach parse_home names_only (system after_first none)
unfolding read_claim write_claim take_over insert latest ScanMode-discrete
first_reached =
    next
      (next (start {db = empty} refl)
        (begin {input = worker} {r = record { now = 5; latest_attempt = none }} 5 refl))
      (commit 6 10 100 first_lease refl)

second_reached : Reach parse_home names_only (system after_second none)
unfolding read_claim write_claim take_over insert latest ScanMode-discrete
second_reached =
    next
      (next first_reached (
        begin {input = worker} {r = record { now = 40_000; latest_attempt = some first_attempt }}
          40_000 refl))
      (commit 40_001 11 111 second_lease refl)

second_holds : assert_deep_lease parse_home names_only after_second second_lease none 50_000 ≡ ok tt
unfolding assert_deep_lease ScanMode-discrete
second_holds = refl

busy :
    claim_deep_lease after_first worker 20_000 20_001 12 112
    ≡ throw "Deep execution lease is active or ambiguous"
unfolding claim_deep_lease read_claim latest ScanMode-discrete
busy = refl

Reach-IsSound_example : IsSound (system after_second none)
Reach-IsSound_example = Reach-IsSound parse_home names_only second_reached

at_most_five_example : length after_second.attempts ≤ max_deep_attempts
at_most_five_example = at_most_five parse_home names_only (system after_second none) second_reached

one_holder_example :
    (second_lease.attempt_id ≡ second_lease.attempt_id) × (second_lease.token ≡ second_lease.token)
one_holder_example =
    one_holder parse_home names_only (system after_second none) second_lease second_lease none none
      50_000 50_000 second_reached second_holds second_holds

abbrev late_results : Persist
late_results = record {
  scan_id = 1;
  organization_id = 2;
  site_id = 3;
  target_url = codes "https://a.org/";
  lease = first_lease;
  grant_identity = none;
  is_aborted = λ k. false;
}

replaced_lem_example :
    (assert_deep_lease parse_home names_only after_second first_lease none 50_002
      ≡ throw "Deep execution lease unavailable")
    × (renew_row after_second first_lease 50_002 ≡ throw "Deep execution lease unavailable")
    × (write_persist after_second late_results 50_001 50_002 ≡ throw "Deep execution lease lost")
    × (release_deep_lease after_second first_lease 50_002 ≡ after_second)
unfolding release_deep_lease
replaced_lem_example =
    replaced_lem parse_home names_only (system after_second none) (system after_second none)
      second_lease late_results none none 50_000 50_001 50_002 second_reached second_holds refl refl
      (then_step stay (release first_lease 50_001))

first-IsClaimable : IsClaimable after_first worker 40_000
unfolding latest ScanMode-discrete
first-IsClaimable = record {
  found = refl;
  runs = refl;
  fresh = refl;
  free = refl;
  open_ = refl;
  few = refl;
}

claim_again_example :
    (lease : DeepLease) × (after : Database) × (claim_deep_lease after_first worker 40_000 40_001 11
        111
      ≡ ok (lease, after))
    × (lease.attempt_id ≡ 11)
    × (assert_deep_lease parse_home names_only after lease none 69_999 ≡ ok tt)
claim_again_example =
    claim_again parse_home names_only (system after_first none) worker 40_000 40_001 11 111 69_999
      first_reached first-IsClaimable refl (omega arith) (omega arith) refl refl
