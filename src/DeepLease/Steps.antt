-- ===== src/DeepLease/Steps.antt =====
-- The workers of one deep scan as steps on the database: any number of them, in any order, with
-- any clock readings. A claim holds the lock on the scan's row from its first part to its
-- second, so at most one claim has read and not yet written. What takes the same lock (the end
-- of a scan, the record of a failure, the scheduler) is allowed between them too, which only adds behaviours.
use webprobe.Base.{ℕ, ◌≡◌, String, Bool, Option, none, some, [], ok}
use webprobe.Base.Text.{Text}
use webprobe.Security.Urls.{Url, IpLibrary}
use webprobe.DeepLease.Rows.{Database, DeepLease, DeepGrantIdentity, attempts_of}
use webprobe.DeepLease.Claims.{Claimant, Reading, read_claim, write_claim, release_deep_lease}
use webprobe.DeepLease.Checks.{renew_deep_lease}
use webprobe.DeepLease.Outside.{
  fence_running_deep_attempts, ScheduledJobState, reconcile_stale_deep_scan,
}
use webprobe.DeepLease.Endings.{Persist, persist_deep_check_runs, record_deep_failure}

pub record System : Type 0 where
  pub database : Database
  pub claim : Option (Claimant × Reading)

abbrev pub system : Database → Option (Claimant × Reading) → System
system db claim = record { database = db; claim = claim }

module _ (parse_url : Text → Option Url) (ip : IpLibrary) where
  pub data Step : System → System → Type 0 where
    begin :
        {db : Database} {input : Claimant} {r : Reading} (now : ℕ)
        → read_claim db input now ≡ ok r
        → Step (system db none) (system db (some (input, r)))
    commit :
        {db after : Database} {input : Claimant} {r : Reading} (later id token : ℕ)
        (lease : DeepLease)
        → write_claim db input r later id token ≡ ok (lease, after)
        → Step (system db (some (input, r))) (system after none)
    -- A claim that throws, or whose worker dies.
    roll_back :
        {db : Database} {claim : Option (Claimant × Reading)}
        → Step (system db claim) (system db none)
    renew :
        {db after : Database} {claim : Option (Claimant × Reading)} (seen : Database)
        (lease : DeepLease) (grant : Option DeepGrantIdentity) (now later : ℕ)
        → renew_deep_lease parse_url ip seen db lease grant now later ≡ ok after
        → Step (system db claim) (system after claim)
    release :
        {db : Database} {claim : Option (Claimant × Reading)} (lease : DeepLease) (now : ℕ)
        → Step (system db claim) (system (release_deep_lease db lease now) claim)
    persist :
        {db after : Database} {claim : Option (Claimant × Reading)} (seen : Database)
        (input : Persist) (clock : ℕ → ℕ) (ended later : ℕ)
        → persist_deep_check_runs parse_url ip seen db input clock ended later ≡ ok after
        → Step (system db claim) (system after claim)
    fail :
        {db : Database} {claim : Option (Claimant × Reading)} (lease : DeepLease) (code : String)
        (terminal : Bool) (now : ℕ)
        → Step (system db claim) (system (record_deep_failure db lease code terminal now) claim)
    -- A grant of the site is issued or revoked.
    fence :
        {db : Database} {claim : Option (Claimant × Reading)} (site_id now : ℕ)
        → Step (system db claim) (system (fence_running_deep_attempts db site_id now) claim)
    -- The scheduler finds the scan stale, or not.
    reconcile :
        {db : Database} {claim : Option (Claimant × Reading)} (scan_id : ℕ)
        (inspection : ScheduledJobState) (now closed ended : ℕ)
        → Step
            (system db claim)
            (system (reconcile_stale_deep_scan db scan_id inspection now closed ended).1 claim)
    -- What else changes the scan, its site and its authorization: no other code changes the attempts
    -- of a deep scan.
    elsewhere :
        {db : Database} {claim : Option (Claimant × Reading)} (other : Database)
        → Step (system db claim) (system (attempts_of other db.attempts) claim)

  -- A scan starts with no attempt; then any steps.
  pub data Reach : System → Type 0 where
    start : {db : Database} → db.attempts ≡ [] → Reach (system db none)
    next : {s t : System} → Reach s → Step s t → Reach t

  -- Any steps from a state.
  pub data Steps (s : System) : System → Type 0 where
    stay : Steps s s
    then_step : {t u : System} → Steps s t → Step t u → Steps s u
