-- ===== src/DeepLease/Rows.antt =====
-- The rows that the lease of one deep scan reads and writes: packages/db/src/schema.ts, the
-- tables scans and scan_attempts, and the types of deep-lease.ts. A UUID is the number that it
-- is; a time is a number of milliseconds, since `clock_timestamp()` is never invalid.
use webprobe.Base.{
  ℕ, String, Bool, true, false, ◌&&◌, Option, none, some, List, [], ◌∷◌, map, if◌then◌else◌, ◌==◌,
  eqb, ltb,
}
use webprobe.Base.Text.{Text}
use webprobe.Base.Value.{Date}
use webprobe.ScanEngine.Types.{ScanMode, verified_deep_audit, mode_key}
use webprobe.Security.Ownership.{SiteOwnershipProof}

pub data ScanStatus : Type 0 where
  scan_queued scan_running scan_completed scan_failed scan_cancelled : ScanStatus

-- `scanAttemptStatus`
pub data AttemptStatus : Type 0 where
  running retrying completed failed : AttemptStatus

abbrev pub is_running : AttemptStatus → Bool
is_running running = true
is_running _ = false

abbrev pub is_completed : AttemptStatus → Bool
is_completed completed = true
is_completed _ = false

abbrev pub is_retrying : AttemptStatus → Bool
is_retrying retrying = true
is_retrying _ = false

abbrev pub is_scan_running : ScanStatus → Bool
is_scan_running scan_running = true
is_scan_running _ = false

-- A row of `scan_attempts`, of the one scan that the database holds here.
pub record Attempt : Type 0 where
  pub id : ℕ
  pub attempt_number : ℕ
  pub status : AttemptStatus
  pub retryable : Bool
  pub error_code : Option String
  pub started_at : ℕ
  pub completed_at : Option ℕ
  pub lease_until : Option ℕ
  pub lease_token : Option ℕ

-- Of the row of `scans` what the lease uses; `deep_error` is `summary.deepError.code`.
pub record ScanRow : Type 0 where
  pub id : ℕ
  pub organization_id : ℕ
  pub site_id : ℕ
  pub status : ScanStatus
  pub mode : ScanMode
  pub completed_at : Option ℕ
  pub deep_error : Option String

-- The row of `deep_audit_authorizations`.
pub record Authorization : Type 0 where
  pub proof_type : Text
  pub proof_record_name : Option Text
  pub proof_token_hash : Option Text
  pub generation_id : Option Text
  pub proof_verified_at : Date
  pub expires_at : Date
  pub is_revoked : Bool

-- One scan, its attempts in the order of their insertion, the newest first, its site, and
-- whether check runs of it are stored.
pub record Database : Type 0 where
  pub scan : ScanRow
  pub attempts : List Attempt
  pub has_check_runs : Bool
  pub site : SiteOwnershipProof
  pub authorization : Option Authorization

pub record DeepLease : Type 0 where
  pub scan_id : ℕ
  pub attempt_id : ℕ
  pub attempt_number : ℕ
  pub token : ℕ
  pub organization_id : ℕ
  pub site_id : ℕ

pub record DeepGrantIdentity : Type 0 where
  pub generation_id : Option Text
  pub token_hash : Option Text
  pub verified_at : Option Date
  pub canonical_url : Text
  pub site_verified_at : Date
  pub ownership_generation : Text
  pub ownership_token_hash : Text
  pub ownership_verified_at : Date
  pub ownership_revalidated_at : Date

abbrev pub lease_ms : ℕ
lease_ms = 30_000

abbrev pub max_deep_attempts : ℕ
max_deep_attempts = 5

-- `where id = … and organization_id = … and site_id = …`
abbrev pub is_scan_of : ScanRow → ℕ → ℕ → ℕ → Bool
is_scan_of s scan_id organization_id site_id =
    eqb s.id scan_id && eqb s.organization_id organization_id && eqb s.site_id site_id

-- `scan.status === "running" && scan.mode === "verified_deep_audit"`
abbrev pub is_deep_running : ScanRow → Bool
is_deep_running s = is_scan_running s.status && s.mode == verified_deep_audit

-- A comparison of SQL with a value that may be null: null is not true.
abbrev pub over : Option ℕ → ℕ → Bool
over none now = false
over (some t) now = ltb now t

abbrev pub equals : Option ℕ → ℕ → Bool
equals none n = false
equals (some m) n = eqb m n

-- `update … set … where test`, on one row.
abbrev pub change : (Attempt → Bool) → (Attempt → Attempt) → Attempt → Attempt
change test set a = if test a then set a else a

-- `where id = lease.attemptId and lease_token = lease.token`
abbrev pub is_of_lease : DeepLease → Attempt → Bool
is_of_lease lease a = eqb a.id lease.attempt_id && equals a.lease_token lease.token

-- `order by attempt_number desc limit 1`
unfoldable pub latest : List Attempt → Option Attempt
latest [] = none
latest (a ∷ rest) = later a (latest rest)
  where
    later : Attempt → Option Attempt → Option Attempt
    later a none = some a
    later a (some b) = if ltb a.attempt_number b.attempt_number then some b else some a

abbrev pub attempts_of : Database → List Attempt → Database
attempts_of db rest = record db { attempts = rest }

-- One update statement on the attempts.
abbrev pub update : (Attempt → Bool) → (Attempt → Attempt) → Database → Database
update test set db = attempts_of db (map (change test set) db.attempts)
