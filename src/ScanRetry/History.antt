-- ===== src/ScanRetry/History.antt =====
-- scan-retry.ts: any calls, and then a new attempt.
use webprobe.Base.{
  ℕ, suc, ◌≡◌, refl, inl, inr, Bool, false, List, [], ◌∷◌, map, All, eqb, Bool-cases, Result-cases,
  throw, ok,
}
use mathlib.Core.Path.{subst}
use webprobe.DeepLease.Rows.{Attempt, Database, latest, change, update}
use webprobe.DeepLease.Claims.{number_of_latest}
use webprobe.DeepLease.Attempts.{Old, change-IsTame}
use webprobe.ScanRetry.Errors.{ScanErrorClassification}
use webprobe.ScanRetry.Attempts.{
  ActiveScanAttempt, is_active, started, begin_scan_attempt, completion, complete_scan_attempt,
  failure, fail_scan_attempt, get_scan_attempt_count, interrupt_latest,
}
use webprobe.ScanRetry.Superseded.{
  IsFalling, IsFalling-map, latest-IsFalling, completion-IsTame, failure-IsTame, interrupt-AreOld,
  IsBegun, begin_scan_attempt-IsBegun,
}

-- A call of one of the three functions that write, by any worker.
pub data Call : Type 0 where
  begin : ℕ → ℕ → ℕ → Call
  complete : ActiveScanAttempt → ℕ → Call
  fail : ActiveScanAttempt → ScanErrorClassification → Bool → ℕ → Call

-- What a call leaves; one that throws is rolled back.
abbrev pub after_call : Database → Call → Database
after_call db (begin scan_id now id) = elim (begin_scan_attempt db scan_id now id) [
  | throw e ↦ db
  | ok (active, after) ↦ after
]
after_call db (complete attempt now) = complete_scan_attempt db attempt now
after_call db (fail attempt c terminal now) = fail_scan_attempt db attempt c terminal now

unfoldable pub run : List Call → Database → Database
run [] db = db
run (call ∷ rest) db = run rest (after_call db call)

begun-IsFalling :
    (db after : Database) (active : ActiveScanAttempt) (now : ℕ)
    → IsFalling db.attempts
    → IsBegun db after active now
    → IsFalling after.attempts
begun-IsFalling db after active now h b =
    let olds = interrupt-AreOld db now h in rw (b.attempts, b.number) (olds.1, olds.0)

after_call-IsFalling :
    (db : Database) (call : Call) → IsFalling db.attempts → IsFalling (after_call db call).attempts
unfolding complete_scan_attempt fail_scan_attempt
after_call-IsFalling db (begin scan_id now id) h =
    elim (Result-cases (begin_scan_attempt db scan_id now id)) [
      | inl (e, threw) ↦ rw (IsFalling, threw) h
      | inr ((active, after), begun) ↦
          rw (IsFalling, begun)
            (begun-IsFalling db after active now h
              (begin_scan_attempt-IsBegun db after active scan_id now id begun))
    ]
after_call-IsFalling db (complete attempt now) h =
    IsFalling-map (change (is_active attempt.id) (completion now))
      (change-IsTame (is_active attempt.id) (completion now) (completion-IsTame now)) db.attempts h
after_call-IsFalling db (fail attempt c terminal now) h =
    IsFalling-map (change (is_active attempt.id) (failure c terminal now))
      (change-IsTame (is_active attempt.id) (failure c terminal now)
        (failure-IsTame c terminal now))
      db.attempts h

run-IsFalling :
    (calls : List Call) (db : Database) → IsFalling db.attempts → IsFalling (run calls db).attempts
unfolding run
run-IsFalling [] db h = h
run-IsFalling (call ∷ rest) db h =
    run-IsFalling rest (after_call db call) (after_call-IsFalling db call h)

Old-unchanged :
    (i n : ℕ) (set : Attempt → Attempt) (rest : List Attempt)
    → All (Old n) rest
    → map (change (is_active i) set) rest ≡ rest
Old-unchanged i n set [] h = refl
Old-unchanged i n set (a ∷ rest) ((less, idle), h) = elim (Bool-cases (eqb a.id i)) [
  | inl own ↦ rw (own, idle, Old-unchanged i n set rest h) refl
  | inr other ↦ rw (other, Old-unchanged i n set rest h) refl
]

-- An update of another attempt's row finds nothing to change.
other_unchanged :
    (db after : Database) (active : ActiveScanAttempt) (now i : ℕ) (set : Attempt → Attempt)
    → IsFalling db.attempts
    → IsBegun db after active now
    → eqb active.id i ≡ false
    → update (is_active i) set after ≡ after
other_unchanged db after active now i set h b other =
    let olds = (interrupt-AreOld db now h).1 in
    let rest = (interrupt_latest (latest db.attempts) now db).attempts in
    let same : map (change (is_active i) set) after.attempts ≡ after.attempts = rw b.attempts (
      rw (other, Old-unchanged i (suc (number_of_latest (latest db.attempts))) set rest olds)
        refl) in
    rw same refl

-- From a scan without attempts, after any calls: when a new attempt begins, the completion and the
-- failure of any other attempt change nothing, and the count is the new attempt's number.
pub superseded_lem :
    (db after : Database) (calls : List Call) (active other : ActiveScanAttempt)
    (scan_id now id later : ℕ) (c : ScanErrorClassification) (terminal : Bool)
    → db.attempts ≡ []
    → begin_scan_attempt (run calls db) scan_id now id ≡ ok (active, after)
    → eqb active.id other.id ≡ false
    → (complete_scan_attempt after other later ≡ after)
      × (fail_scan_attempt after other c terminal later ≡ after)
      × (get_scan_attempt_count after ≡ active.attempt_number)
unfolding complete_scan_attempt fail_scan_attempt get_scan_attempt_count
superseded_lem db after calls active other scan_id now id later c terminal empty begun differ =
    let start = run calls db in
    let falling : IsFalling start.attempts = run-IsFalling calls db (rw empty tt) in
    let b = begin_scan_attempt-IsBegun start after active scan_id now id begun in
    let rest = (interrupt_latest (latest start.attempts) now start).attempts in
    let after_falls : IsFalling (started active.id active.attempt_number now ∷ rest) =
      subst IsFalling b.attempts (begun-IsFalling start after active now falling b) in
    (
      other_unchanged start after active now other.id (completion later) falling b differ,
      other_unchanged start after active now other.id (failure c terminal later) falling b differ,
      rw
          (
            b.attempts,
            latest-IsFalling (started active.id active.attempt_number now) rest after_falls,
          )
          refl,
    )
