-- ===== src/ScanRetry/Superseded.antt =====
-- scan-retry.ts: a new attempt ends the one before, whatever happened.
use webprobe.Base.{
  ℕ, suc, ◌≡◌, refl, sym, inl, inr, Bool, true, false, Option, some, List, [], ◌∷◌, map, All, eqb,
  ltb, arith, Bool-cases, ◌==◌, Result-cases, ok,
}
use mathlib.Core.Path.{ap, subst}
use webprobe.ScanEngine.Types.{verified_deep_audit, mode_key}
use webprobe.DeepLease.Rows.{Attempt, Database, is_running, latest, change, attempts_of}
use webprobe.DeepLease.Claims.{insert, number_of_latest}
use webprobe.DeepLease.Attempts.{Old, IsTame, change-IsTame, All-Old-map}
use webprobe.DeepLease.Writes.{ok_injective}
use webprobe.DeepLease.Safety.{insert-ok}
use webprobe.ScanRetry.Errors.{ScanErrorClassification}
use webprobe.ScanRetry.Attempts.{
  ActiveScanAttempt, is_active, interrupted, interrupt_latest, started, begin_scan_attempt,
  completion, failure,
}

-- The numbers fall, and only the newest attempt may run.
abbrev pub IsFalling : List Attempt → Type 0
IsFalling [] = Unit
IsFalling (a ∷ rest) = All (Old a.attempt_number) rest × IsFalling rest

module _ (f : Attempt → Attempt) (tame : IsTame f) where
  pub IsFalling-map : (rest : List Attempt) → IsFalling rest → IsFalling (map f rest)
  IsFalling-map [] h = tt
  IsFalling-map (a ∷ rest) (old, h) =
      rw (tame.same_number a) (All-Old-map f tame a.attempt_number rest old, IsFalling-map rest h)

pub latest-IsFalling :
    (a : Attempt) (rest : List Attempt) → IsFalling (a ∷ rest) → latest (a ∷ rest) ≡ some a
unfolding latest
latest-IsFalling a [] h = refl
latest-IsFalling a (b ∷ rest) (((less, idle), old), h) =
    let below : ltb a.attempt_number b.attempt_number ≡ false = ground arith in
    rw (latest-IsFalling b rest h, below) refl

interrupted-IsTame : (now : ℕ) → IsTame (interrupted now)
interrupted-IsTame now = record {
  same_id = λ a. refl;
  same_number = λ a. refl;
  starts_none = λ a h. refl;
}

pub completion-IsTame : (now : ℕ) → IsTame (completion now)
completion-IsTame now = record {
  same_id = λ a. refl;
  same_number = λ a. refl;
  starts_none = λ a h. refl;
}

pub failure-IsTame :
    (c : ScanErrorClassification) (terminal : Bool) (now : ℕ) → IsTame (failure c terminal now)
failure-IsTame c true now = record {
  same_id = λ a. refl;
  same_number = λ a. refl;
  starts_none = λ a h. refl;
}
failure-IsTame c false now = record {
  same_id = λ a. refl;
  same_number = λ a. refl;
  starts_none = λ a h. refl;
}

All-Old-suc : (n : ℕ) (rest : List Attempt) → All (Old n) rest → All (Old (suc n)) rest
All-Old-suc n [] h = tt
All-Old-suc n (a ∷ rest) ((less, idle), h) = ((omega arith, idle), All-Old-suc n rest h)

-- After the interruption, all attempts are old for the next number.
abbrev pub AreOld : Option Attempt → Database → Type 0
AreOld l db = IsFalling db.attempts × All (Old (suc (number_of_latest l))) db.attempts

interrupt-newest :
    (db : Database) (now : ℕ) (a : Attempt) (rest : List Attempt)
    → IsFalling (a ∷ rest)
    → AreOld (some a) (interrupt_latest (some a) now (attempts_of db (a ∷ rest)))
unfolding interrupt_latest
interrupt-newest db now a rest (old, h) = elim (Bool-cases (is_running a.status)) [
  | inl runs ↦
      let f = change (is_active a.id) (interrupted now) in
      let tame : IsTame f =
        change-IsTame (is_active a.id) (interrupted now) (interrupted-IsTame now) in
      let own : (eqb a.id a.id) ≡ true = ground arith in
      let olds : All (Old a.attempt_number) (map f rest) =
        All-Old-map f tame a.attempt_number rest old in
      rw (own, runs)
        (
          (olds, IsFalling-map f tame rest h),
          ((omega arith, refl), All-Old-suc a.attempt_number (map f rest) olds),
        )
  | inr idle ↦ rw idle ((old, h), ((omega arith, idle), All-Old-suc a.attempt_number rest old))
]

pub interrupt-AreOld :
    (db : Database) (now : ℕ)
    → IsFalling db.attempts
    → AreOld (latest db.attempts) (interrupt_latest (latest db.attempts) now db)
unfolding interrupt_latest latest
interrupt-AreOld db now h = go db.attempts h
  where
    go :
        (rest : List Attempt)
        → IsFalling rest
        → AreOld (latest rest) (interrupt_latest (latest rest) now (attempts_of db rest))
    go [] h = (tt, tt)
    go (a ∷ rest) h =
        subst (λ l. AreOld l (interrupt_latest l now (attempts_of db (a ∷ rest))))
          (sym (latest-IsFalling a rest h)) (interrupt-newest db now a rest h)

-- What a begun attempt has done.
pub record IsBegun (db after : Database) (active : ActiveScanAttempt) (now : ℕ) : Type 0 where
  pub number : active.attempt_number ≡ suc (number_of_latest (latest db.attempts))
  pub attempts :
      after.attempts
      ≡ started active.id active.attempt_number now
        ∷ (interrupt_latest (latest db.attempts) now db).attempts

pub begin_scan_attempt-IsBegun :
    (db after : Database) (active : ActiveScanAttempt) (scan_id now id : ℕ)
    → begin_scan_attempt db scan_id now id ≡ ok (active, after)
    → IsBegun db after active now
unfolding begin_scan_attempt
begin_scan_attempt-IsBegun db after active scan_id now id h =
    let n = suc (number_of_latest (latest db.attempts)) in
    let mid = interrupt_latest (latest db.attempts) now db in
    let row = started id n now in
    elim (Result-cases (insert row mid)) [
      | inl (e, threw) ↦ elim (Bool-cases (eqb db.scan.id scan_id)) [
        | inl found ↦ elim (Bool-cases (db.scan.mode == verified_deep_audit)) [
          | inl deep ↦ ground (arith, rw (found, deep) at h)
          | inr other ↦ ground (arith, rw (found, other, threw) at h)
        ]
        | inr missing ↦ ground (arith, rw missing at h)
      ]
      | inr (done, put_in) ↦ elim (Bool-cases (eqb db.scan.id scan_id)) [
        | inl found ↦ elim (Bool-cases (db.scan.mode == verified_deep_audit)) [
          | inl deep ↦ ground (arith, rw (found, deep) at h)
          | inr other ↦
              let mine : ActiveScanAttempt = record {
                id = id;
                scan_id = scan_id;
                attempt_number = n;
              } in
              let same : (mine, done) ≡ (active, after) =
                ok_injective (mine, done) (active, after) (cc (rw (found, other, put_in) at h)) in
              let same_active : mine ≡ active =
                ap (λ (p : ActiveScanAttempt × Database). p.0) same in
              let same_after : done ≡ after = ap (λ (p : ActiveScanAttempt × Database). p.1) same in
              rw (← same_active, ← same_after)
                (record { number = refl; attempts = (insert-ok row mid done put_in).1 })
        ]
        | inr missing ↦ ground (arith, rw missing at h)
      ]
    ]
