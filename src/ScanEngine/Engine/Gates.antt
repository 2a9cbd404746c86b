-- ===== src/ScanEngine/Engine/Gates.antt =====
-- engine.ts: what a check has passed when its analysis runs, and what the gates do to the ledger.
use webprobe.Base.{
  ◌+◌, ◌≡◌, refl, ◌⊎◌, inl, inr, String, true, false, Option, none, some, arith, string_key,
  Bool-cases, Option-cases, Result-cases, ◌∙◌, ok, all, add,
}
use webprobe.Base.Text.{Text, codes}
use webprobe.Base.Value.{is_given}
use webprobe.ScanEngine.Types.{
  BudgetKind, CoverageReason, budget_time, http_requests, budget_kinds, reason_key,
}
use webprobe.ScanEngine.Budget.{
  BudgetLedger, BudgetReservation, allowed, denied, reserve_many, cost_of, is_cost_valid, charge,
}
use webprobe.ScanEngine.Budget.Charge.{reserve_many_lem, charge_use, charged_host}
use webprobe.ScanEngine.Budget.Invariant.{
  IsValid, check_time-IsValid, check_time_use, reserve_many-IsValid, reserve_many_throws,
}
use webprobe.ScanEngine.Scope.{Url}
use webprobe.ScanEngine.Registry.{CheckDefinition}
use webprobe.ScanEngine.Engine.{
  World, Input, reason_text, denial, is_in_scope, is_authorized, may_run, early_reason,
  observation_reason, time_reason, reserve_reason, gate,
}

reason_text_given : (r : CoverageReason) → is_given (some (reason_text r)) ≡ true
reason_text_given budget_time = refl
reason_text_given _ = refl

-- Both ledgers have used the same.
abbrev pub SameUse : BudgetLedger → BudgetLedger → Type 0
SameUse l m = (k : BudgetKind) → m.used k ≡ l.used k

-- What the last gate did: it charged the whole cost, or nothing and then there is a reason.
abbrev pub Charged : BudgetLedger → CheckDefinition → BudgetLedger → Option String → Type 0
Charged l check m reason =
    ((is_given reason ≡ true) × SameUse l m)
    ⊎ ((is_given reason ≡ false)
        × ((k : BudgetKind) → m.used k ≡ l.used k + cost_of check.budget k))

reservation_lem :
    (l : BudgetLedger) (check : CheckDefinition) (world : World) (before : Option String)
    (host : Option Text) (m : BudgetLedger) (reservation : BudgetReservation)
    → is_given before ≡ false
    → IsValid l
    → reserve_many l world.reserve_at check.budget host ≡ ok (m, reservation)
    → IsValid m × Charged l check m (denial reservation before)
reservation_lem l check world before host m reservation free v e =
    elim (Bool-cases (all (λ k. is_cost_valid (check.budget k)) budget_kinds)) [
      | inr bad ↦ cc (reserve_many_throws l world.reserve_at check.budget host bad)
      | inl good ↦ (
        rw e at (reserve_many-IsValid l world.reserve_at check.budget host v),
        elim (reserve_many_lem l world.reserve_at check.budget host good) [
          | inl (may, granted) ↦ grant_charged (cc) (cc)
          | inr (may_not, (r, refused)) ↦ refusal_charged r (cc) (cc)
        ],
      )
    ]
  where
    grant_charged :
        charge l (cost_of check.budget) (charged_host (cost_of check.budget http_requests) host) ≡ m
        → allowed ≡ reservation
        → Charged l check m (denial reservation before)
    grant_charged same granted = rw (← granted) (inr (free, λ k. rw (← same) (charge_use l _ _ k)))

    refusal_charged :
        (r : CoverageReason)
        → record l { reasons = add r l.reasons } ≡ m
        → denied r ≡ reservation
        → Charged l check m (denial reservation before)
    refusal_charged r same refused = rw (← refused) (inl (reason_text_given r, λ k. rw (← same)))

module _ (parse_url : String → Option Url) (input : Input) where
  -- The tests before the ledger is asked.
  pub record IsCleared (check : CheckDefinition) (world : World) : Type 0 where
    pub running : world.aborted_before ≡ false
    pub in_scope : is_in_scope parse_url input ≡ true
    pub authorized : is_authorized input.authorization input.profile.mode ≡ true
    pub profile_allows : may_run check input.profile ≡ none

  may_run_given :
      (check : CheckDefinition)
      → is_given (may_run check input.profile) ≡ false
      → may_run check input.profile ≡ none
  unfolding may_run
  may_run_given check h = ground arith

  early-IsCleared :
      (check : CheckDefinition) (world : World)
      → is_given (early_reason parse_url input check world) ≡ false
      → IsCleared check world
  unfolding early_reason
  early-IsCleared check world h = record {
    running = ground arith;
    in_scope = ground arith;
    authorized = ground arith;
    profile_allows = ground (arith, may_run_given check);
  }

  observation_early :
      (check : CheckDefinition) (early : Option String)
      → is_given (observation_reason parse_url input check early) ≡ false
      → is_given early ≡ false
  unfolding observation_reason
  observation_early check early h = ground arith

  time_use :
      (l : BudgetLedger) (world : World) (before : Option String)
      → SameUse l (time_reason parse_url input l world before).0
  unfolding time_reason
  time_use l world before k = elim (Bool-cases (is_given before)) [
    | inl given ↦ rw given
    | inr free ↦ rw free (check_time_use l world.time_at k)
  ]

  time_reason_given :
      (l : BudgetLedger) (world : World) (before : Option String)
      → is_given (time_reason parse_url input l world before).1 ≡ false
      → is_given before ≡ false
  unfolding time_reason
  time_reason_given l world before h = ground arith

  time_reason-IsValid :
      (l : BudgetLedger) (world : World) (before : Option String)
      → IsValid l
      → IsValid (time_reason parse_url input l world before).0
  unfolding time_reason
  time_reason-IsValid l world before v = elim (Bool-cases (is_given before)) [
    | inl given ↦ rw given v
    | inr free ↦ rw free (check_time-IsValid l world.time_at v)
  ]

  reserve_reason_lem :
      (l : BudgetLedger) (check : CheckDefinition) (world : World) (before reason : Option String)
      (m : BudgetLedger)
      → IsValid l
      → reserve_reason parse_url input l check world before ≡ ok (m, reason)
      → IsValid m × Charged l check m reason × (is_given reason ≡ false → is_given before ≡ false)
  unfolding reserve_reason
  reserve_reason_lem l check world before reason m v e = elim (Bool-cases (is_given before)) [
    | inl given ↦
        let same : l ≡ m = cc (rw given at e) in
        let kept : before ≡ reason = cc (rw given at e) in
        rw (← same, ← kept) (v, inl (given, λ k. refl), λ h. h)
    | inr free ↦ elim (Option-cases (parse_url input.target_url)) [
      | inl bad ↦ cc (rw (free, bad) at e)
      | inr (url, parsed) ↦
          elim (Result-cases
            (reserve_many l world.reserve_at check.budget (some (codes url.hostname)))) [
              | inl (message, thrown) ↦ cc (rw (free, parsed, thrown) at e)
              | inr ((n, reservation), made) ↦
                  let same : n ≡ m = cc (rw (free, parsed, made) at e) in
                  let kept : denial reservation before ≡ reason =
                    cc (rw (free, parsed, made) at e) in
                  let (valid, charged) =
                    reservation_lem l check world before (some (codes url.hostname)) n reservation
                      free v made in
                  rw (← same, ← kept) (valid, charged, λ h. free)
            ]
    ]
  ]

  -- After the gates the ledger is valid. Either there is a reason and nothing was spent, or every
  -- test was passed and exactly the price of the check was spent.
  pub gate_lem :
      (l : BudgetLedger) (check : CheckDefinition) (world : World) (m : BudgetLedger)
      (reason : Option String)
      → IsValid l
      → gate parse_url input l check world ≡ ok (m, reason)
      → IsValid m × Charged l check m reason × (is_given reason ≡ false → IsCleared check world)
  unfolding gate
  gate_lem l check world m reason v e =
      let early = early_reason parse_url input check world in
      let before = observation_reason parse_url input check early in
      let (valid, charged, passed) =
        reserve_reason_lem (time_reason parse_url input l world before).0 check world
          (time_reason parse_url input l world before).1 reason m
          (time_reason-IsValid l world before v) e in
      (
        valid,
        elim charged [
          | inl (given, same) ↦ inl (given, λ k. same k ∙ time_use l world before k)
          | inr (free, paid) ↦ inr (free, λ k. omega (arith, paid k, time_use l world before k))
        ],
        λ free.
            early-IsCleared check world
              (observation_early check early (time_reason_given l world before (passed free))),
      )
