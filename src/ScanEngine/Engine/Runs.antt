-- ===== src/ScanEngine/Engine/Runs.antt =====
-- engine.ts: the runs that `runChecks` reports, one for each check.
use text.Mathlib.TextEquality.{eq_iff}
use webprobe.Base.{
  ◌≡◌, refl, ◌⊎◌, inl, inr, String, true, false, Option, some, List, [], ◌∷◌, arith, if◌then◌else◌,
  ◌==◌, string_key, any, All, Bool-cases, Result, Result-cases, ok, throw,
}
use webprobe.Base.Value.{is_given}
use webprobe.ScanEngine.Types.{BudgetKind, scope_denied, authorization_unavailable}
use webprobe.ScanEngine.Budget.{BudgetLedger, cost_of, mark_partial}
use webprobe.ScanEngine.Budget.Invariant.{IsValid, mark_partial-IsValid}
use webprobe.ScanEngine.Scope.{Url}
use webprobe.ScanEngine.Registry.{CheckDefinition, Checks, list_all}
use webprobe.ScanEngine.Evidence.{CheckEvidence}
use webprobe.ScanEngine.Engine.{
  World, Input, Outcome, settled, rejected, completed, skipped, failed, CheckRun, Finish, catch,
  catch_reason, finish_settled, analyze, finish, create_all, is_foreign, make_run, gate, run_check,
  run_all, mark, run_checks, is_in_scope, is_authorized,
}
use webprobe.ScanEngine.Engine.Gates.{IsCleared, Charged, gate_lem}

-- Evidence that names the check and its version.
abbrev pub IsOwn : CheckDefinition → CheckEvidence → Type 0
IsOwn check item = (item.check_id ≡ check.id) × (item.check_version ≡ check.version)

All-IsOwn :
    (check : CheckDefinition) (es : List CheckEvidence)
    → any (is_foreign check) es ≡ false
    → All (IsOwn check) es
All-IsOwn check [] h = tt
All-IsOwn check (e ∷ es) h = (
  (
    ground (arith, eq_iff e.check_id check.id),
    ground (arith, eq_iff e.check_version check.version),
  ),
  All-IsOwn check es (ground arith),
)

catch_reason_given : (message : String) → is_given (some (catch_reason message)) ≡ true
unfolding catch_reason
catch_reason_given message = elim (Bool-cases (message == "check-timeout")) [
  | inl late ↦ rw late
  | inr other ↦ rw other
]

catch_failed :
    (world : World) (evidence : List CheckEvidence) (message : String) (f : Finish)
    → catch world evidence message ≡ ok f
    → (f.status ≡ failed) × (is_given f.skip_reason ≡ true)
unfolding catch
catch_failed world evidence message f e = elim (Bool-cases world.aborted_after) [
  | inl aborted ↦ cc (rw aborted at e)
  | inr kept ↦
      let same : record {
        status = failed;
        skip_reason = some (catch_reason message);
        evidence = evidence;
      }
          ≡ f =
        cc (rw kept at e) in
      rw (← same) (refl, catch_reason_given message)
]

-- A run that was not skipped has failed for a reason, or its evidence is its own.
abbrev Settled : CheckDefinition → Finish → Type 0
Settled check f =
    ((f.status ≡ failed) × (is_given f.skip_reason ≡ true))
    ⊎ ((f.status ≡ completed) × All (IsOwn check) f.evidence)

finish_settled_lem :
    (check : CheckDefinition) (world : World) (reason : Option String)
    (r : Result (List CheckEvidence)) (f : Finish)
    → finish_settled check world reason r ≡ ok f
    → Settled check f
unfolding finish_settled
finish_settled_lem check world reason (throw message) f e = inl (catch_failed world [] message f e)
finish_settled_lem check world reason (ok evidence) f e =
    elim (Bool-cases (any (is_foreign check) evidence)) [
      | inl foreign ↦
          inl (catch_failed world evidence "Check evidence identity mismatch" f (rw foreign at e))
      | inr own ↦
          let same : record { status = completed; skip_reason = reason; evidence = evidence } ≡ f =
            cc (rw own at e) in
          rw (← same) (inr (refl, All-IsOwn check evidence own))
    ]

analyze_lem :
    (check : CheckDefinition) (world : World) (reason : Option String) (o : Outcome) (f : Finish)
    → analyze check world reason o ≡ ok f
    → Settled check f
unfolding analyze
analyze_lem check world reason (rejected message) f e = inl (catch_failed world [] message f e)
analyze_lem check world reason (settled values) f e =
    finish_settled_lem check world reason (create_all values) f e

-- How a check ends, by its skip reason.
abbrev Ends : CheckDefinition → Option String → Finish → Type 0
Ends check reason f =
    ((is_given reason ≡ true) × (f.status ≡ skipped) × (f.skip_reason ≡ reason) × (f.evidence ≡ []))
    ⊎ ((is_given reason ≡ false) × Settled check f)

finish_lem :
    (check : CheckDefinition) (world : World) (reason : Option String) (f : Finish)
    → finish check world reason ≡ ok f
    → Ends check reason f
unfolding finish
finish_lem check world reason f e = elim (Bool-cases (is_given reason)) [
  | inl given ↦
      let same : record { status = skipped; skip_reason = reason; evidence = [] } ≡ f =
        cc (rw given at e) in
      rw (← same) (inl (given, refl, refl, refl))
  | inr free ↦ inr (free, analyze_lem check world reason world.outcome f (rw free at e))
]

module _ (parse_url : String → Option Url) (input : Input) where
  -- What a run says of its check: it was skipped for a reason, with nothing spent and no evidence,
  -- or it passed every test, paid the price of the check, and failed for a reason or reports
  -- evidence of its own.
  abbrev pub IsFaithful : CheckDefinition → World → CheckRun → Type 0
  IsFaithful check world r =
      (r.check_id ≡ check.id)
      × (r.check_version ≡ check.version)
      × (((r.status ≡ skipped)
            × (is_given r.skip_reason ≡ true)
            × (r.evidence ≡ [])
            × ((k : BudgetKind) → r.budget_used k ≡ 0))
          ⊎ (IsCleared parse_url input check world
              × ((k : BudgetKind) → r.budget_used k ≡ cost_of check.budget k)
              × (((r.status ≡ failed) × (is_given r.skip_reason ≡ true))
                  ⊎ ((r.status ≡ completed) × All (IsOwn check) r.evidence))))

  run-IsFaithful :
      (l m : BudgetLedger) (check : CheckDefinition) (world : World) (reason : Option String)
      (f : Finish)
      → Charged l check m reason
      → (is_given reason ≡ false → IsCleared parse_url input check world)
      → Ends check reason f
      → IsFaithful check world (make_run check world l m f)
  run-IsFaithful l m check world reason f charged cleared (inl (given, status, kept, none_there)) =
      (
        refl,
        refl,
        inl (
          status,
          rw kept given,
          none_there,
          λ k. elim charged [
            | inl (_, same) ↦ omega (arith, same k)
            | inr (free, _) ↦ absurd (ground arith)
          ],
        ),
      )
  run-IsFaithful l m check world reason f charged cleared (inr (free, settled_well)) = (
    refl,
    refl,
    inr (
      cleared free,
      λ k. elim charged [
        | inl (given, _) ↦ absurd (ground arith)
        | inr (_, paid) ↦ omega (arith, paid k)
      ],
      settled_well,
    ),
  )

  run_check_lem :
      (l m : BudgetLedger) (check : CheckDefinition) (world : World) (r : CheckRun)
      → IsValid l
      → run_check parse_url input l check world ≡ ok (m, r)
      → IsValid m × IsFaithful check world r
  unfolding run_check
  run_check_lem l m check world r v e = elim (Result-cases (gate parse_url input l check world)) [
    | inl (message, thrown) ↦ cc (rw thrown at e)
    | inr ((n, reason), passed) ↦ elim (Result-cases (finish check world reason)) [
      | inl (message, thrown) ↦ cc (rw (passed, thrown) at e)
      | inr (f, finished) ↦
          let (valid, charged, cleared) =
            gate_lem parse_url input l check world n reason v passed in
          let ledger : n ≡ m = cc (rw (passed, finished) at e) in
          let run : make_run check world l n f ≡ r = cc (rw (passed, finished) at e) in
          rw (← ledger, ← run)
            (
              valid,
              run-IsFaithful l n check world reason f charged cleared
                  (finish_lem check world reason f finished),
            )
    ]
  ]

  -- One run for each check, in order, each faithful to its check.
  abbrev pub AllFaithful : (CheckDefinition → World) → List CheckDefinition → List CheckRun → Type 0
  AllFaithful world [] [] = Unit
  AllFaithful world [] (r ∷ rs) = ⊥
  AllFaithful world (c ∷ cs) [] = ⊥
  AllFaithful world (c ∷ cs) (r ∷ rs) = IsFaithful c (world c) r × AllFaithful world cs rs

  run_all_lem :
      (world : CheckDefinition → World) (l m : BudgetLedger) (checks : List CheckDefinition)
      (runs : List CheckRun)
      → IsValid l
      → run_all parse_url input world l checks ≡ ok (m, runs)
      → IsValid m × AllFaithful world checks runs
  unfolding run_all
  run_all_lem world l m [] runs v e =
      let ledger : l ≡ m = cc in let none_run : [] ≡ runs = cc in rw (← ledger, ← none_run) (v, tt)
  run_all_lem world l m (c ∷ cs) runs v e =
      elim (Result-cases (run_check parse_url input l c (world c))) [
        | inl (message, thrown) ↦ cc (rw thrown at e)
        | inr ((n, r), ran) ↦ elim (Result-cases (run_all parse_url input world n cs)) [
          | inl (message, thrown) ↦ cc (rw (ran, thrown) at e)
          | inr ((p, rs), rest) ↦
              let (valid, faithful) = run_check_lem l n c (world c) r v ran in
              let (last, all_faithful) = run_all_lem world n p cs rs valid rest in
              let ledger : p ≡ m = cc (rw (ran, rest) at e) in
              let all_runs : r ∷ rs ≡ runs = cc (rw (ran, rest) at e) in
              rw (← ledger, ← all_runs) (last, (faithful, all_faithful))
        ]
      ]

  mark-IsValid : (l : BudgetLedger) → IsValid l → IsValid (mark parse_url input l)
  unfolding mark
  mark-IsValid l v = elim (Bool-cases (is_in_scope parse_url input)) [
    | inl inside ↦ rw inside (mark_authorized l v)
    | inr outside ↦
        rw outside
          (mark_authorized (mark_partial l scope_denied) (mark_partial-IsValid l scope_denied v))
  ]
    where
      mark_authorized :
          (m : BudgetLedger)
          → IsValid m
          → IsValid (
              if is_authorized input.authorization input.profile.mode
              then m
              else mark_partial m authorization_unavailable)
      mark_authorized m w =
          elim (Bool-cases (is_authorized input.authorization input.profile.mode)) [
            | inl may ↦ rw may w
            | inr may_not ↦ rw may_not (mark_partial-IsValid m authorization_unavailable w)
          ]

  -- From a valid ledger, `runChecks` reports one run for each check of the registry, in order, and
  -- leaves a valid ledger: a run was skipped for a reason with nothing spent and no evidence, or its
  -- check passed every test and paid exactly its price.
  pub run_checks_lem :
      (world : CheckDefinition → World) (l m : BudgetLedger) (registry : Checks)
      (runs : List CheckRun)
      → IsValid l
      → run_checks parse_url input world l registry ≡ ok (m, runs)
      → IsValid m × AllFaithful world (list_all registry) runs
  unfolding run_checks
  run_checks_lem world l m registry runs v e =
      run_all_lem world (mark parse_url input l) m (list_all registry) runs (mark-IsValid l v) e
