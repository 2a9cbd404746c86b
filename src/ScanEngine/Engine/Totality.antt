-- ===== src/ScanEngine/Engine/Totality.antt =====
-- engine.ts: `runChecks` comes to an end with a result.
use webprobe.Base.{
  ◌≡◌, refl, inl, inr, String, false, Option, some, List, [], ◌∷◌, any, All, Bool-cases, Result, ok,
  throw,
}
use webprobe.Base.Text.{Text, codes}
use webprobe.Base.Value.{is_given}
use webprobe.ScanEngine.Budget.{BudgetLedger, reserve_many}
use webprobe.ScanEngine.Budget.Charge.{reserve_many_lem, AreCostsValid}
use webprobe.ScanEngine.Scope.{Url}
use webprobe.ScanEngine.Registry.{CheckDefinition, Checks, list_all}
use webprobe.ScanEngine.Registry.Sound.{AllSound}
use webprobe.ScanEngine.Evidence.{CheckEvidence}
use webprobe.ScanEngine.Engine.{
  World, Input, Outcome, settled, rejected, catch, finish_settled, analyze, finish, create_all,
  is_foreign, gate, reserve_reason, run_check, run_all, mark, run_checks,
}

-- A result that is there.
abbrev pub Returns {ℓ} : {T : Type ℓ} → Result T → Type ℓ
Returns {T} r = (a : T) × (r ≡ ok a)

reserve_many-Returns :
    (l : BudgetLedger) (check : CheckDefinition) (world : World) (host : Option Text)
    → AreCostsValid check.budget
    → Returns (reserve_many l world.reserve_at check.budget host)
reserve_many-Returns l check world host valid =
    elim (reserve_many_lem l world.reserve_at check.budget host valid) [
      | inl (_, e) ↦ (_, e)
      | inr (_, (_, e)) ↦ (_, e)
    ]

catch-Returns :
    (world : World) (evidence : List CheckEvidence) (message : String)
    → world.aborted_after ≡ false
    → Returns (catch world evidence message)
unfolding catch
catch-Returns world evidence message kept = rw kept (_, refl)

finish_settled-Returns :
    (check : CheckDefinition) (world : World) (reason : Option String)
    (r : Result (List CheckEvidence))
    → world.aborted_after ≡ false
    → Returns (finish_settled check world reason r)
unfolding finish_settled
finish_settled-Returns check world reason (throw message) kept = catch-Returns world [] message kept
finish_settled-Returns check world reason (ok evidence) kept =
    elim (Bool-cases (any (is_foreign check) evidence)) [
      | inl foreign ↦ rw foreign (catch-Returns world evidence _ kept)
      | inr own ↦ rw own (_, refl)
    ]

analyze-Returns :
    (check : CheckDefinition) (world : World) (reason : Option String) (o : Outcome)
    → world.aborted_after ≡ false
    → Returns (analyze check world reason o)
unfolding analyze
analyze-Returns check world reason (rejected message) kept = catch-Returns world [] message kept
analyze-Returns check world reason (settled values) kept =
    finish_settled-Returns check world reason (create_all values) kept

finish-Returns :
    (check : CheckDefinition) (world : World) (reason : Option String)
    → world.aborted_after ≡ false
    → Returns (finish check world reason)
unfolding finish
finish-Returns check world reason kept = elim (Bool-cases (is_given reason)) [
  | inl given ↦ rw given (_, refl)
  | inr free ↦ rw free (analyze-Returns check world reason world.outcome kept)
]

module _ (parse_url : String → Option Url) (input : Input) (url : Url)
    (parsed : parse_url input.target_url ≡ some url) where
  reserve_reason-Returns :
      (l : BudgetLedger) (check : CheckDefinition) (world : World) (before : Option String)
      → AreCostsValid check.budget
      → Returns (reserve_reason parse_url input l check world before)
  unfolding reserve_reason
  reserve_reason-Returns l check world before valid = elim (Bool-cases (is_given before)) [
    | inl given ↦ rw given (_, refl)
    | inr free ↦
        let ((m, reservation), made) =
          reserve_many-Returns l check world (some (codes url.hostname)) valid in
        rw (free, parsed) (rw made (_, refl))
  ]

  gate-Returns :
      (l : BudgetLedger) (check : CheckDefinition) (world : World)
      → AreCostsValid check.budget
      → Returns (gate parse_url input l check world)
  unfolding gate
  gate-Returns l check world valid = reserve_reason-Returns _ check world _ valid

  run_check-Returns :
      (l : BudgetLedger) (check : CheckDefinition) (world : World)
      → AreCostsValid check.budget
      → world.aborted_after ≡ false
      → Returns (run_check parse_url input l check world)
  unfolding run_check
  run_check-Returns l check world valid kept =
      let ((m, reason), passed) = gate-Returns l check world valid in
      let (f, finished) = finish-Returns check world reason kept in rw (passed, finished) (_, refl)

  run_all-Returns :
      (world : CheckDefinition → World) (l : BudgetLedger) (checks : List CheckDefinition)
      → All (λ c. AreCostsValid c.budget × ((world c).aborted_after ≡ false)) checks
      → Returns (run_all parse_url input world l checks)
  unfolding run_all
  run_all-Returns world l [] h = (_, refl)
  run_all-Returns world l (c ∷ cs) h =
      let ((m, r), ran) = run_check-Returns l c (world c) h.0.0 h.0.1 in
      let ((n, rs), rest) = run_all-Returns world m cs h.1 in rw (ran, rest) (_, refl)

  priced :
      (world : CheckDefinition → World) (registry : Checks)
      → AllSound registry
      → ((c : CheckDefinition) → (world c).aborted_after ≡ false)
      → All (λ c. AreCostsValid c.budget × ((world c).aborted_after ≡ false)) (list_all registry)
  unfolding list_all
  priced world [] sound kept = tt
  priced world (e ∷ es) sound kept = ((sound.0.1.priced, kept e.1), priced world es sound.1 kept)

  -- Over a sound registry and a target that parses, `runChecks` returns its runs if the signal is
  -- not aborted while a check fails: no failure of a check, and no timeout, ends it.
  pub run_checks-Returns :
      (world : CheckDefinition → World) (l : BudgetLedger) (registry : Checks)
      → AllSound registry
      → ((c : CheckDefinition) → (world c).aborted_after ≡ false)
      → Returns (run_checks parse_url input world l registry)
  unfolding run_checks
  run_checks-Returns world l registry sound kept =
      run_all-Returns world (mark parse_url input l) (list_all registry)
        (priced world registry sound kept)
