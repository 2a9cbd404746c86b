-- ===== src/ScanEngine/Budget/Tests.antt =====
-- Witnesses and tests of the budget ledger, on a small set of limits.
use webprobe.Base.{◌≡◌, refl, ◌⊎◌, Option, none, some, [], ◌∷◌, ok, add, contains, add}
use webprobe.Base.Text.{Text, codes}
use webprobe.Base.Value.{Number, nat}
use webprobe.ScanEngine.Types.{
  http_requests, bytes_transferred, BudgetLimits, CoverageReason, budget_bytes_transferred,
  reason_key,
}
use webprobe.ScanEngine.Budget.{
  BudgetLedger, Costs, one_cost, cost_of, create, fresh, reserve_many, check_network, denied,
  allowed, charge, settle, admit, time_exceeded, admit_host, admit_kinds,
}
use webprobe.ScanEngine.Budget.Charge.{MayReserve, reserve_many_lem, charged_host}
use webprobe.ScanEngine.Budget.Invariant.{IsValid}
use webprobe.ScanEngine.Budget.History.{
  reserves, checks_time, run, run-IsValid, byte_stop_is_terminal,
}

abbrev tight : BudgetLimits Number
tight = record {
  per_kind = λ k. nat 3;
  max_requests_per_hostname = nat 2;
  max_duration_ms = nat 1000;
}

abbrev ledger : BudgetLedger
ledger = fresh tight (nat 100)

abbrev site : Option Text
site = some (codes "Example.com.")

abbrev two_requests : Costs
two_requests = one_cost http_requests (nat 2)

abbrev four_bytes : Costs
four_bytes = one_cost bytes_transferred (nat 4)

reserve_many_lem_example :
    (MayReserve ledger (nat 150) (cost_of two_requests) site
      × (reserve_many ledger (nat 150) two_requests site
          ≡ ok (charge ledger (cost_of two_requests) (charged_host 2 site), allowed)))
    ⊎ ((¬ MayReserve ledger (nat 150) (cost_of two_requests) site)
        × ((r : CoverageReason) × (reserve_many ledger (nat 150) two_requests site
              ≡ ok (record ledger { reasons = add r ledger.reasons }, denied r))))
reserve_many_lem_example = reserve_many_lem ledger (nat 150) two_requests site refl

run-IsValid_example :
    IsValid
      (run ledger (reserves (nat 150) http_requests (nat 2) site ∷ checks_time (nat 2000) ∷ []))
run-IsValid_example = run-IsValid tight (nat 100) ledger _ (unfold create in refl)

byte_denied :
    reserve_many ledger (nat 150) four_bytes none
    ≡ ok
        (record ledger { reasons = budget_bytes_transferred ∷ [] }, denied budget_bytes_transferred)
unfolding reserve_many fresh add contains settle admit time_exceeded admit_host admit_kinds
byte_denied = refl

byte_stop_is_terminal_example :
    check_network
      (run (record ledger { reasons = budget_bytes_transferred ∷ [] }) (checks_time (nat 151) ∷ []))
      (nat 160)
    ≡ (
      run (record ledger { reasons = budget_bytes_transferred ∷ [] }) (checks_time (nat 151) ∷ []),
      denied budget_bytes_transferred,
    )
byte_stop_is_terminal_example =
    byte_stop_is_terminal ledger (nat 150) four_bytes none _ (checks_time (nat 151) ∷ []) (nat 160)
      byte_denied
