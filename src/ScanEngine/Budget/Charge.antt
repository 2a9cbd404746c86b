-- ===== src/ScanEngine/Budget/Charge.antt =====
-- budget-ledger.ts: what `reserveMany` decides, and what a decision does to the ledger.
use webprobe.Base.{
  ok, ℕ, ◌+◌, ◌≤◌, ◌<◌, ◌≡◌, refl, ◌↔◌, ◌⊎◌, inl, inr, true, false, Option, none, some, List, [],
  ◌∷◌, ltb, arith, if◌then◌else◌, all, All, Bool-cases, add,
}
use webprobe.Base.Text.{Text}
use webprobe.Base.Value.{Number, nat, other, max_safe_integer}
use webprobe.ScanEngine.Types.{
  BudgetKind, http_requests, pages, bytes_transferred, dns_queries, tls_handshakes,
  active_safe_checks, budget_kinds, CoverageReason, budget_time, budget_host_requests, scope_denied,
  reason_key,
}
use webprobe.ScanEngine.Budget.{
  BudgetLedger, allowed, denied, pass, refuse, admit, admit_host, admit_kinds, settle, charge,
  time_exceeded, host_requests, normalize_host, is_hostname, reason_by_kind, Costs, cost_of,
  is_cost_valid, reserve_many,
}

-- Every kind stands in the list that the loops walk.
pub All-budget_kinds {κ} : (P : BudgetKind → Type κ) → All P budget_kinds → (k : BudgetKind) → P k
All-budget_kinds P h http_requests = h.0
All-budget_kinds P h pages = h.1.0
All-budget_kinds P h bytes_transferred = h.1.1.0
All-budget_kinds P h dns_queries = h.1.1.1.0
All-budget_kinds P h tls_handshakes = h.1.1.1.1.0
All-budget_kinds P h active_safe_checks = h.1.1.1.1.1.0

abbrev pub Fits : BudgetLedger → (BudgetKind → ℕ) → BudgetKind → Type 0
Fits l cost k = l.used k + cost k ≤ l.limits.per_kind k

admit_kinds-Fits :
    (l : BudgetLedger) (cost : BudgetKind → ℕ) (ks : List BudgetKind)
    → admit_kinds l cost ks ≡ pass tt
    → All (Fits l cost) ks
unfolding admit_kinds
admit_kinds-Fits l cost [] h = tt
admit_kinds-Fits l cost (k ∷ ks) h =
    elim (Bool-cases (ltb (l.limits.per_kind k) (l.used k + cost k))) [
      | inl over ↦ absurd (ground arith)
      | inr fits ↦ (ground arith, admit_kinds-Fits l cost ks (rw (fits, admit_kinds) at h))
    ]

Fits-admit_kinds :
    (l : BudgetLedger) (cost : BudgetKind → ℕ) (ks : List BudgetKind)
    → All (Fits l cost) ks
    → admit_kinds l cost ks ≡ pass tt
unfolding admit_kinds
Fits-admit_kinds l cost [] h = refl
Fits-admit_kinds l cost (k ∷ ks) h = ground (arith, Fits-admit_kinds l cost ks)

Fits-budget_kinds :
    (l : BudgetLedger) (cost : BudgetKind → ℕ)
    → ((k : BudgetKind) → Fits l cost k)
    → All (Fits l cost) budget_kinds
Fits-budget_kinds l cost h = (
  h http_requests,
  (h pages, (h bytes_transferred, (h dns_queries, (h tls_handshakes, (h active_safe_checks, tt))))),
)

-- The clock shows a time of the scan that is not past its duration.
abbrev pub InTime : BudgetLedger → Number → Type 0
InTime l other = ⊥
InTime l (nat n) =
    (n ≤ max_safe_integer)
    × (l.started_at_ms ≤ n)
    × (n < l.started_at_ms + l.limits.max_duration_ms)

-- A request names a host, which has requests left.
abbrev pub HasHost : BudgetLedger → ℕ → Option Text → Type 0
HasHost l requests none = requests ≡ 0
HasHost l requests (some h) =
    (requests ≡ 0)
    ⊎ ((is_hostname h ≡ true)
        × (host_requests l.requests_by_hostname (normalize_host h) + requests
            ≤ l.limits.max_requests_per_hostname))

-- What a reservation needs, in one statement.
pub record MayReserve (l : BudgetLedger) (current : Number) (cost : BudgetKind → ℕ)
    (hostname : Option Text) : Type 0 where
  pub in_time : InTime l current
  pub has_host : HasHost l (cost http_requests) hostname
  pub fits : (k : BudgetKind) → Fits l cost k

-- The host that is charged.
unfoldable pub charged_host : ℕ → Option Text → Option Text
charged_host requests hostname =
    if ltb 0 requests
    then elim hostname [ none ↦ none | some h ↦ some (normalize_host h) ]
    else none

pub time_exceeded_iff :
    (l : BudgetLedger) (current : Number) → (time_exceeded l current ≡ false) ↔ InTime l current
unfolding time_exceeded
time_exceeded_iff l other = ground arith
time_exceeded_iff l (nat n) = ground arith

admit_host_lem :
    (l : BudgetLedger) (requests : ℕ) (hostname : Option Text)
    → (HasHost l requests hostname
        × (admit_host l requests hostname ≡ pass (charged_host requests hostname)))
      ⊎ ((¬ HasHost l requests hostname)
          × ((r : CoverageReason) × (admit_host l requests hostname ≡ refuse r)))
unfolding admit_host charged_host
admit_host_lem l requests none = elim (Bool-cases (ltb 0 requests)) [
  | inl some_requests ↦ inr (ground arith, (scope_denied, ground arith))
  | inr no_requests ↦ inl (ground arith, ground arith)
]
admit_host_lem l requests (some h) = elim (Bool-cases (ltb 0 requests)) [
  | inr no_requests ↦ inl (inl (ground arith), ground arith)
  | inl some_requests ↦ elim (Bool-cases (is_hostname h)) [
    | inr bad ↦ inr (ground arith, (scope_denied, ground arith))
    | inl good ↦
        elim (Bool-cases (
          ltb l.limits.max_requests_per_hostname
            (host_requests l.requests_by_hostname (normalize_host h) + requests))) [
              | inl over ↦ inr (ground arith, (budget_host_requests, ground arith))
              | inr within ↦ inl (inr (good, ground arith), ground arith)
            ]
  ]
]

admit_kinds_lem :
    (l : BudgetLedger) (cost : BudgetKind → ℕ) (ks : List BudgetKind)
    → (admit_kinds l cost ks ≡ pass tt)
      ⊎ ((r : CoverageReason) × (admit_kinds l cost ks ≡ refuse r))
unfolding admit_kinds
admit_kinds_lem l cost [] = inl refl
admit_kinds_lem l cost (k ∷ ks) =
    elim (Bool-cases (ltb (l.limits.per_kind k) (l.used k + cost k))) [
      | inl over ↦ inr (reason_by_kind k, ground arith)
      | inr fits ↦ rw (fits, admit_kinds) (admit_kinds_lem l cost ks)
    ]

-- `admit` passes exactly what may be reserved.
pub admit_lem :
    (l : BudgetLedger) (current : Number) (cost : BudgetKind → ℕ) (hostname : Option Text)
    → (MayReserve l current cost hostname
        × (admit l current cost hostname ≡ pass (charged_host (cost http_requests) hostname)))
      ⊎ ((¬ MayReserve l current cost hostname)
          × ((r : CoverageReason) × (admit l current cost hostname ≡ refuse r)))
unfolding admit
admit_lem l current cost hostname = elim (Bool-cases (time_exceeded l current)) [
  | inl late ↦ inr (λ m. cc ((time_exceeded_iff l current).1 m.in_time), (budget_time, rw late))
  | inr timely ↦ elim (admit_host_lem l (cost http_requests) hostname) [
    | inr (no_host, (r, e)) ↦ inr (λ m. no_host m.has_host, (r, rw (timely, e)))
    | inl (host, e) ↦ elim (admit_kinds_lem l cost budget_kinds) [
      | inl all_fit ↦ inl (
        record {
          in_time = (time_exceeded_iff l current).0 timely;
          has_host = host;
          fits = All-budget_kinds (Fits l cost) (admit_kinds-Fits l cost budget_kinds all_fit);
        },
        rw (timely, e, all_fit),
      )
      | inr (r, over) ↦ inr (
        λ m. cc (Fits-admit_kinds l cost budget_kinds (Fits-budget_kinds l cost m.fits)),
        (r, rw (timely, e, over)),
      )
    ]
  ]
]

abbrev pub AreCostsValid : Costs → Type 0
AreCostsValid costs = all (λ k. is_cost_valid (costs k)) budget_kinds ≡ true

-- For valid costs a reservation is granted exactly when the clock, the host and every kind allow it,
-- and then the whole cost is charged; otherwise it is denied, and only the reason is noted.
pub reserve_many_lem :
    (l : BudgetLedger) (current : Number) (costs : Costs) (hostname : Option Text)
    → AreCostsValid costs
    → (MayReserve l current (cost_of costs) hostname
        × (reserve_many l current costs hostname
            ≡ ok (
              charge l (cost_of costs) (charged_host (cost_of costs http_requests) hostname),
              allowed,
            )))
      ⊎ ((¬ MayReserve l current (cost_of costs) hostname)
          × ((r : CoverageReason) × (reserve_many l current costs hostname
                ≡ ok (record l { reasons = add r l.reasons }, denied r))))
unfolding reserve_many settle
reserve_many_lem l current costs hostname valid =
    elim (admit_lem l current (cost_of costs) hostname) [
      | inl (may, e) ↦ inl (may, rw (valid, e))
      | inr (may_not, (r, e)) ↦ inr (may_not, (r, rw (valid, e)))
    ]

pub charge_use :
    (l : BudgetLedger) (cost : BudgetKind → ℕ) (host : Option Text) (k : BudgetKind)
    → (charge l cost host).used k ≡ l.used k + cost k
unfolding charge
charge_use l cost host k = refl
