-- ===== src/ScanEngine/Budget.antt =====
-- apps/worker/src/scan-engine/budget-ledger.ts: the ledger that bounds what a scan may spend.
-- A method returns its result beside the new ledger; the value of `now()` is an argument.
pub mod Charge
pub mod Invariant
pub mod History
mod Tests
use webprobe.Base.{
  ℕ, ◌+◌, ◌-◌, Bool, true, false, not, ◌&&◌, ◌||◌, Option, none, some, List, [], ◌∷◌, map, ltb, leb,
  if◌then◌else◌, all, contains, add, get, put, Result, ok, throw, ◌>>=◌, ◌>>◌, throw_if, eqb,
  length,
}
use webprobe.Base.Text.{Text, text_key, is_upper, is_lower, is_digit, to_lower}
use webprobe.Base.Value.{Number, nat, other, is_safe_count}
use webprobe.ScanEngine.Types.{
  BudgetKind, http_requests, pages, bytes_transferred, dns_queries, tls_handshakes,
  active_safe_checks, budget_kinds, BudgetLimits, CoverageReason, budget_http_requests,
  budget_host_requests, budget_pages, budget_bytes_transferred, budget_dns_queries,
  budget_tls_handshakes, budget_active_safe_checks, budget_time, scope_denied, reason_key,
}

abbrev pub reason_by_kind : BudgetKind → CoverageReason
reason_by_kind http_requests = budget_http_requests
reason_by_kind pages = budget_pages
reason_by_kind bytes_transferred = budget_bytes_transferred
reason_by_kind dns_queries = budget_dns_queries
reason_by_kind tls_handshakes = budget_tls_handshakes
reason_by_kind active_safe_checks = budget_active_safe_checks

pub data BudgetReservation : Type 0 where
  allowed : BudgetReservation
  denied : CoverageReason → BudgetReservation

pub record BudgetLedger : Type 0 where
  pub limits : BudgetLimits ℕ
  pub started_at_ms : ℕ
  pub used : BudgetKind → ℕ
  pub requests_by_hostname : List (Text × ℕ)
  pub reasons : List CoverageReason

-- `Partial<Record<BudgetKind, number>>`: `none` where the key is not there.
abbrev pub Costs : Type 0
Costs = BudgetKind → Option Number

-- The value of a number that was found to be a safe nonnegative integer.
abbrev pub count_of : Number → ℕ
count_of (nat n) = n
count_of other = 0

abbrev pub are_limits_valid : BudgetLimits Number → Bool
are_limits_valid limits =
    all (λ k. is_safe_count (limits.per_kind k)) budget_kinds
    && is_safe_count limits.max_requests_per_hostname
    && is_safe_count limits.max_duration_ms

-- The fields of a new ledger.
pub fresh : BudgetLimits Number → Number → BudgetLedger
fresh limits started_at_ms = record {
  limits = record {
    per_kind = λ k. count_of (limits.per_kind k);
    max_requests_per_hostname = count_of limits.max_requests_per_hostname;
    max_duration_ms = count_of limits.max_duration_ms;
  };
  started_at_ms = count_of started_at_ms;
  used = λ k. 0;
  requests_by_hostname = [];
  reasons = [];
}

pub create : BudgetLimits Number → Number → Result BudgetLedger
unfolding fresh
create limits started_at_ms = do
  throw_if (not (is_safe_count started_at_ms)) "Invalid budget start time"
  throw_if (not (are_limits_valid limits)) "Budget limits must be nonnegative safe integers"
  ok (fresh limits started_at_ms)

pub time_exceeded : BudgetLedger → Number → Bool
time_exceeded l other = true
time_exceeded l (nat current) =
    not (is_safe_count (nat current))
    || ltb current l.started_at_ms
    || leb l.limits.max_duration_ms (current - l.started_at_ms)

pub deny : BudgetLedger → CoverageReason → BudgetLedger × BudgetReservation
deny l reason = (record l { reasons = add reason l.reasons }, denied reason)

-- `/^[a-z0-9.-]+$/i`
pub is_hostname : Text → Bool
is_hostname h =
    ltb 0 (length h)
    && all (λ c. is_lower c || is_upper c || is_digit c || eqb c b'.' || eqb c b'-') h

-- `.replace(/\.$/, "")`
pub strip_dot : Text → Text
strip_dot [] = []
strip_dot (c ∷ []) = if eqb c b'.' then [] else c ∷ []
strip_dot (c ∷ d ∷ r) = c ∷ strip_dot (d ∷ r)

pub normalize_host : Text → Text
unfolding strip_dot
normalize_host h = strip_dot (map to_lower h)

-- `this.requestsByHostname.get(host) ?? 0`
pub host_requests : List (Text × ℕ) → Text → ℕ
unfolding get
host_requests m h = elim (get h m) [ none ↦ 0 | some n ↦ n ]

-- The tests of `reserveMany`: they hand a value on, or refuse with a reason.
pub data Gate {ℓ} (A : Type ℓ) : Type ℓ where
  pass : A → Gate A
  refuse : CoverageReason → Gate A

abbrev pub then_gate {ℓ κ} : {A : Type ℓ} {B : Type κ} → Gate A → (A → Gate B) → Gate B
then_gate (pass a) f = f a
then_gate (refuse r) f = refuse r

-- The block under `if (requestAmount > 0)`; its value is `normalizedHost`.
pub admit_host : BudgetLedger → ℕ → Option Text → Gate (Option Text)
admit_host l requests hostname =
    if ltb 0 requests
    then elim hostname [
      | none ↦ refuse scope_denied
      | some h ↦
          if is_hostname h
          then if ltb l.limits.max_requests_per_hostname
              (host_requests l.requests_by_hostname (normalize_host h) + requests)
            then refuse budget_host_requests
            else pass (some (normalize_host h))
          else refuse scope_denied
    ]
    else pass none

-- The first loop over `budgetKinds`.
pub admit_kinds : BudgetLedger → (BudgetKind → ℕ) → List BudgetKind → Gate (Unit {0})
admit_kinds l cost [] = pass tt
admit_kinds l cost (k ∷ ks) =
    if ltb (l.limits.per_kind k) (l.used k + cost k)
    then refuse (reason_by_kind k)
    else admit_kinds l cost ks

pub admit : BudgetLedger → Number → (BudgetKind → ℕ) → Option Text → Gate (Option Text)
admit l current cost hostname =
    if time_exceeded l current
    then refuse budget_time
    else then_gate (admit_host l (cost http_requests) hostname)
        (λ host. then_gate (admit_kinds l cost budget_kinds) (λ _. pass host))

-- `if (normalizedHost) this.requestsByHostname.set(...)`: the empty text counts as no host.
pub charge_host : List (Text × ℕ) → ℕ → Option Text → List (Text × ℕ)
charge_host m requests none = m
charge_host m requests (some []) = m
charge_host m requests (some (c ∷ h)) = put (c ∷ h) (host_requests m (c ∷ h) + requests) m

pub charge : BudgetLedger → (BudgetKind → ℕ) → Option Text → BudgetLedger
charge l cost host = record l {
  used = λ k. l.used k + cost k;
  requests_by_hostname = charge_host l.requests_by_hostname (cost http_requests) host;
}

pub settle : BudgetLedger → (BudgetKind → ℕ) → Gate (Option Text) → BudgetLedger × BudgetReservation
unfolding deny
settle l cost (refuse reason) = deny l reason
settle l cost (pass host) = (charge l cost host, allowed)

abbrev pub is_cost_valid : Option Number → Bool
is_cost_valid none = true
is_cost_valid (some n) = is_safe_count n

-- `costs[kind] ?? 0`
abbrev pub cost_of : Costs → BudgetKind → ℕ
cost_of costs k = elim (costs k) [ none ↦ 0 | some n ↦ count_of n ]

pub reserve_many :
    BudgetLedger → Number → Costs → Option Text → Result (BudgetLedger × BudgetReservation)
reserve_many l current costs hostname = do
  throw_if (not (all (λ k. is_cost_valid (costs k)) budget_kinds)) "Invalid budget reservation"
  ok (settle l (cost_of costs) (admit l current (cost_of costs) hostname))

-- `{ [kind]: amount }`
abbrev pub one_cost : BudgetKind → Number → Costs
one_cost http_requests n http_requests = some n
one_cost pages n pages = some n
one_cost bytes_transferred n bytes_transferred = some n
one_cost dns_queries n dns_queries = some n
one_cost tls_handshakes n tls_handshakes = some n
one_cost active_safe_checks n active_safe_checks = some n
one_cost _ n _ = none

pub reserve :
    BudgetLedger
    → Number
    → BudgetKind
    → Number
    → Option Text
    → Result (BudgetLedger × BudgetReservation)
reserve l current kind amount hostname = do
  throw_if (not (is_safe_count amount && ltb 0 (count_of amount)))
      "Budget reservation must be a positive safe integer"
  reserve_many l current (one_cost kind amount) hostname

pub check_time : BudgetLedger → Number → BudgetLedger × BudgetReservation
check_time l current = if time_exceeded l current then deny l budget_time else (l, allowed)

pub check_network : BudgetLedger → Number → BudgetLedger × BudgetReservation
unfolding check_time
check_network l current =
    if contains budget_bytes_transferred l.reasons
    then (l, denied budget_bytes_transferred)
    else check_time l current

pub remaining_duration_ms : BudgetLedger → Number → ℕ
remaining_duration_ms l other = 0
remaining_duration_ms l (nat current) =
    if not (is_safe_count (nat current)) || ltb current l.started_at_ms
    then 0
    else l.limits.max_duration_ms - (current - l.started_at_ms)

pub mark_partial : BudgetLedger → CoverageReason → BudgetLedger
mark_partial l reason = record l { reasons = add reason l.reasons }

pub record Snapshot : Type 0 where
  pub used : BudgetKind → ℕ
  pub requests_by_hostname : List (Text × ℕ)
  pub partial : Bool
  pub reasons : List CoverageReason
  pub elapsed_ms : ℕ

-- `snapshot`, where the clock shows an integer.
pub snapshot : BudgetLedger → ℕ → Snapshot
snapshot l current = record {
  used = l.used;
  requests_by_hostname = l.requests_by_hostname;
  partial = ltb 0 (length l.reasons);
  reasons = l.reasons;
  elapsed_ms = current - l.started_at_ms;
}
