-- ===== src/ScanEngine/Budget/Invariant.antt =====
-- budget-ledger.ts: the ledger stays within its limits, whatever is called.
use webprobe.Base.{
  ℕ, ◌+◌, ◌≤◌, ◌≡◌, refl, inl, inr, false, Option, none, some, List, [], ◌∷◌, arith, if◌then◌else◌,
  Bool-cases, add, get, put, get-put, Result, ok, throw, ltb, ◌==◌, all, ◌&&◌, contains,
}
use webprobe.Base.Text.{Text, text_key}
use webprobe.Base.Value.{Number, is_safe_count}
use webprobe.ScanEngine.Types.{
  BudgetKind, http_requests, budget_kinds, BudgetLimits, CoverageReason, budget_time,
  budget_bytes_transferred, reason_key,
}
use webprobe.ScanEngine.Budget.{
  BudgetLedger, Costs, cost_of, create, fresh, are_limits_valid, reserve_many, reserve, check_time,
  check_network, mark_partial, charge, charge_host, host_requests, normalize_host, one_cost,
  is_cost_valid, count_of, deny, time_exceeded,
}
use webprobe.ScanEngine.Budget.Charge.{MayReserve, HasHost, charged_host, reserve_many_lem}

-- All requests that stand under some host.
pub host_total : List (Text × ℕ) → ℕ
host_total [] = 0
host_total ((h, n) ∷ m) = n + host_total m

-- What holds of a ledger between two calls.
pub record IsValid (l : BudgetLedger) : Type 0 where
  pub within : (k : BudgetKind) → l.used k ≤ l.limits.per_kind k
  pub hosts_within :
      (h : Text) → host_requests l.requests_by_hostname h ≤ l.limits.max_requests_per_hostname
  pub counted : host_total l.requests_by_hostname ≤ l.used http_requests

host_total-put :
    (h : Text) (n : ℕ) (m : List (Text × ℕ))
    → host_total (put h (host_requests m h + n) m) ≡ host_total m + n
unfolding host_total host_requests put get
host_total-put h n [] = omega arith
host_total-put h n ((j, w) ∷ m) = ground (arith, host_total-put h n m)

host_total-charge_host :
    (m : List (Text × ℕ)) (n : ℕ) (host : Option Text)
    → host_total (charge_host m n host) ≤ host_total m + n
unfolding charge_host
host_total-charge_host m n none = omega arith
host_total-charge_host m n (some []) = omega arith
host_total-charge_host m n (some (c ∷ h)) = omega (arith, host_total-put (c ∷ h) n m)

host_requests-put :
    (k j : Text) (n : ℕ) (m : List (Text × ℕ))
    → host_requests (put k n m) j ≡ (if k == j then n else host_requests m j)
unfolding host_requests
host_requests-put k j n m = elim (Bool-cases (k == j)) [
  | inl same ↦ ground (arith, get-put k j n m)
  | inr differ ↦ ground (arith, get-put k j n m)
]

-- A charge keeps every host below a bound that its own host was found to keep.
charge_host-le :
    (m : List (Text × ℕ)) (n most : ℕ) (host : Option Text) (j : Text)
    → ((h : Text) → host ≡ some h → host_requests m h + n ≤ most)
    → host_requests m j ≤ most
    → host_requests (charge_host m n host) j ≤ most
unfolding charge_host
charge_host-le m n most none j room h = h
charge_host-le m n most (some []) j room h = h
charge_host-le m n most (some (c ∷ k)) j room h =
    rw (host_requests-put (c ∷ k) j (host_requests m (c ∷ k) + n) m)
      (elim (Bool-cases ((c ∷ k) == j)) [
        | inl same ↦ rw same (room (c ∷ k) refl)
        | inr differ ↦ rw differ h
      ])

charged_host-room :
    (l : BudgetLedger) (n : ℕ) (hostname : Option Text) (h : Text)
    → HasHost l n hostname
    → charged_host n hostname ≡ some h
    → host_requests l.requests_by_hostname h + n ≤ l.limits.max_requests_per_hostname
unfolding charged_host
charged_host-room l n none h has e = ground arith
charged_host-room l n (some g) h has e = elim (Bool-cases (ltb 0 n)) [
  | inl positive ↦
      let same : normalize_host g ≡ h = ground arith in
      rw (← same) (elim has [ inl zero_requests ↦ absurd (ground arith) | inr room ↦ room.1 ])
  | inr none_asked ↦ absurd (ground arith)
]

charge-IsValid :
    (l : BudgetLedger) (current : Number) (cost : BudgetKind → ℕ) (hostname : Option Text)
    → IsValid l
    → MayReserve l current cost hostname
    → IsValid (charge l cost (charged_host (cost http_requests) hostname))
unfolding charge
charge-IsValid l current cost hostname v m = record {
  within = m.fits;
  hosts_within = λ j.
      charge_host-le l.requests_by_hostname (cost http_requests) _
        (charged_host (cost http_requests) hostname) j
        (λ h. charged_host-room l (cost http_requests) hostname h m.has_host) (v.hosts_within j);
  counted = omega (
    arith,
    v.counted,
    host_total-charge_host l.requests_by_hostname (cost http_requests)
        (charged_host (cost http_requests) hostname),
  );
}

-- Adding a reason changes nothing that the invariant reads.
reasons-IsValid :
    (l : BudgetLedger) (rs : List CoverageReason) → IsValid l → IsValid (record l { reasons = rs })
reasons-IsValid l rs v = record {
  within = v.within;
  hosts_within = v.hosts_within;
  counted = v.counted;
}

-- The ledger after a call that may throw; a call that throws leaves it as it was.
abbrev pub after {ℓ} : {A : Type ℓ} → BudgetLedger → Result (BudgetLedger × A) → BudgetLedger
after l (ok (m, _)) = m
after l (throw _) = l

pub reserve_many_throws :
    (l : BudgetLedger) (current : Number) (costs : Costs) (hostname : Option Text)
    → all (λ k. is_cost_valid (costs k)) budget_kinds ≡ false
    → reserve_many l current costs hostname ≡ throw "Invalid budget reservation"
unfolding reserve_many
reserve_many_throws l current costs hostname h = rw h

pub reserve_many-IsValid :
    (l : BudgetLedger) (current : Number) (costs : Costs) (hostname : Option Text)
    → IsValid l
    → IsValid (after l (reserve_many l current costs hostname))
reserve_many-IsValid l current costs hostname v =
    elim (Bool-cases (all (λ k. is_cost_valid (costs k)) budget_kinds)) [
      | inr bad ↦ rw (reserve_many_throws l current costs hostname bad) v
      | inl good ↦ elim (reserve_many_lem l current costs hostname good) [
        | inl (may, e) ↦ rw e (charge-IsValid l current (cost_of costs) hostname v may)
        | inr (_, (r, e)) ↦ rw e (reasons-IsValid l (add r l.reasons) v)
      ]
    ]

pub reserve-IsValid :
    (l : BudgetLedger) (current : Number) (kind : BudgetKind) (amount : Number)
    (hostname : Option Text)
    → IsValid l
    → IsValid (after l (reserve l current kind amount hostname))
unfolding reserve
reserve-IsValid l current kind amount hostname v =
    elim (Bool-cases (is_safe_count amount && ltb 0 (count_of amount))) [
      | inl good ↦ rw good (reserve_many-IsValid l current (one_cost kind amount) hostname v)
      | inr bad ↦ rw bad v
    ]

pub check_time-IsValid :
    (l : BudgetLedger) (current : Number) → IsValid l → IsValid (check_time l current).0
unfolding check_time deny
check_time-IsValid l current v = elim (Bool-cases (time_exceeded l current)) [
  | inl late ↦ rw late (reasons-IsValid l (add budget_time l.reasons) v)
  | inr timely ↦ rw timely v
]

-- A look at the clock spends nothing.
pub check_time_use :
    (l : BudgetLedger) (current : Number) (k : BudgetKind)
    → (check_time l current).0.used k ≡ l.used k
unfolding check_time deny
check_time_use l current k = ground arith

pub check_network-IsValid :
    (l : BudgetLedger) (current : Number) → IsValid l → IsValid (check_network l current).0
unfolding check_network
check_network-IsValid l current v =
    elim (Bool-cases (contains budget_bytes_transferred l.reasons)) [
      | inl stopped ↦ rw stopped v
      | inr free ↦ rw free (check_time-IsValid l current v)
    ]

pub mark_partial-IsValid :
    (l : BudgetLedger) (r : CoverageReason) → IsValid l → IsValid (mark_partial l r)
unfolding mark_partial
mark_partial-IsValid l r v = reasons-IsValid l (add r l.reasons) v

pub fresh-IsValid :
    (limits : BudgetLimits Number) (started : Number) → IsValid (fresh limits started)
unfolding fresh host_requests host_total get
fresh-IsValid limits started = record {
  within = λ k. omega arith;
  hosts_within = λ h. omega arith;
  counted = omega arith;
}

pub mark_partial_use :
    (l : BudgetLedger) (r : CoverageReason) (k : BudgetKind) → (mark_partial l r).used k ≡ l.used k
unfolding mark_partial
mark_partial_use l r k = refl

-- A ledger that could be made satisfies the invariant.
pub create-IsValid :
    (limits : BudgetLimits Number) (started : Number) (l : BudgetLedger)
    → create limits started ≡ ok l
    → IsValid l
unfolding create
create-IsValid limits started l e = elim (Bool-cases (is_safe_count started)) [
  | inr bad ↦ cc (rw bad at e)
  | inl good ↦ elim (Bool-cases (are_limits_valid limits)) [
    | inr bad ↦ cc (rw (good, bad) at e)
    | inl valid ↦
        let same : fresh limits started ≡ l = cc (rw (good, valid) at e) in
        rw (← same) (fresh-IsValid limits started)
  ]
]
