-- ===== src/ScanEngine/Budget/History.antt =====
-- budget-ledger.ts: sequences of calls on one ledger.
use webprobe.Base.{
  ◌≡◌, inl, inr, true, Option, List, [], ◌∷◌, arith, Bool-cases, contains, contains-add_mono,
  contains-add_self, ok, all, ◌&&◌, ltb,
}
use webprobe.Base.Text.{Text}
use webprobe.Base.Value.{Number, is_safe_count}
use webprobe.ScanEngine.Types.{
  BudgetKind, budget_kinds, BudgetLimits, CoverageReason, budget_time, budget_bytes_transferred,
  reason_key,
}
use webprobe.ScanEngine.Budget.{
  BudgetLedger, denied, Costs, create, reserve_many, reserve, check_time, check_network,
  mark_partial, charge, one_cost, is_cost_valid, count_of, deny, time_exceeded,
}
use webprobe.ScanEngine.Budget.Charge.{reserve_many_lem}
use webprobe.ScanEngine.Budget.Invariant.{
  IsValid, after, create-IsValid, reserve_many-IsValid, reserve-IsValid, check_time-IsValid,
  check_network-IsValid, mark_partial-IsValid, reserve_many_throws,
}

-- A call of the ledger, with what the clock shows.
pub data Call : Type 0 where
  reserves_many : Number → Costs → Option Text → Call
  reserves : Number → BudgetKind → Number → Option Text → Call
  checks_time checks_network : Number → Call
  marks_partial : CoverageReason → Call

pub step : BudgetLedger → Call → BudgetLedger
step l (reserves_many current costs hostname) = after l (reserve_many l current costs hostname)
step l (reserves current kind amount hostname) = after l (reserve l current kind amount hostname)
step l (checks_time current) = (check_time l current).0
step l (checks_network current) = (check_network l current).0
step l (marks_partial r) = mark_partial l r

pub run : BudgetLedger → List Call → BudgetLedger
run l [] = l
run l (c ∷ cs) = run (step l c) cs

pub step-IsValid : (l : BudgetLedger) (c : Call) → IsValid l → IsValid (step l c)
unfolding step
step-IsValid l (reserves_many current costs hostname) v =
    reserve_many-IsValid l current costs hostname v
step-IsValid l (reserves current kind amount hostname) v =
    reserve-IsValid l current kind amount hostname v
step-IsValid l (checks_time current) v = check_time-IsValid l current v
step-IsValid l (checks_network current) v = check_network-IsValid l current v
step-IsValid l (marks_partial r) v = mark_partial-IsValid l r v

run_from-IsValid : (l : BudgetLedger) (cs : List Call) → IsValid l → IsValid (run l cs)
unfolding run
run_from-IsValid l [] v = v
run_from-IsValid l (c ∷ cs) v = run_from-IsValid (step l c) cs (step-IsValid l c v)

-- Whatever is called on a ledger that could be made, in any order and at any times, every kind stays
-- within its limit, every host within its own, and the requests counted by host are among those used.
pub run-IsValid :
    (limits : BudgetLimits Number) (started : Number) (l : BudgetLedger) (cs : List Call)
    → create limits started ≡ ok l
    → IsValid (run l cs)
run-IsValid limits started l cs e = run_from-IsValid l cs (create-IsValid limits started l e)

abbrev pub Keeps : BudgetLedger → BudgetLedger → Type 0
Keeps l m = (r : CoverageReason) → contains r l.reasons ≡ true → contains r m.reasons ≡ true

reserve_many-Keeps :
    (l : BudgetLedger) (current : Number) (costs : Costs) (hostname : Option Text)
    → Keeps l (after l (reserve_many l current costs hostname))
unfolding charge
reserve_many-Keeps l current costs hostname r h =
    elim (Bool-cases (all (λ k. is_cost_valid (costs k)) budget_kinds)) [
      | inr bad ↦ rw (reserve_many_throws l current costs hostname bad) h
      | inl good ↦ elim (reserve_many_lem l current costs hostname good) [
        | inl (may, e) ↦ rw e h
        | inr (_, (reason, e)) ↦ rw e (contains-add_mono r reason l.reasons h)
      ]
    ]

check_time-Keeps : (l : BudgetLedger) (current : Number) → Keeps l (check_time l current).0
unfolding check_time deny
check_time-Keeps l current r h = elim (Bool-cases (time_exceeded l current)) [
  | inl late ↦ rw late (contains-add_mono r budget_time l.reasons h)
  | inr timely ↦ rw timely h
]

check_network-Keeps : (l : BudgetLedger) (current : Number) → Keeps l (check_network l current).0
unfolding check_network
check_network-Keeps l current r h =
    elim (Bool-cases (contains budget_bytes_transferred l.reasons)) [
      | inl stopped ↦ rw stopped h
      | inr free ↦ rw free (check_time-Keeps l current r h)
    ]

-- A reason that was noted stays.
pub step-Keeps : (l : BudgetLedger) (c : Call) → Keeps l (step l c)
unfolding step reserve mark_partial
step-Keeps l (reserves_many current costs hostname) r h =
    reserve_many-Keeps l current costs hostname r h
step-Keeps l (reserves current kind amount hostname) r h =
    elim (Bool-cases (is_safe_count amount && ltb 0 (count_of amount))) [
      | inl good ↦ rw good (reserve_many-Keeps l current (one_cost kind amount) hostname r h)
      | inr bad ↦ rw bad h
    ]
step-Keeps l (checks_time current) r h = check_time-Keeps l current r h
step-Keeps l (checks_network current) r h = check_network-Keeps l current r h
step-Keeps l (marks_partial reason) r h = contains-add_mono r reason l.reasons h

run-Keeps : (l : BudgetLedger) (cs : List Call) → Keeps l (run l cs)
unfolding run
run-Keeps l [] r h = h
run-Keeps l (c ∷ cs) r h = run-Keeps (step l c) cs r (step-Keeps l c r h)

-- Once bytes were denied, `checkNetwork` denies every network operation: after any further calls, at
-- any time, and with no change of the ledger.
pub byte_stop_is_terminal :
    (l : BudgetLedger) (current : Number) (costs : Costs) (hostname : Option Text)
    (m : BudgetLedger) (cs : List Call) (later : Number)
    → reserve_many l current costs hostname ≡ ok (m, denied budget_bytes_transferred)
    → check_network (run m cs) later ≡ (run m cs, denied budget_bytes_transferred)
unfolding check_network
byte_stop_is_terminal l current costs hostname m cs later e =
    rw (run-Keeps m cs budget_bytes_transferred stopped)
  where
    stopped : contains budget_bytes_transferred m.reasons ≡ true
    stopped = elim (Bool-cases (all (λ k. is_cost_valid (costs k)) budget_kinds)) [
      | inr bad ↦ cc (reserve_many_throws l current costs hostname bad)
      | inl good ↦ elim (reserve_many_lem l current costs hostname good) [
        | inl (may, granted) ↦ cc
        | inr (_, (reason, refused)) ↦
            ground (arith, contains-add_self budget_bytes_transferred l.reasons)
      ]
    ]
