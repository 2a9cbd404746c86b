-- ===== src/Score/Category/Growth.antt =====
-- score-category.ts: one more finding never lowers the penalty.
use webprobe.Base.{
  ℕ, ◌+◌, ◌-◌, ◌≤◌, ◌≡◌, refl, inl, inr, String, none, some, List, [], ◌∷◌, ◌++◌, arith, length,
  length-append, Bool-cases, Option-cases, get, put, ◌==◌, string_key,
}
use webprobe.Score.Types.{Severity, info, ReportScoreFinding}
use webprobe.Score.Category.{
  severity_rank, higher, highest_severity, group_penalty, penalty_for_group, Groups, add_to_groups,
  group_from, grouped_by_code, total_penalty, finding_penalty,
}

higher-rank : (a b : Severity) → severity_rank a ≤ severity_rank (higher a b)
higher-rank a b = ground arith

-- A higher severity and more occurrences never cost less.
group_penalty_mono :
    (a b : Severity) (m n : ℕ)
    → severity_rank a ≤ severity_rank b
    → m ≤ n
    → group_penalty a m ≤ group_penalty b n
unfolding group_penalty
group_penalty_mono a b m n h k = ground arith

highest_severity-append :
    (s : Severity) (fs : List ReportScoreFinding) (f : ReportScoreFinding)
    → highest_severity s (fs ++ f ∷ []) ≡ higher (highest_severity s fs) f.severity
unfolding highest_severity
highest_severity-append s [] f = refl
highest_severity-append s (g ∷ fs) f = highest_severity-append (higher s g.severity) fs f

penalty_for_group_grows :
    (fs : List ReportScoreFinding) (f : ReportScoreFinding)
    → penalty_for_group fs ≤ penalty_for_group (fs ++ f ∷ [])
unfolding penalty_for_group
penalty_for_group_grows fs f =
    rw (highest_severity-append info fs f, length-append fs (f ∷ []))
      (group_penalty_mono (highest_severity info fs) (higher (highest_severity info fs) f.severity)
        (length fs - 1) (length fs + 1 - 1) (higher-rank (highest_severity info fs) f.severity)
        (omega arith))

-- A list that takes the place of a cheaper one, or stands under a new code, raises the total.
total-put_new :
    (code : String) (g : List ReportScoreFinding) (groups : Groups)
    → get code groups ≡ none
    → total_penalty groups ≤ total_penalty (put code g groups)
unfolding total_penalty get put
total-put_new code g [] h = omega arith
total-put_new code g ((c, old) ∷ groups) h = elim (Bool-cases (c == code)) [
  | inl e ↦ ground (arith, rw e at h)
  | inr e ↦ rw e (omega (arith, total-put_new code g groups (rw e at h)))
]

total-put_grown :
    (code : String) (old g : List ReportScoreFinding) (groups : Groups)
    → get code groups ≡ some old
    → penalty_for_group old ≤ penalty_for_group g
    → total_penalty groups ≤ total_penalty (put code g groups)
unfolding total_penalty get put
total-put_grown code old g [] h le = ground arith
total-put_grown code old g ((c, first) ∷ groups) h le = elim (Bool-cases (c == code)) [
  | inl e ↦ let same : first ≡ old = cc (rw e at h) in rw (e, same) (omega arith)
  | inr e ↦ rw e (omega (arith, total-put_grown code old g groups (rw e at h) le))
]

add_to_groups_grows :
    (groups : Groups) (f : ReportScoreFinding)
    → total_penalty groups ≤ total_penalty (add_to_groups groups f)
unfolding add_to_groups
add_to_groups_grows groups f = elim (Option-cases (get f.code groups)) [
  | inl e ↦ rw (add_to_groups, e) (total-put_new f.code (f ∷ []) groups e)
  | inr (old, e) ↦
      rw (add_to_groups, e)
        (total-put_grown f.code old (old ++ f ∷ []) groups e (penalty_for_group_grows old f))
]

group_from-append :
    (groups : Groups) (fs : List ReportScoreFinding) (f : ReportScoreFinding)
    → group_from groups (fs ++ f ∷ []) ≡ add_to_groups (group_from groups fs) f
unfolding group_from
group_from-append groups [] f = refl
group_from-append groups (g ∷ fs) f = group_from-append (add_to_groups groups g) fs f

-- One more finding, whatever its code and severity, never lowers the penalty of a category.
pub finding_penalty_grows :
    (fs : List ReportScoreFinding) (f : ReportScoreFinding)
    → finding_penalty fs ≤ finding_penalty (fs ++ f ∷ [])
unfolding finding_penalty grouped_by_code
finding_penalty_grows fs f =
    rw (group_from-append [] fs f) (add_to_groups_grows (group_from [] fs) f)
