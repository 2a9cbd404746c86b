-- ===== src/Findings/Counts.antt =====
-- scan-comparison.ts: the counts, against the entries of the changes.
use webprobe.Base.{
  true, Bool-cases, inl, inr, ◌+◌, ◌&&◌, ◌||◌, not, All, length, put_absent, ℕ, ◌≡◌, refl, ◌∙◌, ap,
  sym, String, Bool, false, Option, none, some, List, [], ◌∷◌, ◌++◌, arith, string_key, get,
  get-put, ◌==◌, ==_refl, filter, if◌then◌else◌, contains, contains-add, add,
}
use webprobe.Base.Value.{Value}
use webprobe.Contracts.Completeness.{can_compare_missing_finding}
use webprobe.Findings.Comparison.{
  ComparableFinding, CurrentFindingChange, new_finding, worsened, improved, unchanged, Counts,
  no_counts, Changes, by_fingerprint, change_of, note_change, compare_current, fingerprints,
  resolved, compare_scan_findings, count,
}
use webprobe.Findings.Changes.{has_fingerprint}

abbrev pub IsDistinct : List ComparableFinding → Type 0
IsDistinct [] = Unit
IsDistinct (f ∷ rest) = (has_fingerprint f.fingerprint rest ≡ false) × IsDistinct rest

-- No entry yet for the fingerprints of these findings.
abbrev AreAbsent : List (String × CurrentFindingChange) → List ComparableFinding → Type 0
AreAbsent m = All (λ f. get f.fingerprint m ≡ none)

differ_sym : (j k : String) → (j == k) ≡ false → (k == j) ≡ false
differ_sym j k h = elim (Bool-cases (k == j)) [
  | inl same ↦
      let both : (j == k) ≡ true = rw ((string_key.same_iff k j).0 same) (==_refl j) in
      cc (rw both at h)
  | inr differ ↦ differ
]

AreAbsent-note_change :
    (f : ComparableFinding) (change : Option CurrentFindingChange) (acc : Changes)
    (rest : List ComparableFinding)
    → has_fingerprint f.fingerprint rest ≡ false
    → AreAbsent acc.0 rest
    → AreAbsent (note_change f change acc).0 rest
AreAbsent-note_change f none acc rest other h = h
AreAbsent-note_change f (some change) acc [] other h = tt
AreAbsent-note_change f (some change) acc (g ∷ rest) other (absent, h) =
    let differ : (f.fingerprint == g.fingerprint) ≡ false =
      differ_sym g.fingerprint f.fingerprint (ground (arith, other)) in
    (
      rw (get-put f.fingerprint g.fingerprint change acc.0, differ) absent,
      AreAbsent-note_change f (some change) acc rest (ground (arith, other)) h,
    )

abbrev pub is_new : CurrentFindingChange → Bool
is_new new_finding = true
is_new _ = false

abbrev pub is_worsened : CurrentFindingChange → Bool
is_worsened (worsened _) = true
is_worsened _ = false

abbrev pub is_improved : CurrentFindingChange → Bool
is_improved (improved _) = true
is_improved _ = false

abbrev pub is_unchanged : CurrentFindingChange → Bool
is_unchanged (unchanged _) = true
is_unchanged _ = false

-- How many entries are of a kind.
abbrev pub entries : (CurrentFindingChange → Bool) → List (String × CurrentFindingChange) → ℕ
entries kind m = length (filter (λ e. kind e.1) m)

-- Each count is that of the entries of its kind.
abbrev pub Agrees : Changes → Type 0
Agrees (m, c) =
    (c.new_count ≡ entries is_new m)
    × (c.worsened_count ≡ entries is_worsened m)
    × (c.improved_count ≡ entries is_improved m)
    × (c.unchanged_count ≡ entries is_unchanged m)

entries-append :
    (kind : CurrentFindingChange → Bool) (m : List (String × CurrentFindingChange)) (k : String)
    (change : CurrentFindingChange)
    → entries kind (m ++ (k, change) ∷ []) ≡ entries kind m + (if kind change then 1 else 0)
entries-append kind [] k change = ground arith
entries-append kind (e ∷ m) k change = ground (arith, entries-append kind m k change)

Agrees-append :
    (k : String) (change : CurrentFindingChange) (m : List (String × CurrentFindingChange))
    (c : Counts)
    → (c.new_count ≡ entries is_new m + (if is_new change then 1 else 0))
      × (c.worsened_count ≡ entries is_worsened m + (if is_worsened change then 1 else 0))
      × (c.improved_count ≡ entries is_improved m + (if is_improved change then 1 else 0))
      × (c.unchanged_count ≡ entries is_unchanged m + (if is_unchanged change then 1 else 0))
    → Agrees (m ++ (k, change) ∷ [], c)
Agrees-append k change m c (a, b, d, e) = (
  a ∙ sym (entries-append is_new m k change),
  b ∙ sym (entries-append is_worsened m k change),
  d ∙ sym (entries-append is_improved m k change),
  e ∙ sym (entries-append is_unchanged m k change),
)

counted :
    (x : CurrentFindingChange) (c : Counts) (n w i u : ℕ)
    → c.new_count ≡ n
    → c.worsened_count ≡ w
    → c.improved_count ≡ i
    → c.unchanged_count ≡ u
    → ((count x c).new_count ≡ n + (if is_new x then 1 else 0))
      × ((count x c).worsened_count ≡ w + (if is_worsened x then 1 else 0))
      × ((count x c).improved_count ≡ i + (if is_improved x then 1 else 0))
      × ((count x c).unchanged_count ≡ u + (if is_unchanged x then 1 else 0))
counted new_finding c n w i u p q r t = omega arith
counted (worsened s) c n w i u p q r t = omega arith
counted (improved s) c n w i u p q r t = omega arith
counted (unchanged s) c n w i u p q r t = omega arith

Agrees-note_change :
    (f : ComparableFinding) (change : Option CurrentFindingChange) (acc : Changes)
    → get f.fingerprint acc.0 ≡ none
    → Agrees acc
    → Agrees (note_change f change acc)
Agrees-note_change f none acc absent h = h
Agrees-note_change f (some change) (m, c) absent h =
    rw (put_absent f.fingerprint change m absent) (agrees change h)
  where
    agrees :
        (x : CurrentFindingChange)
        → Agrees (m, c)
        → Agrees (m ++ (f.fingerprint, x) ∷ [], count x c)
    agrees x (p, q, r, t) =
        Agrees-append f.fingerprint x m (count x c) (counted x c _ _ _ _ p q r t)

Agrees-compare_current :
    (previous : List (String × ComparableFinding)) (now before : Option Value)
    (rest : List ComparableFinding) (acc : Changes)
    → IsDistinct rest
    → AreAbsent acc.0 rest
    → Agrees acc
    → Agrees (compare_current previous now before rest acc)
unfolding compare_current
Agrees-compare_current previous now before [] acc d absent h = h
Agrees-compare_current previous now before (f ∷ rest) acc (other, d) (absent, more) h =
    let change = change_of previous now before f in
    Agrees-compare_current previous now before rest (note_change f change acc) d
      (AreAbsent-note_change f change acc rest other more)
      (Agrees-note_change f change acc absent h)

AreAbsent-empty : (rest : List ComparableFinding) → AreAbsent [] rest
unfolding get
AreAbsent-empty [] = tt
AreAbsent-empty (f ∷ rest) = (refl, AreAbsent-empty rest)

contains-fingerprints :
    (k : String) (current : List ComparableFinding) (seen : List String)
    → contains k (fingerprints current seen) ≡ (has_fingerprint k current || contains k seen)
contains-fingerprints k [] seen = refl
contains-fingerprints k (f ∷ rest) seen = ground (
  arith,
  contains-fingerprints k rest (add f.fingerprint seen),
  contains-add k f.fingerprint seen,
)

filter-same {ℓ} :
    {A : Type ℓ} (p q : A → Bool) (xs : List A) → ((a : A) → p a ≡ q a) → filter p xs ≡ filter q xs
filter-same p q [] h = refl
filter-same p q (x ∷ xs) h = ground (arith, h x, filter-same p q xs h)

-- A finding that the current scan lacks, where the absence says something.
abbrev pub is_gone : List ComparableFinding → Option Value → Option Value → ComparableFinding → Bool
is_gone current now before f =
    not (has_fingerprint f.fingerprint current) && can_compare_missing_finding f.code now before

resolved_lem :
    (current previous : List ComparableFinding) (now before : Option Value)
    → resolved current previous now before ≡ filter (is_gone current now before) previous
unfolding resolved contains
resolved_lem current previous now before =
    filter-same _ (is_gone current now before) previous
      (λ f. ground (arith, contains-fingerprints f.fingerprint current []))

-- Where the current findings have distinct fingerprints, the numbers of new, worsened, improved and
-- unchanged findings are each the number of the changes of that kind, the resolved findings are
-- those before whose fingerprint no current finding has and whose absence can be compared, and their
-- number is counted.
pub counts_lem :
    (current previous : List ComparableFinding) (now before : Option Value)
    → IsDistinct current
    → Agrees (
      (compare_scan_findings current previous now before).changes_by_fingerprint,
      (compare_scan_findings current previous now before).counts,
    )
      × ((compare_scan_findings current previous now before).resolved_findings
          ≡ filter (is_gone current now before) previous)
      × ((compare_scan_findings current previous now before).counts.resolved_count
          ≡ length (filter (is_gone current now before) previous))
unfolding compare_scan_findings
counts_lem current previous now before d =
    let gone = resolved_lem current previous now before in
    let (n, w, i, u) =
      Agrees-compare_current (by_fingerprint previous) now before current ([], no_counts) d
        (AreAbsent-empty current) (refl, refl, refl, refl) in
    ((n, w, i, u), gone, ap length gone)
