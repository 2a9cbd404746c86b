-- ===== src/Findings/Changes.antt =====
-- scan-comparison.ts: the change of each finding.
use webprobe.Base.{
  ◌≡◌, refl, ◌∙◌, String, Bool, false, Option, none, some, List, [], ◌∷◌, ◌++◌, any, arith,
  string_key, get, get-put, ◌==◌, ==_refl,
}
use webprobe.Base.Value.{Value}
use webprobe.Findings.Comparison.{
  ComparableFinding, CurrentFindingChange, no_counts, Changes, by_fingerprint, change_of,
  note_change, compare_current, compare_scan_findings,
}

-- Whether one of the findings has the fingerprint.
abbrev pub has_fingerprint : String → List ComparableFinding → Bool
has_fingerprint k = any (λ f. f.fingerprint == k)

module _ (previous : List (String × ComparableFinding)) (now before : Option Value) where
  compare_current-append :
      (earlier later : List ComparableFinding) (acc : Changes)
      → compare_current previous now before (earlier ++ later) acc
        ≡ compare_current previous now before later
            (compare_current previous now before earlier acc)
  unfolding compare_current
  compare_current-append [] later acc = refl
  compare_current-append (f ∷ rest) later acc =
      compare_current-append rest later (note_change f (change_of previous now before f) acc)

  get-note_change :
      (k : String) (f : ComparableFinding) (change : Option CurrentFindingChange) (acc : Changes)
      → (f.fingerprint == k) ≡ false
      → get k (note_change f change acc).0 ≡ get k acc.0
  get-note_change k f none acc differ = refl
  get-note_change k f (some change) acc differ =
      rw (get-put f.fingerprint k change acc.0, differ) refl

  -- Findings of other fingerprints leave a change alone.
  get-compare_current :
      (k : String) (rest : List ComparableFinding) (acc : Changes)
      → has_fingerprint k rest ≡ false
      → get k (compare_current previous now before rest acc).0 ≡ get k acc.0
  unfolding compare_current
  get-compare_current k [] acc h = refl
  get-compare_current k (f ∷ rest) acc h =
      get-compare_current k rest (note_change f (change_of previous now before f) acc)
        (ground (arith, h))
      ∙ get-note_change k f (change_of previous now before f) acc (ground (arith, h))

  get-note_change_own :
      (f : ComparableFinding) (change : Option CurrentFindingChange) (acc : Changes)
      → get f.fingerprint acc.0 ≡ none
      → get f.fingerprint (note_change f change acc).0 ≡ change
  get-note_change_own f none acc absent = absent
  get-note_change_own f (some change) acc absent =
      rw (get-put f.fingerprint f.fingerprint change acc.0, ==_refl f.fingerprint) refl

-- The change that a comparison reports for a finding whose fingerprint no other current finding
-- has is the one that the loop's turn for it decides, if it decides one.
pub changes_lem :
    (earlier later previous : List ComparableFinding) (f : ComparableFinding)
    (now before : Option Value)
    → has_fingerprint f.fingerprint earlier ≡ false
    → has_fingerprint f.fingerprint later ≡ false
    → get f.fingerprint
        (compare_scan_findings (earlier ++ f ∷ later) previous now before).changes_by_fingerprint
      ≡ change_of (by_fingerprint previous) now before f
unfolding compare_scan_findings compare_current get
changes_lem earlier later previous f now before he hl =
    let m = by_fingerprint previous in
    let acc : Changes = compare_current m now before earlier ([], no_counts) in
    let change = change_of m now before f in
    let absent : get f.fingerprint acc.0 ≡ none =
      get-compare_current m now before f.fingerprint earlier ([], no_counts) he in
    rw (compare_current-append m now before earlier (f ∷ later) ([], no_counts)) (
      get-compare_current m now before f.fingerprint later (note_change f change acc) hl
      ∙ get-note_change_own m now before f change acc absent)
