-- ===== src/ScanEngine/Engine/Foreign.antt =====
-- engine.ts: evidence that names another check, in the runs that `runChecks` reports.
use webprobe.Base.{
  ◌≡◌, ◌≢◌, ◌↔◌, true, List, [], ◌∷◌, any, ok, throw, ◌&&◌, not, Bool, ◌==◌, string_key,
}
use webprobe.ScanEngine.Registry.{CheckDefinition}
use webprobe.ScanEngine.Evidence.{CheckEvidence}
use webprobe.ScanEngine.Engine.{
  World, Outcome, settled, rejected, skipped, failed, CheckRun, Finish, create_all, is_foreign,
}

-- The item names another check or another version than the run.
abbrev pub is_other : CheckRun → CheckEvidence → Bool
is_other r item = not (item.check_id == r.check_id && item.check_version == r.check_version)

-- A check ends as failed with evidence exactly if the evidence is foreign.
abbrev IsTold : CheckDefinition → Finish → Type 0
IsTold check f =
    (any (is_foreign check) f.evidence ≡ true) ↔ ((f.status ≡ failed) × (f.evidence ≢ []))

-- The evidence that a check leaves: what its analysis returned, if all of it is valid.
abbrev pub reported : Outcome → List CheckEvidence
reported (rejected message) = []
reported (settled values) = elim (create_all values) [ throw message ↦ [] | ok made ↦ made ]

-- A run that was not skipped holds the evidence that its check reported, and a run has failed with
-- evidence exactly if some of its evidence names another check.
abbrev pub IsMixedUp : World → CheckRun → Type 0
IsMixedUp world r =
    (r.status ≢ skipped → r.evidence ≡ reported world.outcome)
    × ((any (is_other r) r.evidence ≡ true) ↔ ((r.status ≡ failed) × (r.evidence ≢ [])))

-- One run for each check.
abbrev pub AllMixedUp : (CheckDefinition → World) → List CheckDefinition → List CheckRun → Type 0
AllMixedUp world [] [] = Unit
AllMixedUp world [] (r ∷ rs) = ⊥
AllMixedUp world (c ∷ cs) [] = ⊥
AllMixedUp world (c ∷ cs) (r ∷ rs) = IsMixedUp (world c) r × AllMixedUp world cs rs
