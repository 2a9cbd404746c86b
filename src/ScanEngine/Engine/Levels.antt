-- ===== src/ScanEngine/Engine/Levels.antt =====
-- engine.ts: the authorization behind every check that runs, and the runs that come to an end.
use webprobe.Base.{
  ◌≡◌, ◌≢◌, refl, ap, ◌∙◌, inl, inr, String, true, Option, none, List, [], ◌∷◌, arith, ◌==◌,
  string_key, All, contains, Bool-cases,
}
use webprobe.ScanEngine.Types.{
  ScanMode, ScanProfile, public_audit, verified_monitoring, verified_deep_audit, mode_key,
}
use webprobe.ScanEngine.Authorization.{Level, public, deep, AuthorizationDecision, allowed, refused}
use webprobe.ScanEngine.Scope.{Url}
use webprobe.ScanEngine.Registry.{CheckDefinition, active_safe, activity_key, level_key}
use webprobe.ScanEngine.Registry.Sound.{IsSound}
use webprobe.ScanEngine.Engine.{World, Input, is_authorized, may_run}
use webprobe.ScanEngine.Engine.Gates.{IsCleared}

contains-not_public :
    (mode : ScanMode) (ms : List ScanMode)
    → contains mode ms ≡ true
    → All (λ m. m ≢ public_audit) ms
    → mode ≢ public_audit
unfolding contains
contains-not_public mode [] h a = cc
contains-not_public mode (m ∷ ms) h a = elim (Bool-cases (m == mode)) [
  | inl same ↦ λ e. a.0 ((mode_key.same_iff m mode).0 same ∙ e)
  | inr differ ↦ contains-not_public mode ms (rw differ at h) a.1
]

-- The level that an authorization reached, by the mode of the scan.
authorized_level :
    (decision : AuthorizationDecision) (mode : ScanMode)
    → is_authorized decision mode ≡ true
    → (l : Level) × (decision ≡ allowed l)
      × (mode ≡ verified_deep_audit → l ≡ deep)
      × (mode ≢ public_audit → l ≢ public)
unfolding is_authorized
authorized_level (refused r) mode h = cc
authorized_level (allowed l) public_audit h = (l, refl, λ e. cc, λ e. absurd (e refl))
authorized_level (allowed l) verified_deep_audit h = (
  l,
  refl,
  λ e. ground (arith, level_key.same_iff l deep),
  λ e. ground (arith, level_key.same_iff l deep),
)
authorized_level (allowed l) verified_monitoring h =
    (l, refl, λ e. cc, λ e. ground (arith, level_key.same_iff l public))

-- The tests of `mayRun` that matter here.
may_run_tests :
    (check : CheckDefinition) (profile : ScanProfile)
    → may_run check profile ≡ none
    → (contains profile.mode check.modes ≡ true)
      × (contains check.id profile.allowed_checks ≡ true)
      × (check.activity ≡ active_safe → profile.allow_active_safe ≡ true)
      × (check.authorization ≡ deep → profile.mode ≡ verified_deep_audit)
unfolding may_run
may_run_tests check profile h = ground (
  arith,
  activity_key.same_iff check.activity active_safe,
  level_key.same_iff check.authorization deep,
  mode_key.same_iff profile.mode verified_deep_audit,
)

module _ (parse_url : String → Option Url) (input : Input) where
  -- A sound check that passed the gates: a deep one runs only in a deep audit that was authorized
  -- as such, and an active-safe one only where the profile allows it, outside of public audits and
  -- above the public level.
  pub cleared_levels :
      (check : CheckDefinition) (world : World)
      → IsSound check
      → IsCleared parse_url input check world
      → (check.authorization ≡ deep
          → (input.profile.mode ≡ verified_deep_audit) × (input.authorization ≡ allowed deep))
        × (check.activity ≡ active_safe
            → (input.profile.allow_active_safe ≡ true)
              × (input.profile.mode ≢ public_audit)
              × ((l : Level) × (input.authorization ≡ allowed l) × (l ≢ public)))
  cleared_levels check world sound cleared =
      let (l, e, to_deep, above) =
        authorized_level input.authorization input.profile.mode cleared.authorized in
      let (mode, listed, active, deep_mode) =
        may_run_tests check input.profile cleared.profile_allows in
      (
        λ d. (deep_mode d, e ∙ ap allowed (to_deep (deep_mode d))),
        λ a.
            let not_public = contains-not_public _ check.modes mode (sound.active_only a).1 in
            (active a, not_public, (l, e, above not_public)),
      )
