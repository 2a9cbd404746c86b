-- ===== src/ScanEngine/Registry/Sound.antt =====
-- check-registry.ts: what is known of a check that was registered.
use webprobe.Base.{
  ℕ, ◌≤◌, ◌<◌, ◌≡◌, ◌≢◌, refl, ◌∙◌, true, false, not, none, List, [], ◌∷◌, ◌++◌, arith, ◌==◌,
  string_key, contains, any, All, ok, get, put, put_absent,
}
use webprobe.Base.Text.{codes}
use webprobe.Base.Value.{Number, nat, other}
use webprobe.ScanEngine.Types.{
  ScanMode, public_audit, verified_deep_audit, mode_key, active_safe_checks,
}
use webprobe.ScanEngine.Authorization.{public, verified, deep}
use webprobe.ScanEngine.Budget.{cost_of}
use webprobe.ScanEngine.Budget.Charge.{AreCostsValid}
use webprobe.ScanEngine.Registry.{
  CheckDefinition, Checks, active_safe, activity_key, level_key, is_name, is_version,
  is_timeout_bad, is_authorization_bad, is_unpaid, register,
}

-- The rules between a check's authorization, its activity, its modes and its price.
pub record IsSound (c : CheckDefinition) : Type 0 where
  pub named : is_name 1 (codes c.id) ≡ true
  pub versioned : is_version (codes c.version) ≡ true
  pub timed : (n : ℕ) × (c.timeout_ms ≡ nat n) × (0 < n) × (n ≤ 60_000)
  pub priced : AreCostsValid c.budget
  pub has_mode : c.modes ≢ []
  pub deep_only : c.authorization ≡ deep → All (λ m. m ≡ verified_deep_audit) c.modes
  pub verified_only : c.authorization ≡ verified → All (λ m. m ≢ public_audit) c.modes
  pub active_only :
      c.activity ≡ active_safe
      → (c.authorization ≢ public)
        × All (λ m. m ≢ public_audit) c.modes
        × (1 ≤ cost_of c.budget active_safe_checks)

All-deep :
    (ms : List ScanMode)
    → any (λ m. not (m == verified_deep_audit)) ms ≡ false
    → All (λ m. m ≡ verified_deep_audit) ms
All-deep [] h = tt
All-deep (m ∷ ms) h =
    (ground (arith, mode_key.same_iff m verified_deep_audit), All-deep ms (ground arith))

All-not_public :
    (ms : List ScanMode) → contains public_audit ms ≡ false → All (λ m. m ≢ public_audit) ms
unfolding contains
All-not_public [] h = tt
All-not_public (m ∷ ms) h =
    (ground (arith, mode_key.same_iff m public_audit), All-not_public ms (ground arith))

authorization_rules :
    (c : CheckDefinition)
    → is_authorization_bad c ≡ false
    → (c.modes ≢ [])
      × (c.authorization ≡ deep → All (λ m. m ≡ verified_deep_audit) c.modes)
      × (c.authorization ≡ verified → All (λ m. m ≢ public_audit) c.modes)
      × (c.activity ≡ active_safe
          → (c.authorization ≢ public) × All (λ m. m ≢ public_audit) c.modes)
unfolding is_authorization_bad
authorization_rules c h = (
  ground arith,
  (λ e. All-deep c.modes (ground (arith, level_key.same_iff c.authorization deep))),
  (λ e. All-not_public c.modes (ground (arith, level_key.same_iff c.authorization verified))),
  λ e. (
    ground (
      arith,
      activity_key.same_iff c.activity active_safe,
      level_key.same_iff c.authorization public,
    ),
    All-not_public c.modes (ground (arith, activity_key.same_iff c.activity active_safe)),
  ),
)

paid :
    (c : CheckDefinition)
    → is_unpaid c ≡ false
    → c.activity ≡ active_safe
    → 1 ≤ cost_of c.budget active_safe_checks
unfolding is_unpaid
paid c h e = ground (arith, activity_key.same_iff c.activity active_safe)

timeout_bounds :
    (t : Number) → is_timeout_bad t ≡ false → (n : ℕ) × (t ≡ nat n) × (0 < n) × (n ≤ 60_000)
timeout_bounds (nat n) h = (n, refl, ground arith, ground arith)
timeout_bounds other h = cc

-- The tests that `register` passed, and what it then did.
pub register_tests :
    (checks after : Checks) (c : CheckDefinition)
    → register checks c ≡ ok after
    → (is_name 1 (codes c.id) ≡ true)
      × (is_version (codes c.version) ≡ true)
      × (get c.id checks ≡ none)
      × (is_timeout_bad c.timeout_ms ≡ false)
      × (is_authorization_bad c ≡ false)
      × (is_unpaid c ≡ false)
      × AreCostsValid c.budget
      × (after ≡ put c.id c checks)
unfolding register
register_tests checks after c e = ground arith

-- A check that is registered is sound and new, and goes to the end of the list.
pub register_lem :
    (checks after : Checks) (c : CheckDefinition)
    → register checks c ≡ ok after
    → IsSound c × (get c.id checks ≡ none) × (after ≡ checks ++ (c.id, c) ∷ [])
register_lem checks after c e =
    let (name, version, new, timeout, auth, price, costs, stored) =
      register_tests checks after c e in
    let (modes, deep_rule, verified_rule, active_rule) = authorization_rules c auth in
    (
      record {
        named = name;
        versioned = version;
        timed = timeout_bounds c.timeout_ms timeout;
        priced = costs;
        has_mode = modes;
        deep_only = deep_rule;
        verified_only = verified_rule;
        active_only = λ a. ((active_rule a).0, (active_rule a).1, paid c price a);
      },
      new,
      stored ∙ put_absent c.id c checks new,
    )

-- Every entry stands under its own ID, and is sound.
abbrev pub AllSound : Checks → Type 0
AllSound = All (λ e. (e.0 ≡ e.1.id) × IsSound e.1)

All-concat {ℓ κ} :
    {A : Type ℓ} (P : A → Type κ) (xs : List A) (x : A) → All P xs → P x → All P (xs ++ x ∷ [])
All-concat P [] x h p = (p, tt)
All-concat P (y ∷ xs) x h p = (h.0, All-concat P xs x h.1 p)

-- Whatever is registered, all checks of the registry stand under their own IDs and are sound.
pub register-AllSound :
    (checks after : Checks) (c : CheckDefinition)
    → AllSound checks
    → register checks c ≡ ok after
    → AllSound after
register-AllSound checks after c h e =
    let (sound, _, end) = register_lem checks after c e in
    rw end (All-concat _ checks (c.id, c) h (refl, sound))
