-- ===== src/ScanEngine/Registry.antt =====
-- apps/worker/src/scan-engine/check-registry.ts: the checks that a scan may run, by their IDs.
pub mod Sound
pub mod Sample
mod Tests
use webprobe.Base.{
  ℕ, String, Bool, true, false, not, ◌&&◌, ◌||◌, Option, none, some, List, [], ◌∷◌, map,
  if◌then◌else◌, ◌==◌, string_key, contains, any, all, filter, Result, ok, throw, ◌>>=◌, ◌>>◌,
  throw_if, get, put, ltb, leb, eqb, length, Key, key_of_discrete,
}
use webprobe.Base.Text.{Text, codes, split_on, is_lower, is_digit}
use webprobe.Base.Value.{Number, nat, other, is_safe_count, is_some}
use webprobe.ScanEngine.Types.{
  ScanMode, public_audit, verified_monitoring, verified_deep_audit, mode_key, active_safe_checks,
  budget_kinds,
}
use webprobe.ScanEngine.Authorization.{Level, public, verified, deep}
use webprobe.ScanEngine.Budget.{Costs, cost_of, count_of, is_cost_valid}

pub data Activity : Type 0 where
  passive active_safe : Activity

unfoldable pub Activity-discrete : Discrete Activity
Activity-discrete = hlevel

unfoldable pub Level-discrete : Discrete Level
Level-discrete = hlevel

instance abbrev pub activity_key : Key Activity
activity_key = key_of_discrete Activity-discrete

instance abbrev pub level_key : Key Level
level_key = key_of_discrete Level-discrete

-- `analyze` is what the environment of a run answers: see Engine.
pub record CheckDefinition : Type 0 where
  pub id : String
  pub version : String
  pub category : String
  pub authorization : Level
  pub activity : Activity
  pub modes : List ScanMode
  pub budget : Costs
  pub required_observations : Option (List String)
  pub timeout_ms : Number
  pub remediation : Option String

abbrev pub Checks : Type 0
Checks = List (String × CheckDefinition)

-- `/^[a-z][a-z0-9-]{least,79}$/`
unfoldable pub is_name : ℕ → Text → Bool
is_name least [] = false
is_name least (c ∷ s) =
    is_lower c
    && leb least (length s)
    && leb (length s) 79
    && all (λ d. is_lower d || is_digit d || eqb d b'-') s

abbrev is_digits : Text → Bool
is_digits s = ltb 0 (length s) && all is_digit s

-- `/^\d+\.\d+\.\d+$/`
unfoldable pub is_version : Text → Bool
unfolding split_on
is_version s = all is_digits (split_on b'.' s) && eqb (length (split_on b'.' s)) 3

-- `requiredObservations?.some(...)`
abbrev pub has_bad_key : Option (List String) → Bool
has_bad_key none = false
has_bad_key (some keys) = any (λ key. not (is_name 0 (codes key))) keys

abbrev pub valid_modes : List ScanMode
valid_modes = public_audit ∷ verified_monitoring ∷ verified_deep_audit ∷ []

abbrev pub is_timeout_bad : Number → Bool
is_timeout_bad n = not (is_safe_count n) || leb (count_of n) 0 || ltb 60_000 (count_of n)

pub is_authorization_bad : CheckDefinition → Bool
is_authorization_bad check =
    eqb (length check.modes) 0
    || any (λ m. not (contains m valid_modes)) check.modes
    || (check.authorization == deep && any (λ m. not (m == verified_deep_audit)) check.modes)
    || (check.authorization == verified && contains public_audit check.modes)
    || (check.activity == active_safe
        && (check.authorization == public || contains public_audit check.modes))

-- An amount that is no count throws, here or at the next test.
pub is_unpaid : CheckDefinition → Bool
is_unpaid check = check.activity == active_safe && ltb (cost_of check.budget active_safe_checks) 1

pub register : Checks → CheckDefinition → Result Checks
register checks check = do
  throw_if (not (is_name 1 (codes check.id)) || not (is_version (codes check.version)))
      "Invalid check identity"
  throw_if (is_some (get check.id checks)) "Duplicate check ID"
  throw_if (is_timeout_bad check.timeout_ms) "Invalid check timeout"
  throw_if (has_bad_key check.required_observations) "Invalid check observation key"
  throw_if (is_authorization_bad check) "Invalid check authorization"
  throw_if (is_unpaid check) "Active-safe checks must reserve active-safe budget"
  throw_if (not (all (λ k. is_cost_valid (check.budget k)) budget_kinds)) "Invalid check budget"
  ok (put check.id check checks)

unfoldable pub list_all : Checks → List CheckDefinition
list_all checks = map (λ e. e.1) checks

pub list : Checks → ScanMode → List CheckDefinition
unfolding list_all
list checks mode = filter (λ check. contains mode check.modes) (list_all checks)
