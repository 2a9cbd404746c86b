-- ===== src/ScanEngine/Registry/Sample.antt =====
-- A check that the tests of the registry and of the engine share: active-safe, for the deep audit.
use webprobe.Base.{◌≡◌, refl, some, none, [], ◌∷◌, ok, get, put, contains}
use webprobe.Base.Value.{nat}
use webprobe.ScanEngine.Types.{active_safe_checks, verified_deep_audit, ScanMode-discrete}
use webprobe.ScanEngine.Authorization.{deep}
use webprobe.ScanEngine.Budget.{one_cost}
use webprobe.ScanEngine.Registry.{
  CheckDefinition, Checks, active_safe, register, is_name, is_version, is_authorization_bad,
  is_unpaid, Activity-discrete, Level-discrete,
}
use webprobe.ScanEngine.Registry.Sound.{IsSound, AllSound, register_lem, register-AllSound}

abbrev pub options_check : CheckDefinition
options_check = record {
  id = "deep-options";
  version = "1.0.0";
  category = "endpoints";
  authorization = deep;
  activity = active_safe;
  modes = verified_deep_audit ∷ [];
  budget = one_cost active_safe_checks (nat 1);
  required_observations = some ("http" ∷ []);
  timeout_ms = nat 5_000;
  remediation = none;
}

abbrev pub registry : Checks
registry = ("deep-options", options_check) ∷ []

pub registered : register [] options_check ≡ ok registry
unfolding register is_name is_version get put contains is_authorization_bad is_unpaid
    ScanMode-discrete Activity-discrete Level-discrete
registered = refl

pub registry-AllSound : AllSound registry
registry-AllSound = register-AllSound [] registry options_check tt registered

pub options_check-IsSound : IsSound options_check
options_check-IsSound = (register_lem [] registry options_check registered).0
