-- ===== src/ScanEngine/Registry/Tests.antt =====
-- Witnesses of the registry.
use webprobe.Base.{◌≡◌, ◌++◌, none, [], ◌∷◌, get, String, string_key}
use webprobe.ScanEngine.Registry.{CheckDefinition}
use webprobe.ScanEngine.Registry.Sample.{options_check, registry, registered}
use webprobe.ScanEngine.Registry.Sound.{IsSound, AllSound, register_lem, register-AllSound}

register_lem_example :
    IsSound options_check
    × (get {K = String} {V = CheckDefinition} "deep-options" [] ≡ none)
    × (registry ≡ [] ++ ("deep-options", options_check) ∷ [])
register_lem_example = register_lem [] registry options_check registered

register-AllSound_example : AllSound registry
register-AllSound_example = register-AllSound [] registry options_check tt registered
