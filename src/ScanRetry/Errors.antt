-- ===== src/ScanRetry/Errors.antt =====
-- scan-retry.ts, `classifyScanError`. The texts are of one unit a character.
use text.Mathlib.Text.{starts_with}
use webprobe.Base.{
  String, Bool, true, false, ◌||◌, Option, none, some, List, [], ◌∷◌, map, any, if◌then◌else◌, ◌==◌,
  string_key, contains,
}
use webprobe.Base.Text.{Text, codes, begins, to_lower}
use webprobe.Contracts.Completeness.{take_chars}

pub record ScanErrorClassification : Type 0 where
  pub retryable : Bool
  pub code : String

-- What the tests see of a thrown value: its class, its `code` if that is a text, and the name and
-- the message of an `Error`.
pub data Thrown : Type 0 where
  context_error : String → Thrown
  zod_error : Thrown
  error : Option String → String → Text → Thrown
  other_value : Option String → Thrown

abbrev pub error_code : Option String → Option String
error_code none = none
error_code (some code) = some (take_chars 120 code)

abbrev pub retryable_codes : List String
retryable_codes =
    "EAI_AGAIN" ∷ "ECONNRESET" ∷ "ECONNREFUSED" ∷ "ETIMEDOUT" ∷ "ENETUNREACH" ∷ "EHOSTUNREACH"
    ∷ "EPIPE" ∷ "55P03" ∷ "57P01" ∷ "57P02" ∷ "57P03" ∷ []

abbrev pub is_retryable_code : String → Bool
is_retryable_code code =
    contains code retryable_codes
    || starts_with code "08"
    || starts_with code "40"
    || starts_with code "53"

abbrev pub transient_messages : List Text
transient_messages =
    codes "safe browser proxy did not bind"
    ∷ codes "initial browser navigation failed"
    ∷ codes "browser has been closed"
    ∷ codes "target page, context or browser has been closed"
    ∷ []

abbrev pub finds : Text → Text → Bool
finds needle [] = begins needle []
finds needle (c ∷ text) = begins needle (c ∷ text) || finds needle text

-- The regular expression, with its flag `i`: only ASCII letters fold onto ASCII letters.
abbrev pub is_transient : Text → Bool
is_transient message = any (λ phrase. finds phrase (map to_lower message)) transient_messages

abbrev pub or_else : String → String → String
or_else s default = if s == "" then default else s

abbrev pub of_error : String → Text → ScanErrorClassification
of_error name message =
    if name == "TimeoutError" || name == "TargetClosedError"
    then record { retryable = true; code = name }
    else if is_transient message
    then record { retryable = true; code = "browser-runtime-transient" }
    else record { retryable = false; code = take_chars 120 (or_else name "scan-execution-failed") }

-- `if (code)`: an empty code is none.
abbrev pub by_code : Option String → ScanErrorClassification → ScanErrorClassification
by_code none rest = rest
by_code (some code) rest =
    if code == "" then rest else (record { retryable = is_retryable_code code; code = code })

pub classify_scan_error : Thrown → ScanErrorClassification
classify_scan_error (context_error code) = record { retryable = false; code = code }
classify_scan_error zod_error = record { retryable = false; code = "invalid-scan-job" }
classify_scan_error (error code name message) = by_code (error_code code) (of_error name message)
classify_scan_error (other_value code) =
    by_code (error_code code) (record { retryable = false; code = "scan-execution-failed" })
