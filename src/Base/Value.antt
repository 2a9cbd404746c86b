-- ===== src/Base/Value.antt =====
-- Values of the dynamic language: numbers, dates, and the JSON that a scan's summary holds.
use Prim.Native.Nat.{ℕ, ◌+◌}
use Prim.Native.String.{String}
use mathlib.Core.Bool.{Bool, true, false, not}
use mathlib.Core.Option.{Option, none, some}
use mathlib.Core.List.{List, [], ◌∷◌}
use webprobe.Base.Tests.{leb, ltb, if◌then◌else◌}
use webprobe.Base.Keyed.{◌==◌, string_key}

-- `number`: a nonnegative integer, or one of the others (negative, fractional, infinite, NaN),
-- which the modelled code only tells apart from the first.
pub data Number : Type 0 where
  nat : ℕ → Number
  other : Number

-- `Number.MAX_SAFE_INTEGER`
abbrev pub max_safe_integer : ℕ
max_safe_integer = 9_007_199_254_740_991

-- `Number.isSafeInteger(value) && value >= 0`
abbrev pub is_safe_count : Number → Bool
is_safe_count (nat n) = leb n max_safe_integer
is_safe_count other = false

-- A parsed JSON value; `undefined` is a property that is not there.
mutual
  pub data Value : Type 0 where
    null : Value
    bool : Bool → Value
    number : Number → Value
    string : String → Value
    array : Elements → Value
    object : Entries → Value

  pub data Elements : Type 0 where
    no_element : Elements
    element : Value → Elements → Elements

  pub data Entries : Type 0 where
    no_entry : Entries
    entry : String → Value → Entries → Entries

abbrev pub to_list : Elements → List Value
to_list no_element = []
to_list (element v vs) = v ∷ to_list vs

abbrev pub get_entry : String → Entries → Option Value
get_entry k no_entry = none
get_entry k (entry j v fs) = if j == k then some v else get_entry k fs

-- `value?.[key]`, where the result of `record` is null for what is no object. An array has no
-- property under the keys that the code reads.
abbrev pub property : String → Option Value → Option Value
property k (some (object fs)) = get_entry k fs
property k _ = none

-- A `Date` by its `getTime()`: milliseconds since the epoch, or NaN. Every comparison with NaN fails.
pub data Date : Type 0 where
  at : ℕ → Date
  invalid : Date

abbrev pub is_valid_date : Date → Bool
is_valid_date (at t) = true
is_valid_date invalid = false

-- `a < b` and `a <= b`
abbrev pub before : Date → Date → Bool
before (at a) (at b) = ltb a b
before _ _ = false

abbrev pub not_after : Date → Date → Bool
not_after (at a) (at b) = leb a b
not_after _ _ = false

-- `a.getTime() - b.getTime() > ms`
abbrev pub elapsed_over : Date → Date → ℕ → Bool
elapsed_over (at a) (at b) ms = ltb (b + ms) a
elapsed_over _ _ ms = false

-- `!!text` of a text that may be null
abbrev pub is_given : Option String → Bool
is_given none = false
is_given (some s) = not (s == "")

abbrev pub is_some {ℓ} : {A : Type ℓ} → Option A → Bool
is_some none = false
is_some (some _) = true
