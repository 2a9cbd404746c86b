-- ===== src/Base/Keyed.antt =====
-- Sets and maps in insertion order, over keys with an equality test: `Set` and `Map` of the source.
use Prim.Native.Nat.{ℕ}
use Prim.Native.String.{String}
use mathlib.Core.Path.{◌≡◌, refl}
use mathlib.Core.Logic.{◌↔◌, inl, inr}
use mathlib.Core.Bool.{Bool, true, false, ◌||◌}
use mathlib.Core.List.{List, [], ◌∷◌, ◌++◌}
use mathlib.Core.Option.{Option, none, some}
use native.Mathlib.Omega.{arith}
use text.Mathlib.Text.{◌==◌ as str_eq}
use text.Mathlib.TextEquality.{eq_iff}
use webprobe.Base.Tests.{if◌then◌else◌, eqb, eqb_iff, Bool-cases}

-- What a `Set` or a `Map` of the source needs of its keys: the test `===`.
pub record Key {ℓ} (K : Type ℓ) : Type ℓ where
  pub same : K → K → Bool
  pub same_iff : (j k : K) → (same j k ≡ true) ↔ (j ≡ k)

instance abbrev pub string_key : Key String
string_key = record { same = str_eq; same_iff = eq_iff }

instance abbrev pub nat_key : Key ℕ
nat_key = record { same = eqb; same_iff = eqb_iff }

infix 50 ◌==◌
abbrev pub ◌==◌ {ℓ} : {K : Type ℓ} ⦃key : Key K⦄ → K → K → Bool
◌==◌ ⦃key⦄ j k = key.same j k

module _ {ℓ} {A : Type ℓ} (d : Discrete A) where
  abbrev pub decided : A → A → Bool
  decided a b = elim (d a b) [ yes _ ↦ true | no _ ↦ false ]

  pub decided_iff : (a b : A) → (decided a b ≡ true) ↔ (a ≡ b)
  decided_iff a b = ground arith

  -- The test of a type whose equality is decided.
  abbrev pub key_of_discrete : Key A
  key_of_discrete = record { same = decided; same_iff = decided_iff }

module _ {ℓ} {A : Type ℓ} ⦃key : Key A⦄ where
  -- `set.has(a)`, `list.includes(a)`
  unfoldable pub contains : A → List A → Bool
  contains a [] = false
  contains a (x ∷ xs) = x == a || contains a xs

  -- `set.add(a)`
  unfoldable pub add : A → List A → List A
  add a xs = if contains a xs then xs else xs ++ a ∷ []

  pub ==_refl : (a : A) → (a == a) ≡ true
  ==_refl a = (key.same_iff a a).1 refl

  contains-append_self : (a : A) (xs : List A) → contains a (xs ++ a ∷ []) ≡ true
  unfolding contains
  contains-append_self a [] = ground (arith, ==_refl a)
  contains-append_self a (x ∷ xs) = ground (arith, contains-append_self a xs)

  contains-append_left :
      (a : A) (xs ys : List A) → contains a xs ≡ true → contains a (xs ++ ys) ≡ true
  unfolding contains
  contains-append_left a [] ys h = cc
  contains-append_left a (x ∷ xs) ys h = ground (arith, contains-append_left a xs ys)

  pub contains-add_self : (a : A) (xs : List A) → contains a (add a xs) ≡ true
  unfolding add
  contains-add_self a xs = ground (arith, contains-append_self a xs)

  pub contains-add_mono :
      (a b : A) (xs : List A) → contains a xs ≡ true → contains a (add b xs) ≡ true
  unfolding add
  contains-add_mono a b xs h = ground (arith, contains-append_left a xs (b ∷ []))

module _ {ℓ} {A : Type ℓ} ⦃key : Key A⦄ where
  contains-append :
      (a : A) (xs ys : List A) → contains a (xs ++ ys) ≡ (contains a xs || contains a ys)
  unfolding contains
  contains-append a [] ys = refl
  contains-append a (x ∷ xs) ys = ground (arith, contains-append a xs ys)

  pub contains-add : (a b : A) (xs : List A) → contains a (add b xs) ≡ (b == a || contains a xs)
  contains-add a b xs = elim (Bool-cases (b == a)) [
    | inl same ↦ rw (same, (key.same_iff b a).0 same) (contains-add_self a xs)
    | inr differ ↦ elim (Bool-cases (contains b xs)) [
      | inl old ↦ rw differ (unfold add in (rw old))
      | inr new ↦ rw differ (
          unfold add in
          (rw new
            (rw (contains-append a xs (b ∷ [])) (unfold contains in (ground (arith, differ))))))
    ]
  ]

module _ {ℓ κ} {K : Type ℓ} ⦃key : Key K⦄ {V : Type κ} where
  -- `map.get(k)`
  unfoldable pub get : K → List (K × V) → Option V
  get k [] = none
  get k ((j, v) ∷ m) = if j == k then some v else get k m

  -- `map.set(k, v)`: a key that is there keeps its place.
  unfoldable pub put : K → V → List (K × V) → List (K × V)
  put k v [] = (k, v) ∷ []
  put k v ((j, w) ∷ m) = if j == k then (j, v) ∷ m else (j, w) ∷ put k v m

  pub get-put :
      (k j : K) (v : V) (m : List (K × V))
      → get j (put k v m) ≡ (if k == j then some v else get j m)
  unfolding get put
  get-put k j v [] = refl
  get-put k j v ((i, w) ∷ m) =
      ground (arith, key.same_iff k j, key.same_iff i k, key.same_iff i j, get-put k j v m)

  pub put_absent :
      (k : K) (v : V) (m : List (K × V)) → get k m ≡ none → put k v m ≡ m ++ (k, v) ∷ []
  unfolding get put
  put_absent k v [] h = refl
  put_absent k v ((j, w) ∷ m) h = ground (arith, put_absent k v m)
