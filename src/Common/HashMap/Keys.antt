-- ===== src/Common/HashMap/Keys.antt =====
-- A `HashMap` has one entry for a key. The operations keep that, and `retain` then is a filter on
-- what each key maps to.
use mathlib.Core.Logic.{◌⊎◌, inl, inr}
use sacn_rust.Common.HashMap.{get, insert, remove, retain, get-insert, get-remove}
use mathlib.Core.Path.{◌≡◌, refl}
use mathlib.Core.Bool.{Bool}
use mathlib.Core.Option.{Option, none, some}
use mathlib.Core.List.{List, [], ◌∷◌}
use native.Mathlib.Omega.{arith}
use sacn_rust.Common.Tests.{if◌then◌else◌}

-- The value, if it passes the test.
unfoldable pub keep : {V : Type 0} → (V → Bool) → Option V → Option V
keep test none = none
keep test (some v) = if test v then some v else none

module _ {K V : Type 0} (equal : Discrete K) where
  unfoldable pub HasDistinctKeys : List (K × V) → Type 0
  HasDistinctKeys [] = Unit
  HasDistinctKeys ((k, v) ∷ m) = (get equal k m ≡ none) × HasDistinctKeys m

  pub insert-HasDistinctKeys :
      (k : K) (v : V) (m : List (K × V)) → HasDistinctKeys m → HasDistinctKeys (insert equal k v m)
  unfolding HasDistinctKeys insert get
  insert-HasDistinctKeys k v [] h = (refl, tt)
  insert-HasDistinctKeys k v ((j, w) ∷ m) (p, h) =
      ground (arith, insert-HasDistinctKeys k v m, get-insert equal k j v m)

  pub remove-HasDistinctKeys :
      (k : K) (m : List (K × V)) → HasDistinctKeys m → HasDistinctKeys (remove equal k m)
  unfolding HasDistinctKeys remove
  remove-HasDistinctKeys k [] h = tt
  remove-HasDistinctKeys k ((j, w) ∷ m) (p, h) =
      ground (arith, remove-HasDistinctKeys k m, get-remove equal k j m)

  pub get-retain_absent :
      (test : V → Bool) (k : K) (m : List (K × V))
      → get equal k m ≡ none
      → get equal k (retain test m) ≡ none
  unfolding get retain
  get-retain_absent test k [] h = refl
  get-retain_absent test k ((j, w) ∷ m) h = ground (arith, get-retain_absent test k m)

  pub retain-HasDistinctKeys :
      (test : V → Bool) (m : List (K × V)) → HasDistinctKeys m → HasDistinctKeys (retain test m)
  unfolding HasDistinctKeys retain
  retain-HasDistinctKeys test [] h = tt
  retain-HasDistinctKeys test ((j, w) ∷ m) (p, h) =
      ground (arith, retain-HasDistinctKeys test m, get-retain_absent test j m)

  pub get-retain :
      (test : V → Bool) (k : K) (m : List (K × V))
      → HasDistinctKeys m
      → get equal k (retain test m) ≡ keep test (get equal k m)
  unfolding HasDistinctKeys get retain keep
  get-retain test k [] h = refl
  get-retain test k ((j, w) ∷ m) (p, h) =
      ground (arith, get-retain test k m, get-retain_absent test j m)

  pub get-head : (k : K) (v : V) (m : List (K × V)) → get equal k ((k, v) ∷ m) ≡ some v
  unfolding get
  get-head k v m = ground arith

  pub get-tail :
      (k j : K) (v w : V) (m : List (K × V))
      → get equal j m ≡ none
      → get equal k m ≡ some w
      → get equal k ((j, v) ∷ m) ≡ some w
  unfolding get
  get-tail k j v w m p q = ground arith

  -- Where an entry was found.
  pub get-cons-cases :
      (k j : K) (v w : V) (m : List (K × V))
      → get equal k ((j, v) ∷ m) ≡ some w
      → ((j ≡ k) × (v ≡ w)) ⊎ (get equal k m ≡ some w)
  unfolding get
  get-cons-cases k j v w m h = elim (equal j k) [
    | yes e ↦ inl (e, ground arith)
    | no e ↦ inr (ground arith)
  ]
