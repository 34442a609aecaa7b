-- ===== src/Prelude/Maps.antt =====
-- Go maps with string keys. The program never depends on the order in which a map is ranged over,
-- except where a definition takes the list of its entries.
use mathlib.Core.Path.{◌≡◌, refl}
use mathlib.Core.Bool.{Bool}
use mathlib.Core.Option
use mathlib.Core.Option.{Option, none, some}
use mathlib.Core.List.{List, [], ◌∷◌}
use native.Mathlib.Omega.{arith}
use meemaw.Prelude.Tests.{if◌then◌else◌}
use meemaw.Prelude.Text.{Str, str_eq, str_eq_iff}

abbrev pub Dict {ℓ} : Type ℓ → Type ℓ
Dict V = List (Str × V)

module _ {ℓ} {V : Type ℓ} where
  unfoldable pub lookup : Str → Dict V → Option V
  lookup k [] = none
  lookup k ((j, v) ∷ m) = if str_eq j k then some v else lookup k m

  unfoldable pub insert : Str → V → Dict V → Dict V
  insert k v [] = (k, v) ∷ []
  insert k v ((j, w) ∷ m) = if str_eq j k then (k, v) ∷ m else (j, w) ∷ insert k v m

  -- `for key, value := range m { to[key] = value }`.
  unfoldable pub merge : Dict V → Dict V → Dict V
  merge [] to = to
  merge ((k, v) ∷ m) to = insert k v (merge m to)

  -- `for key, value := range m { if p(key) { out[key] = value } }` into an empty map.
  unfoldable pub keep_keys : (Str → Bool) → Dict V → Dict V
  keep_keys p [] = []
  keep_keys p ((k, v) ∷ m) = let rest = keep_keys p m in if p k then insert k v rest else rest

  abbrev pub HasKey : Str → Dict V → Type ℓ
  HasKey k m = (v : V) × (lookup k m ≡ some v)

  pub lookup-insert :
      (k j : Str) (v : V) (m : Dict V)
      → lookup j (insert k v m) ≡ (if str_eq k j then some v else lookup j m)
  unfolding lookup insert
  lookup-insert k j v [] = refl
  lookup-insert k j v ((i, w) ∷ m) =
      ground (arith, str_eq_iff k j, str_eq_iff i k, str_eq_iff i j, lookup-insert k j v m)

  abbrev pub or_else : Option V → Option V → Option V
  or_else (some v) o = some v
  or_else none o = o

  pub lookup-nil : (j : Str) → lookup j [] ≡ none
  unfolding lookup
  lookup-nil j = refl

  pub lookup-merge :
      (j : Str) (m to : Dict V) → lookup j (merge m to) ≡ or_else (lookup j m) (lookup j to)
  unfolding lookup merge
  lookup-merge j [] to = refl
  lookup-merge j ((k, v) ∷ m) to =
      ground (arith, lookup-insert k j v (merge m to), lookup-merge j m to)

  pub lookup-keep_keys :
      (p : Str → Bool) (j : Str) (m : Dict V)
      → lookup j (keep_keys p m) ≡ (if p j then lookup j m else none)
  unfolding lookup keep_keys
  lookup-keep_keys p j [] = ground arith
  lookup-keep_keys p j ((k, v) ∷ m) =
      ground (arith, lookup-insert k j v (keep_keys p m), lookup-keep_keys p j m, str_eq_iff k j)

  pub ruleset dict_laws = (lookup-insert, lookup-merge, lookup-keep_keys)

module _ {ℓ κ} {V : Type ℓ} {W : Type κ} where
  -- `for key, value := range m { out[key] = f(value) }` into an empty map.
  unfoldable pub map_values : (V → W) → Dict V → Dict W
  map_values f [] = []
  map_values f ((k, v) ∷ m) = insert k (f v) (map_values f m)

  pub lookup-map_values :
      (f : V → W) (j : Str) (m : Dict V) → lookup j (map_values f m) ≡ Option.map f (lookup j m)
  unfolding lookup map_values
  lookup-map_values f j [] = refl
  lookup-map_values f j ((k, v) ∷ m) =
      ground (arith, lookup-insert k j (f v) (map_values f m), lookup-map_values f j m)
