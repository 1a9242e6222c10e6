-- ===== src/Base/Dict.antt =====
-- `std::unordered_map` and `std::map` keyed by ids, as association lists. The order of the list is
-- the order in which a loop visits the map.
use mathlib.Core.Path.{◌≡◌, refl}
use mathlib.Core.Bool.{Bool, true, false}
use mathlib.Core.Option.{Option, none, some}
use mathlib.Core.List.{List, [], ◌∷◌, ◌++◌}
use native.Mathlib.Omega.{arith}
use compact_phone.Base.Test.{if◌then◌else◌}
use compact_phone.Base.Int.{ℤ, z_eq, z_eq_iff}

abbrev pub Dict {ℓ} : Type ℓ → Type ℓ
Dict V = List (ℤ × V)

module _ {ℓ} {V : Type ℓ} where
  -- `find`
  unfoldable pub lookup : ℤ → Dict V → Option V
  lookup k [] = none
  lookup k ((j, v) ∷ d) = if z_eq j k then some v else lookup k d

  -- `d[k] = v`
  unfoldable pub insert : ℤ → V → Dict V → Dict V
  insert k v [] = (k, v) ∷ []
  insert k v ((j, w) ∷ d) = if z_eq j k then (j, v) ∷ d else (j, w) ∷ insert k v d

  -- `d.erase(k)`
  unfoldable pub erase : ℤ → Dict V → Dict V
  erase k [] = []
  erase k ((j, w) ∷ d) = let rest = erase k d in if z_eq j k then rest else (j, w) ∷ rest

  -- A write through the iterator of key `k`.
  unfoldable pub modify : ℤ → (V → V) → Dict V → Dict V
  modify k f [] = []
  modify k f ((j, w) ∷ d) = if z_eq j k then (j, f w) ∷ d else (j, w) ∷ modify k f d

  -- `find(k) != end()`
  abbrev pub is_some : Option V → Bool
  is_some none = false
  is_some (some v) = true

  -- `d.emplace(k, v)`: an entry that is there stays.
  unfoldable pub emplace : ℤ → V → Dict V → Dict V
  emplace k v d = if is_some (lookup k d) then d else d ++ (k, v) ∷ []

  lookup-snoc :
      (j k : ℤ) (v : V) (d : Dict V)
      → lookup j (d ++ (k, v) ∷ [])
        ≡ (if is_some (lookup j d) then lookup j d else if z_eq k j then some v else none)
  unfolding lookup
  lookup-snoc j k v [] = refl
  lookup-snoc j k v ((i, w) ∷ d) = ground (arith, lookup-snoc j k v d)

  pub lookup-insert :
      (j k : ℤ) (v : V) (d : Dict V)
      → lookup j (insert k v d) ≡ (if z_eq k j then some v else lookup j d)
  unfolding lookup insert
  lookup-insert j k v [] = refl
  lookup-insert j k v ((i, w) ∷ d) =
      ground (arith, z_eq_iff k j, z_eq_iff i k, z_eq_iff i j, lookup-insert j k v d)

  pub lookup-erase :
      (j k : ℤ) (d : Dict V) → lookup j (erase k d) ≡ (if z_eq k j then none else lookup j d)
  unfolding lookup erase
  lookup-erase j k [] = ground arith
  lookup-erase j k ((i, w) ∷ d) =
      ground (arith, z_eq_iff k j, z_eq_iff i k, z_eq_iff i j, lookup-erase j k d)

  abbrev pub map_option : (V → V) → Option V → Option V
  map_option f none = none
  map_option f (some v) = some (f v)

  pub lookup-modify :
      (j k : ℤ) (f : V → V) (d : Dict V)
      → lookup j (modify k f d) ≡ (if z_eq k j then map_option f (lookup j d) else lookup j d)
  unfolding lookup modify
  lookup-modify j k f [] = ground arith
  lookup-modify j k f ((i, w) ∷ d) =
      ground (arith, z_eq_iff k j, z_eq_iff i k, z_eq_iff i j, lookup-modify j k f d)

  pub lookup-emplace :
      (j k : ℤ) (v : V) (d : Dict V)
      → lookup j (emplace k v d)
        ≡ (if is_some (lookup j d) then lookup j d else if z_eq k j then some v else none)
  unfolding emplace
  lookup-emplace j k v d = ground (arith, z_eq_iff k j, lookup-snoc j k v d)
