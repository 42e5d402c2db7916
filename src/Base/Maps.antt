-- ===== src/Base/Maps.antt =====
-- `std::map<std::string, V>` as the list of its entries in key order. `std::unordered_map` is
-- modelled by the same list where the program never depends on its order of iteration.
use Prim.Native.Nat.{Ordering}
use mathlib.Core.Path.{◌≡◌, refl}
use mathlib.Core.List.{List, [], ◌∷◌}
use mathlib.Core.Option.{Option, none, some}
use native.Mathlib.Omega.{arith}
use parser_framework.Base.Tests.{if◌then◌else◌, is_some}
use parser_framework.Base.Text.{Str, str_eq, str_eq_iff, compare_str, compare_str-eq_iff}

abbrev pub Map {ℓ} : Type ℓ → Type ℓ
Map V = List (Str × V)

module _ {ℓ} {V : Type ℓ} where
  -- `m.find(k)`
  unfoldable pub lookup : Str → Map V → Option V
  lookup k [] = none
  lookup k ((j, v) ∷ m) = if str_eq j k then some v else lookup k m

  -- `m[k] = v`
  unfoldable pub assign : Str → V → Map V → Map V
  assign k v [] = (k, v) ∷ []
  assign k v ((j, w) ∷ m) = elim (compare_str k j) [
    | Ordering.lt ↦ (k, v) ∷ (j, w) ∷ m
    | Ordering.eq ↦ (k, v) ∷ m
    | Ordering.gt ↦ (j, w) ∷ assign k v m
  ]

  -- `m.emplace(k, v)`, `m.insert({k, v})`: a key that is there keeps its value.
  unfoldable pub emplace : Str → V → Map V → Map V
  emplace k v m = if is_some (lookup k m) then m else assign k v m

  -- `m.insert(other.begin(), other.end())`
  unfoldable pub insert_all : Map V → Map V → Map V
  unfolding emplace
  insert_all [] m = m
  insert_all ((k, v) ∷ other) m = insert_all other (emplace k v m)

  pub lookup-assign :
      (k j : Str) (v : V) (m : Map V)
      → lookup j (assign k v m) ≡ (if str_eq k j then some v else lookup j m)
  unfolding lookup assign
  lookup-assign k j v [] = refl
  lookup-assign k j v ((i, w) ∷ m) = ground (
    arith,
    lookup-assign k j v m,
    compare_str-eq_iff k i,
    str_eq_iff k j,
    str_eq_iff i j,
    str_eq_iff i k,
  )

  pub lookup-emplace :
      (k j : Str) (v : V) (m : Map V)
      → lookup j (emplace k v m) ≡ (
          if str_eq k j
          then (elim (lookup k m) [ none ↦ some v | some w ↦ some w ])
          else lookup j m)
  unfolding emplace
  lookup-emplace k j v m = ground (arith, lookup-assign k j v m, str_eq_iff k j)

  -- `insert` never changes an entry that is there.
  pub lookup-insert_all_old :
      (other m : Map V) (k : Str) {v : V}
      → lookup k m ≡ some v
      → lookup k (insert_all other m) ≡ some v
  unfolding insert_all
  lookup-insert_all_old [] m k h = h
  lookup-insert_all_old ((j, w) ∷ other) m k h =
      lookup-insert_all_old other _ k (ground (arith, lookup-emplace j k w m, str_eq_iff j k))
