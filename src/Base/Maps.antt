-- ===== src/Base/Maps.antt =====
-- JavaScript's `Map` with string keys, as the list of its entries in the order of insertion, and
-- its `Set` of strings as the list of its elements.
use mathlib.Core.Path.{◌≡◌, refl}
use mathlib.Core.Logic.{inl, inr}
use mathlib.Core.Bool.{Bool, false, not, ◌&&◌}
use mathlib.Core.Option.{Option, none, some}
use mathlib.Core.List.{List, [], ◌∷◌, ◌++◌, append-nil}
use native.Mathlib.Omega.{arith}
use text.Mathlib.Text.{◌==◌}
use text.Mathlib.TextEquality.{eq_iff}
use Prim.Native.String.{String}
use fluxip.Base.Tests.{if◌then◌else◌, Bool-cases}
use fluxip.Base.Texts.{contains}
use fluxip.Base.Lists.{filter, filter-append}

abbrev pub Map {ℓ} : Type ℓ → Type ℓ
Map V = List (String × V)

module _ {ℓ} {V : Type ℓ} where
  unfoldable pub lookup : String → Map V → Option V
  lookup k [] = none
  lookup k ((j, v) ∷ m) = if j == k then some v else lookup k m

  -- `map.set(k, v)`: a key that is there keeps its place.
  unfoldable pub put : String → V → Map V → Map V
  put k v [] = (k, v) ∷ []
  put k v ((j, w) ∷ m) = if j == k then (j, v) ∷ m else (j, w) ∷ put k v m

  -- `map.delete(k)`
  unfoldable pub remove : String → Map V → Map V
  remove k [] = []
  remove k ((j, w) ∷ m) = let rest = remove k m in if j == k then rest else (j, w) ∷ rest

  pub lookup-put :
      (k j : String) (v : V) (m : Map V)
      → lookup j (put k v m) ≡ (if k == j then some v else lookup j m)
  unfolding lookup put
  lookup-put k j v [] = refl
  lookup-put k j v ((i, w) ∷ m) =
      ground (arith, eq_iff k j, eq_iff i k, eq_iff i j, lookup-put k j v m)

  pub lookup-remove :
      (k j : String) (m : Map V) → lookup j (remove k m) ≡ (if k == j then none else lookup j m)
  unfolding lookup remove
  lookup-remove k j [] = ground arith
  lookup-remove k j ((i, w) ∷ m) =
      ground (arith, eq_iff k j, eq_iff i k, eq_iff i j, lookup-remove k j m)

-- `[...new Set(xs)]`, also SQL's `DISTINCT`: each element once, in the order of the first ones.
unfoldable pub distinct : List String → List String
distinct [] = []
distinct (x ∷ xs) = x ∷ filter (λ y. not (y == x)) (distinct xs)

abbrev pub NoRepeats : List String → Type 0
NoRepeats [] = Unit
NoRepeats (x ∷ xs) = (contains xs x ≡ false) × NoRepeats xs

contains-filter_ne :
    (x s : String) (xs : List String)
    → contains (filter (λ y. not (y == x)) xs) s ≡ (contains xs s && not (s == x))
contains-filter_ne x s [] = refl
contains-filter_ne x s (y ∷ ys) =
    ground (arith, eq_iff y x, eq_iff y s, eq_iff s x, contains-filter_ne x s ys)

contains-filter-false :
    (p : String → Bool) (xs : List String) (s : String)
    → contains xs s ≡ false
    → contains (filter p xs) s ≡ false
contains-filter-false p [] s h = refl
contains-filter-false p (x ∷ xs) s h = ground (arith, contains-filter-false p xs s)

pub NoRepeats-filter :
    (p : String → Bool) (xs : List String) → NoRepeats xs → NoRepeats (filter p xs)
NoRepeats-filter p [] h = tt
NoRepeats-filter p (x ∷ xs) h = elim (Bool-cases (p x)) [
  | inl y ↦ rw y (contains-filter-false p xs x h.0, NoRepeats-filter p xs h.1)
  | inr n ↦ rw n (NoRepeats-filter p xs h.1)
]

pub contains-distinct : (xs : List String) (s : String) → contains (distinct xs) s ≡ contains xs s
unfolding distinct
contains-distinct [] s = refl
contains-distinct (x ∷ xs) s =
    ground
      (arith, eq_iff x s, eq_iff s x, contains-filter_ne x s (distinct xs), contains-distinct xs s)

pub distinct-NoRepeats : (xs : List String) → NoRepeats (distinct xs)
unfolding distinct
distinct-NoRepeats [] = tt
distinct-NoRepeats (x ∷ xs) = (
  ground (arith, eq_iff x x, contains-filter_ne x x (distinct xs)),
  NoRepeats-filter (λ y. not (y == x)) (distinct xs) (distinct-NoRepeats xs),
)

-- A new element comes last, a known one leaves the set as it is.
pub distinct-append :
    (xs : List String) (x : String)
    → distinct (xs ++ x ∷ []) ≡ (if contains xs x then distinct xs else distinct xs ++ x ∷ [])
unfolding distinct
distinct-append [] x = refl
distinct-append (y ∷ ys) x = ground (
  arith,
  distinct-append ys x,
  filter-append (λ (z : String). not (z == y)) (distinct ys) (x ∷ []),
  append-nil (filter (λ (z : String). not (z == y)) (distinct ys)),
  eq_iff y x,
  eq_iff x y,
)
