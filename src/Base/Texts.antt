-- ===== src/Base/Texts.antt =====
-- JavaScript's tests on texts that may be missing.
use Prim.Native.String.{String}
use mathlib.Core.Path.{◌≡◌, refl}
use mathlib.Core.Logic.{◌↔◌}
use mathlib.Core.Bool.{Bool, true, false, not, ◌||◌}
use mathlib.Core.List.{List, [], ◌∷◌, ◌++◌}
use mathlib.Core.Option.{Option, none, some}
use native.Mathlib.Omega.{arith}
use text.Mathlib.Text.{◌==◌}
use text.Mathlib.TextEquality.{eq_iff}
use mathlib.Core.Logic.{inl, inr}
use mathlib.Core.Bool.{◌&&◌}
use mathlib.Core.Path.{ap}
use fluxip.Base.Tests.{Bool-cases}
use fluxip.Base.Lists.{filter}

-- `!!s` for a text: the empty one is falsy.
abbrev pub nonempty : String → Bool
nonempty s = not (s == "")

-- `!!s` for a text that may be null or undefined.
abbrev pub truthy : Option String → Bool
truthy none = false
truthy (some s) = nonempty s

-- `s === t` for texts that may be missing.
abbrev pub opt_eq : Option String → Option String → Bool
opt_eq none none = true
opt_eq (some s) (some t) = s == t
opt_eq _ _ = false

pub opt_eq_iff : (s t : Option String) → (opt_eq s t ≡ true) ↔ (s ≡ t)
opt_eq_iff none none = ground arith
opt_eq_iff none (some t) = ground arith
opt_eq_iff (some s) none = ground arith
opt_eq_iff (some s) (some t) = ground (arith, eq_iff s t)

-- `xs.includes(s)`, also `set.has(s)`
abbrev pub contains : List String → String → Bool
contains [] s = false
contains (x ∷ xs) s = x == s || contains xs s

pub contains-append :
    (xs ys : List String) (s : String) → contains (xs ++ ys) s ≡ (contains xs s || contains ys s)
contains-append [] ys s = refl
contains-append (x ∷ xs) ys s = ground (arith, contains-append xs ys s)

pub contains-filter :
    (p : String → Bool) (xs : List String) (s : String)
    → contains (filter p xs) s ≡ (contains xs s && p s)
contains-filter p [] s = refl
contains-filter p (x ∷ xs) s = elim (Bool-cases (x == s)) [
  | inl e ↦ ground (arith, ap p ((eq_iff x s).0 e), contains-filter p xs s)
  | inr e ↦ ground (arith, contains-filter p xs s)
]
