-- ===== src/Prelude/Maps.antt =====
-- A hash map keyed by numbers, as an association list with at most one entry for a key.
use Prim.Native.Nat.{ℕ}
use mathlib.Core.Path.{◌≡◌, refl}
use mathlib.Core.Logic.{◌≢◌}
use mathlib.Core.Option.{Option, none, some}
use mathlib.Core.List.{List, [], ◌∷◌}
use native.Mathlib.Omega.{arith}
use arb_contest.Prelude.Tests.{◌==◌, if◌then◌else◌}

abbrev pub Dict {ℓ} : Type ℓ → Type ℓ
Dict Val = List (ℕ × Val)

module _ {ℓ} {Val : Type ℓ} where
  abbrev pub lookup : (key : ℕ) → Dict Val → Option Val
  lookup key [] = none
  lookup key ((at, val) ∷ rest) = if key == at then some val else lookup key rest

  abbrev pub insert : (key : ℕ) → Val → Dict Val → Dict Val
  insert key new [] = (key, new) ∷ []
  insert key new ((at, val) ∷ rest) =
      if key == at then (key, new) ∷ rest else (at, val) ∷ insert key new rest

module _ {ℓ} {Val : Type ℓ} where
  pub lookup-insert :
      (key at : ℕ) (val : Val) (d : Dict Val)
      → lookup at (insert key val d) ≡ (if at == key then some val else lookup at d)
  lookup-insert key at val [] = refl
  lookup-insert key at val (e ∷ d) = ground (arith, lookup-insert key at val d)

  pub lookup-insert_self :
      (key : ℕ) (val : Val) (d : Dict Val) → lookup key (insert key val d) ≡ some val
  lookup-insert_self key val d = ground (arith, lookup-insert key key val d)

  pub lookup-insert_ne :
      (at key : ℕ) (val : Val) (d : Dict Val)
      → at ≢ key
      → lookup at (insert key val d) ≡ lookup at d
  lookup-insert_ne at key val d other = ground (arith, lookup-insert key at val d)

module _ {ℓ} {V : Type ℓ} where
  -- At most one entry for a key, as in a hash map.
  abbrev pub Distinct : Dict V → Type ℓ
  Distinct [] = Unit
  Distinct ((k, v) ∷ d) = (lookup k d ≡ none) × Distinct d

module _ {ℓ} {V : Type ℓ} where
  pub insert-Distinct : (k : ℕ) (v : V) (d : Dict V) → Distinct d → Distinct (insert k v d)
  insert-Distinct k v [] h = (refl, tt)
  insert-Distinct k v (e ∷ d) h = ground (arith, insert-Distinct k v d h.1, lookup-insert k e.0 v d)
