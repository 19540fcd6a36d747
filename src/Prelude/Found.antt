-- ===== src/Prelude/Found.antt =====
-- Lookups that find something.
use mathlib.Core.Path.{◌≡◌, refl}
use mathlib.Core.Option.{Option, none, some}
use mathlib.Core.List.{List, [], ◌∷◌}
use Prim.Native.Nat.{ℕ, zero, suc, ◌<◌}
use native.Mathlib.Omega.{arith}
use arb_contest.Prelude.Lists.{length, get_elem?, set, All}

-- There is a value, and it has the property.
pub data Finds {A : Type 0} (P : A → Type 0) : Option A → Type 0 where
  finds : {a : A} → P a → Finds P (some a)

module _ {A : Type 0} where
  pub Finds-bind :
      {B : Type 0} {P : A → Type 0} {Q : B → Type 0} {m : Option A} (next : A → Option B)
      → Finds P m
      → ((a : A) → P a → Finds Q (next a))
      → Finds Q (elim m [ none ↦ none | some a ↦ next a ])
  Finds-bind next (finds {a} p) h = h a p

  pub Finds-weaken :
      {P Q : A → Type 0} {m : Option A} → Finds P m → ((a : A) → P a → Q a) → Finds Q m
  Finds-weaken (finds {a} p) h = finds (h a p)

  pub get_elem?-Finds :
      (xs : List A) (i : ℕ) → i < length xs → Finds (λ x. get_elem? xs i ≡ some x) (get_elem? xs i)
  get_elem?-Finds [] i h = absurd (omega arith)
  get_elem?-Finds (x ∷ xs) zero h = finds refl
  get_elem?-Finds (x ∷ xs) (suc i) h = get_elem?-Finds xs i (omega arith)

  pub All-set : (P : A → Type 0) (xs : List A) (i : ℕ) (v : A) → All P xs → P v → All P (set xs i v)
  All-set P [] i v h p = h
  All-set P (x ∷ xs) zero v h p = (p, h.1)
  All-set P (x ∷ xs) (suc i) v h p = (h.0, All-set P xs i v h.1 p)

  pub Finds-eq : {m : Option A} {a : A} → m ≡ some a → Finds (λ b. b ≡ a) m
  Finds-eq {m = none} e = absurd (cc)
  Finds-eq {m = some b} e = finds (cc)

  pub Finds-self : {P : A → Type 0} {m : Option A} → Finds P m → Finds (λ a. m ≡ some a) m
  Finds-self (finds p) = finds refl

  pub All-weaken : (P Q : A → Type 0) (xs : List A) → ((x : A) → P x → Q x) → All P xs → All Q xs
  All-weaken P Q [] h all = tt
  All-weaken P Q (x ∷ xs) h all = (h x all.0, All-weaken P Q xs h all.1)
