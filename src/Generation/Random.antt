-- ===== src/Generation/Random.antt =====
-- The random numbers of simulation/src/generation: a generator of the `rand` crates, which are given
-- with what their documentation says, and computations that draw from it.
use arb_contest.Prelude.{
  ℕ, ◌≤◌, ◌<◌, ◌≡◌, Bool, Option, none, some, ◌≢◌, subst, ltb, leb, le→ltb, lt→leb, if◌then◌else◌,
  Finds, finds,
}

-- `gen_range(lo..=hi)`, `gen_range(lo..hi)` and `gen_bool(0.5)`, on the state of the generator.
pub record Rng (S : Type 0) : Type 0 where
  pub between : (lo hi : ℕ) → S → ℕ × S
  pub below : (lo hi : ℕ) → S → ℕ × S
  pub coin : S → Bool × S

-- Draws from a range that is not empty lie in it.
pub record IsLawful {S : Type 0} (rng : Rng S) : Type 0 where
  pub between_range :
      (lo hi : ℕ) (s : S)
      → lo ≤ hi
      → (lo ≤ (rng.between lo hi s).0) × ((rng.between lo hi s).0 ≤ hi)
  pub below_range :
      (lo hi : ℕ) (s : S) → lo < hi → (lo ≤ (rng.below lo hi s).0) × ((rng.below lo hi s).0 < hi)

-- How a computation may end. The fuel is for the loops that wait for a draw.
pub data Made {ℓ} (A : Type ℓ) : Type ℓ where
  made : A → Made A
  panicked : Made A
  out_of_fuel : Made A

abbrev pub Gen : Type 0 → Type 0 → Type 0
Gen S A = S → Made (A × S)

infixl 5 ◌>>=◌
abbrev pub ◌>>=◌ : {S A B : Type 0} → Gen S A → (A → Gen S B) → Gen S B
◌>>=◌ m f s = elim (m s) [ made (a, s') ↦ f a s' | panicked ↦ panicked | out_of_fuel ↦ out_of_fuel ]

abbrev pub pure : {S A : Type 0} → A → Gen S A
pure a s = made (a, s)

abbrev pub or_panic : {S A : Type 0} → Option A → Gen S A
or_panic none s = panicked
or_panic (some a) s = made (a, s)

-- Draws from an empty range panic.
unfoldable pub gen_between : {S : Type 0} → Rng S → ℕ → ℕ → Gen S ℕ
gen_between rng lo hi s = if ltb hi lo then panicked else made (rng.between lo hi s)

unfoldable pub gen_below : {S : Type 0} → Rng S → ℕ → ℕ → Gen S ℕ
gen_below rng lo hi s = if leb hi lo then panicked else made (rng.below lo hi s)

unfoldable pub gen_coin : {S : Type 0} → Rng S → Gen S Bool
gen_coin rng s = made (rng.coin s)

-- What a computation guarantees: it does not panic, and a value that it makes has the property.
pub data Ensures {S A : Type 0} (P : A → Type 0) : Made (A × S) → Type 0 where
  makes : {a : A} {s : S} → P a → Ensures P (made (a, s))
  starves : Ensures P out_of_fuel

pub Ensures-bind :
    {S A B : Type 0} {P : A → Type 0} {Q : B → Type 0} {m : Made (A × S)}
    (next : A → S → Made (B × S))
    → Ensures P m
    → ((a : A) (s : S) → P a → Ensures Q (next a s))
    → Ensures Q
        (elim m [ made (a, s) ↦ next a s | panicked ↦ panicked | out_of_fuel ↦ out_of_fuel ])
Ensures-bind next (makes {a} {s} p) h = h a s p
Ensures-bind next starves h = starves

-- A value that is there is passed on.
pub Ensures-or_panic :
    {S A B : Type 0} {Q : B → Type 0} {m : Option A} {a : A} {s : S} (next : A → S → Made (B × S))
    → m ≡ some a
    → Ensures Q (next a s)
    → Ensures Q (elim (or_panic m s) [
      | made (a, s) ↦ next a s
      | panicked ↦ panicked
      | out_of_fuel ↦ out_of_fuel
    ])
Ensures-or_panic {m = none} next e h = absurd (cc)
Ensures-or_panic {Q} {m = some b} {s} next e h = subst (λ x. Ensures Q (next x s)) (cc) h

pub Ensures-made :
    {S A : Type 0} {P : A → Type 0} {m : Made (A × S)} {a : A} {s : S}
    → Ensures P m
    → m ≡ made (a, s)
    → P a
Ensures-made {P} (makes p) e = subst P (cc) p
Ensures-made starves e = absurd (cc)

pub Ensures-ne-panicked :
    {S A : Type 0} {P : A → Type 0} {m : Made (A × S)} → Ensures P m → m ≢ panicked
Ensures-ne-panicked (makes p) e = cc
Ensures-ne-panicked starves e = cc

-- What a computation returns: it ends with a value that has the property.
pub data Returns {S A : Type 0} (P : A → Type 0) : Made (A × S) → Type 0 where
  returns : {a : A} {s : S} → P a → Returns P (made (a, s))

pub Returns-bind :
    {S A B : Type 0} {P : A → Type 0} {Q : B → Type 0} {m : Made (A × S)}
    (next : A → S → Made (B × S))
    → Returns P m
    → ((a : A) (s : S) → P a → Returns Q (next a s))
    → Returns Q
        (elim m [ made (a, s) ↦ next a s | panicked ↦ panicked | out_of_fuel ↦ out_of_fuel ])
Returns-bind next (returns {a} {s} p) h = h a s p

pub Returns-weaken :
    {S A : Type 0} {P Q : A → Type 0} {m : Made (A × S)}
    → Returns P m
    → ((a : A) → P a → Q a)
    → Returns Q m
Returns-weaken (returns {a} p) h = returns (h a p)

pub Returns-or_panic :
    {S A B : Type 0} {P : A → Type 0} {Q : B → Type 0} {m : Option A} {s : S}
    (next : A → S → Made (B × S))
    → Finds P m
    → ((a : A) → P a → Returns Q (next a s))
    → Returns Q (elim (or_panic m s) [
      | made (a, s) ↦ next a s
      | panicked ↦ panicked
      | out_of_fuel ↦ out_of_fuel
    ])
Returns-or_panic next (finds {a} p) h = h a p

pub Finds-Returns :
    {S A : Type 0} {P : A → Type 0} {m : Option A} (s : S) → Finds P m → Returns P (or_panic m s)
Finds-Returns s (finds p) = returns p

-- What a computation yields: a value that it makes has the property.
abbrev pub Yields : {S A : Type 0} → (A → Type 0) → Made (A × S) → Type 0
Yields P (made (a, s)) = P a
Yields P panicked = Unit
Yields P out_of_fuel = Unit

pub Yields-bind :
    {S A B : Type 0} (P : A → Type 0) (Q : B → Type 0) (m : Made (A × S))
    (next : A → S → Made (B × S))
    → Yields P m
    → ((a : A) (s : S) → P a → Yields Q (next a s))
    → Yields Q (elim m [ made (a, s) ↦ next a s | panicked ↦ panicked | out_of_fuel ↦ out_of_fuel ])
Yields-bind P Q (made (a, s)) next p h = h a s p
Yields-bind P Q panicked next p h = tt
Yields-bind P Q out_of_fuel next p h = tt

pub Yields-map :
    {S A : Type 0} (P Q : A → Type 0) (m : Made (A × S))
    → ((a : A) → P a → Q a)
    → Yields P m
    → Yields Q m
Yields-map P Q (made (a, s)) h p = h a p
Yields-map P Q panicked h p = tt
Yields-map P Q out_of_fuel h p = tt

pub Returns-Yields : {S A : Type 0} {P : A → Type 0} {m : Made (A × S)} → Returns P m → Yields P m
Returns-Yields (returns p) = p

module _ {S : Type 0} (rng : Rng S) (lawful : IsLawful rng) where
  pub gen_between_lem :
      (lo hi : ℕ) (s : S) → lo ≤ hi → Ensures (λ r. (lo ≤ r) × (r ≤ hi)) (gen_between rng lo hi s)
  unfolding gen_between
  gen_between_lem lo hi s h = rw (le→ltb hi lo h) (makes (lawful.between_range lo hi s h))

  pub gen_below_lem :
      (lo hi : ℕ) (s : S) → lo < hi → Ensures (λ r. (lo ≤ r) × (r < hi)) (gen_below rng lo hi s)
  unfolding gen_below
  gen_below_lem lo hi s h = rw (lt→leb hi lo h) (makes (lawful.below_range lo hi s h))

  pub gen_between-Returns :
      (lo hi : ℕ) (s : S) → lo ≤ hi → Returns (λ r. (lo ≤ r) × (r ≤ hi)) (gen_between rng lo hi s)
  unfolding gen_between
  gen_between-Returns lo hi s h = rw (le→ltb hi lo h) (returns (lawful.between_range lo hi s h))

  pub gen_below-Returns :
      (lo hi : ℕ) (s : S) → lo < hi → Returns (λ r. (lo ≤ r) × (r < hi)) (gen_below rng lo hi s)
  unfolding gen_below
  gen_below-Returns lo hi s h = rw (lt→leb hi lo h) (returns (lawful.below_range lo hi s h))

  pub gen_coin-Returns : (s : S) → Returns (λ (b : Bool). Unit) (gen_coin rng s)
  unfolding gen_coin
  gen_coin-Returns s = returns tt
