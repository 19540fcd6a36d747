-- ===== src/Generation/Feed/Events/Sorted.antt =====
-- The sort of simulation/src/generation/generate_feed.rs, `sort_by_key` of the standard library.
use arb_contest.Prelude.{
  ℕ, suc, ◌+◌, ◌≤◌, ◌≡◌, refl, ap, ◌∙◌, List, [], ◌∷◌, ◌++◌, leb, length, All, arith, Bool-cases,
  inl, inr, leb→le,
}
use arb_contest.Generation.Feed.Events.{insert_by_key, sort_by_key}

-- Sorting keeps what holds of all elements, and what they add up to.
pub insert-All :
    {A : Type 0} (P : A → Type 0) (key : A → ℕ) (x : A) (xs : List A)
    → P x
    → All P xs
    → All P (insert_by_key key x xs)
insert-All P key x [] p h = (p, tt)
insert-All P key x (y ∷ ys) p h = elim (Bool-cases (leb (key x) (key y))) [
  | inl e ↦ rw e (p, h)
  | inr e ↦ rw e (h.0, insert-All P key x ys p h.1)
]

pub sort-All :
    {A : Type 0} (P : A → Type 0) (key : A → ℕ) (xs : List A)
    → All P xs
    → All P (sort_by_key key xs)
unfolding sort_by_key
sort-All P key [] h = tt
sort-All P key (x ∷ xs) h = insert-All P key x (sort_by_key key xs) h.0 (sort-All P key xs h.1)

abbrev pub total_of : {A : Type 0} → (A → ℕ) → List A → ℕ
total_of f [] = 0
total_of f (x ∷ xs) = f x + total_of f xs

pub total-append :
    {A : Type 0} (f : A → ℕ) (xs ys : List A)
    → total_of f (xs ++ ys) ≡ total_of f xs + total_of f ys
total-append f [] ys = omega arith
total-append f (x ∷ xs) ys = omega (arith, total-append f xs ys)

insert-total :
    {A : Type 0} (f key : A → ℕ) (x : A) (xs : List A)
    → total_of f (insert_by_key key x xs) ≡ f x + total_of f xs
insert-total f key x [] = refl
insert-total f key x (y ∷ ys) = elim (Bool-cases (leb (key x) (key y))) [
  | inl e ↦ rw e refl
  | inr e ↦ rw e (omega (arith, insert-total f key x ys))
]

pub sort-total :
    {A : Type 0} (f key : A → ℕ) (xs : List A) → total_of f (sort_by_key key xs) ≡ total_of f xs
unfolding sort_by_key
sort-total f key [] = refl
sort-total f key (x ∷ xs) =
    omega (arith, insert-total f key x (sort_by_key key xs), sort-total f key xs)

insert-length :
    {A : Type 0} (key : A → ℕ) (x : A) (xs : List A)
    → length (insert_by_key key x xs) ≡ suc (length xs)
insert-length key x [] = refl
insert-length key x (y ∷ ys) = elim (Bool-cases (leb (key x) (key y))) [
  | inl e ↦ rw e refl
  | inr e ↦ rw e (ap suc (insert-length key x ys))
]

pub sort-length : {A : Type 0} (key : A → ℕ) (xs : List A) → length (sort_by_key key xs) ≡ length xs
unfolding sort_by_key
sort-length key [] = refl
sort-length key (x ∷ xs) = insert-length key x (sort_by_key key xs) ∙ ap suc (sort-length key xs)

-- In order of the key, from `low` on.
abbrev pub Ascends : {A : Type 0} → (A → ℕ) → (low : ℕ) → List A → Type 0
Ascends key low [] = Unit
Ascends key low (x ∷ xs) = (low ≤ key x) × Ascends key (key x) xs

Ascends-weaken :
    {A : Type 0} (key : A → ℕ) (low low' : ℕ) (xs : List A)
    → low' ≤ low
    → Ascends key low xs
    → Ascends key low' xs
Ascends-weaken key low low' [] h a = tt
Ascends-weaken key low low' (x ∷ xs) h a = (omega (arith, a.0), a.1)

insert-Ascends :
    {A : Type 0} (key : A → ℕ) (low : ℕ) (x : A) (xs : List A)
    → low ≤ key x
    → Ascends key low xs
    → Ascends key low (insert_by_key key x xs)
insert-Ascends key low x [] h a = (h, tt)
insert-Ascends key low x (y ∷ ys) h a = elim (Bool-cases (leb (key x) (key y))) [
  | inl e ↦ rw e (h, (leb→le (key x) (key y) e, a.1))
  | inr e ↦ rw e (a.0, insert-Ascends key (key y) x ys (ground (arith, e)) a.1)
]

pub sort-Ascends : {A : Type 0} (key : A → ℕ) (xs : List A) → Ascends key 0 (sort_by_key key xs)
unfolding sort_by_key
sort-Ascends key [] = tt
sort-Ascends key (x ∷ xs) =
    insert-Ascends key 0 x (sort_by_key key xs) (omega arith) (sort-Ascends key xs)
