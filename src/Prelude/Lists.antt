-- ===== src/Prelude/Lists.antt =====
-- Lists measured by native numbers, predicates over lists, and a stable sort.
use Prim.Native.Nat.{ℕ, zero, suc, ◌+◌, ◌≤◌}
use mathlib.Core.Path.{◌≡◌, refl, subst, sym}
use mathlib.Core.Bool.{Bool, true, false}
use mathlib.Core.List.{List, [], ◌∷◌, ◌++◌}
use native.Mathlib.Omega.{arith}
use mathlib.Core.Logic.{◌⊎◌, inl, inr, ◌↔◌}
use action_runner_cluster.Prelude.Tests.{if◌then◌else◌, Bool-cases}

module _ {ℓ} {A : Type ℓ} where
  abbrev pub length : List A → ℕ
  length [] = 0
  length (x ∷ xs) = suc (length xs)

  pub length-append : (xs ys : List A) → length (xs ++ ys) ≡ length xs + length ys
  length-append [] ys = omega arith
  length-append (x ∷ xs) ys = omega (arith, length-append xs ys)

  abbrev pub take : ℕ → List A → List A
  take zero xs = []
  take (suc n) [] = []
  take (suc n) (x ∷ xs) = x ∷ take n xs

  abbrev pub drop : ℕ → List A → List A
  drop zero xs = xs
  drop (suc n) [] = []
  drop (suc n) (x ∷ xs) = drop n xs

  abbrev pub replicate : ℕ → A → List A
  replicate zero a = []
  replicate (suc n) a = a ∷ replicate n a

  -- The library's `filter` takes a decision; this one takes a test.
  unfoldable pub select : (A → Bool) → List A → List A
  select p [] = []
  select p (x ∷ xs) = if p x then x ∷ select p xs else select p xs

  unfoldable pub any : (A → Bool) → List A → Bool
  any p [] = false
  any p (x ∷ xs) = if p x then true else any p xs

  abbrev pub All {κ} : (A → Type κ) → List A → Type κ
  All Q [] = Unit
  All Q (a ∷ more) = Q a × All Q more

  pub length-take-le : (n : ℕ) (xs : List A) → length (take n xs) ≤ n
  length-take-le zero xs = omega arith
  length-take-le (suc n) [] = omega arith
  length-take-le (suc n) (x ∷ xs) = omega (arith, length-take-le n xs)

  pub length-take : (n : ℕ) (xs : List A) → n ≤ length xs → length (take n xs) ≡ n
  length-take zero xs h = refl
  length-take (suc n) [] h = absurd (omega arith)
  length-take (suc n) (x ∷ xs) h = omega (arith, length-take n xs (omega arith))

  pub All-append {κ} :
      (Q : A → Type κ) (front back : List A) → All Q front → All Q back → All Q (front ++ back)
  All-append Q [] back f b = b
  All-append Q (a ∷ front) back (q, f) b = (q, All-append Q front back f b)

  pub All-map {κ μ} :
      (P : A → Type κ) (Q : A → Type μ) (xs : List A) → ((a : A) → P a → Q a) → All P xs → All Q xs
  All-map P Q [] f h = tt
  All-map P Q (x ∷ xs) f h = (f x h.0, All-map P Q xs f h.1)

  pub take-All {κ} : (P : A → Type κ) (n : ℕ) (xs : List A) → All P xs → All P (take n xs)
  take-All P zero xs h = tt
  take-All P (suc n) [] h = tt
  take-All P (suc n) (x ∷ xs) h = (h.0, take-All P n xs h.1)

  pub drop-All {κ} : (P : A → Type κ) (n : ℕ) (xs : List A) → All P xs → All P (drop n xs)
  drop-All P zero xs h = h
  drop-All P (suc n) [] h = tt
  drop-All P (suc n) (x ∷ xs) h = drop-All P n xs h.1

  pub select-All : (p : A → Bool) (xs : List A) → All (λ x. p x ≡ true) (select p xs)
  unfolding select
  select-All p [] = tt
  select-All p (x ∷ xs) = elim (Bool-cases (p x)) [
    | inl h ↦ rw h (h, select-All p xs)
    | inr h ↦ rw h (select-All p xs)
  ]

module _ {A : Type 0} where
  -- Some element satisfies `P`, and which one.
  abbrev pub Any : (A → Type 0) → List A → Type 0
  Any P [] = ⊥
  Any P (x ∷ xs) = P x ⊎ Any P xs

  abbrev pub In : A → List A → Type 0
  In a = Any (λ x. x ≡ a)

  -- What every element satisfies, a member satisfies.
  pub All-In {κ} : (P : A → Type κ) (a : A) (xs : List A) → All P xs → In a xs → P a
  All-In P a [] h m = absurd m
  All-In P a (x ∷ xs) h (inl e) = subst P e h.0
  All-In P a (x ∷ xs) h (inr m) = All-In P a xs h.1 m

  pub All-of_In {κ} : (P : A → Type κ) (xs : List A) → ((a : A) → In a xs → P a) → All P xs
  All-of_In P [] f = tt
  All-of_In P (x ∷ xs) f = (f x (inl refl), All-of_In P xs (λ a m. f a (inr m)))

  pub Any-of_In :
      (Q : A → Type 0) (a : A) (xs : List A) → ((b : A) → b ≡ a → Q b) → In a xs → Any Q xs
  Any-of_In Q a [] f m = m
  Any-of_In Q a (x ∷ xs) f (inl e) = inl (f x e)
  Any-of_In Q a (x ∷ xs) f (inr m) = inr (Any-of_In Q a xs f m)

  pub any_iff : (p : A → Bool) (xs : List A) → (any p xs ≡ true) ↔ Any (λ x. p x ≡ true) xs
  unfolding any
  any_iff p [] = (λ h. cc, λ h. absurd h)
  any_iff p (x ∷ xs) = elim (Bool-cases (p x)) [
    | inl h ↦ rw h (λ _. inl refl, λ _. refl)
    | inr h ↦ rw h (
      λ t. inr ((any_iff p xs).0 t),
      λ s. elim s [ inl e ↦ absurd (let q : false ≡ true = e in cc) | inr m ↦ (any_iff p xs).1 m ],
    )
  ]

  -- One element that satisfies `Q` puts `Q` somewhere in the list, and the other way round.
  pub put-Any : (Q : A → Type 0) (a : A) (xs : List A) → In a xs → Q a → Any Q xs
  put-Any Q a xs m q = Any-of_In Q a xs (λ b e. subst Q (sym e) q) m

  pub find-Any : (Q : A → Type 0) (xs : List A) → Any Q xs → (a : A) × In a xs × Q a
  find-Any Q [] n = absurd n
  find-Any Q (x ∷ xs) (inl q) = (x, inl refl, q)
  find-Any Q (x ∷ xs) (inr n) = let (a, m, q) = find-Any Q xs n in (a, inr m, q)

  pub All-select {κ} :
      (Q : A → Type κ) (p : A → Bool) (xs : List A) → All Q xs → All Q (select p xs)
  unfolding select
  All-select Q p [] h = tt
  All-select Q p (x ∷ xs) h = elim (Bool-cases (p x)) [
    | inl e ↦ rw e (h.0, All-select Q p xs h.1)
    | inr e ↦ rw e (All-select Q p xs h.1)
  ]
