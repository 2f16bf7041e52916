-- ===== src/Prelude/Sorting.antt =====
-- sort.SliceStable by a numeric key, and what it promises.
use mathlib.Core.List.Perm
use Prim.Native.Nat.{ℕ, zero, suc}
use mathlib.Core.Path.{◌≡◌}
use mathlib.Core.Logic.{inl, inr}
use mathlib.Core.Bool.{Bool, true, false}
use mathlib.Core.List.{List, [], ◌∷◌, Perm}
use native.Mathlib.Omega.{arith}
use action_runner_cluster.Prelude.Tests.{if◌then◌else◌, leb, Bool-cases}
use action_runner_cluster.Prelude.Lists.{All, take, drop, drop-All}

module _ {ℓ} {A : Type ℓ} (le : A → A → Bool) where
  -- `x` goes before the first element that it may precede.
  insert_sorted : A → List A → List A
  insert_sorted x [] = x ∷ []
  insert_sorted x (y ∷ ys) = if le x y then x ∷ y ∷ ys else y ∷ insert_sorted x ys

  unfoldable pub sort_stable : List A → List A
  unfolding insert_sorted
  sort_stable [] = []
  sort_stable (x ∷ xs) = insert_sorted x (sort_stable xs)

  insert_sorted-perm : (x : A) (ys : List A) → Perm (x ∷ ys) (insert_sorted x ys)
  unfolding insert_sorted
  insert_sorted-perm x [] = Perm.refl (x ∷ [])
  insert_sorted-perm x (y ∷ ys) = elim (Bool-cases (le x y)) [
    | inl h ↦ rw h (Perm.refl _)
    | inr h ↦ rw h (Perm.trans (Perm.swap y x ys) (Perm.cons y (insert_sorted-perm x ys)))
  ]

  pub sort_stable-perm : (xs : List A) → Perm xs (sort_stable xs)
  unfolding sort_stable
  sort_stable-perm [] = Perm.refl []
  sort_stable-perm (x ∷ xs) =
      Perm.trans (Perm.cons x (sort_stable-perm xs)) (insert_sorted-perm x (sort_stable xs))

  -- Each element may precede all that follow it.
  abbrev pub IsSorted : List A → Type ℓ
  IsSorted [] = Unit
  IsSorted (x ∷ xs) = All (λ y. le x y ≡ true) xs × IsSorted xs

-- What stands before a place in a sorted list may precede what stands after it.
pub IsSorted-split {ℓ} :
    {A : Type ℓ} (le : A → A → Bool) (n : ℕ) (xs : List A)
    → IsSorted le xs
    → All (λ a. All (λ b. le a b ≡ true) (drop n xs)) (take n xs)
IsSorted-split le zero xs s = tt
IsSorted-split le (suc n) [] s = tt
IsSorted-split le (suc n) (x ∷ xs) s =
    (drop-All (λ b. le x b ≡ true) n xs s.0, IsSorted-split le n xs s.1)

module _ {ℓ κ} {A : Type ℓ} (le : A → A → Bool) (P : A → Type κ) where
  insert_sorted-All : (x : A) (ys : List A) → P x → All P ys → All P (insert_sorted le x ys)
  unfolding insert_sorted
  insert_sorted-All x [] p h = (p, tt)
  insert_sorted-All x (y ∷ ys) p h = elim (Bool-cases (le x y)) [
    | inl t ↦ rw t (p, h)
    | inr f ↦ rw f (h.0, insert_sorted-All x ys p h.1)
  ]

  pub sort_stable-All : (xs : List A) → All P xs → All P (sort_stable le xs)
  unfolding sort_stable
  sort_stable-All [] h = h
  sort_stable-All (x ∷ xs) h = insert_sorted-All x (sort_stable le xs) h.0 (sort_stable-All xs h.1)

-- An order that is total and transitive sorts.
module _ {ℓ} {A : Type ℓ} (le : A → A → Bool)
    (trans : (x y z : A) → le x y ≡ true → le y z ≡ true → le x z ≡ true)
    (total : (x y : A) → le x y ≡ false → le y x ≡ true) where
  weaken :
      (x y : A) (ys : List A)
      → le x y ≡ true
      → All (λ z. le y z ≡ true) ys
      → All (λ z. le x z ≡ true) ys
  weaken x y [] h a = tt
  weaken x y (z ∷ ys) h a = (trans x y z h a.0, weaken x y ys h a.1)

  insert_sorted-IsSorted :
      (x : A) (ys : List A) → IsSorted le ys → IsSorted le (insert_sorted le x ys)
  unfolding insert_sorted
  insert_sorted-IsSorted x [] s = (tt, tt)
  insert_sorted-IsSorted x (y ∷ ys) s = elim (Bool-cases (le x y)) [
    | inl t ↦ rw t ((t, weaken x y ys t s.0), s)
    | inr f ↦ rw f (
      insert_sorted-All le (λ z. le y z ≡ true) x ys (total x y f) s.0,
      insert_sorted-IsSorted x ys s.1,
    )
  ]

  pub sort_stable-IsSorted : (xs : List A) → IsSorted le (sort_stable le xs)
  unfolding sort_stable
  sort_stable-IsSorted [] = tt
  sort_stable-IsSorted (x ∷ xs) =
      insert_sorted-IsSorted x (sort_stable le xs) (sort_stable-IsSorted xs)

module _ {ℓ} {A : Type ℓ} (key : A → ℕ) where
  abbrev pub by_key : A → A → Bool
  by_key x y = leb (key x) (key y)

  by_key_trans : (x y z : A) → by_key x y ≡ true → by_key y z ≡ true → by_key x z ≡ true
  by_key_trans x y z h k = ground arith

  by_key-total : (x y : A) → by_key x y ≡ false → by_key y x ≡ true
  by_key-total x y h = ground arith

  pub sort_by_key-IsSorted : (xs : List A) → IsSorted by_key (sort_stable by_key xs)
  sort_by_key-IsSorted = sort_stable-IsSorted by_key by_key_trans by_key-total
