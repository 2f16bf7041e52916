-- ===== src/Prelude/Maps.antt =====
-- Go maps as association lists without order, over any key type with an equality.
use action_runner_cluster.Prelude.Tests.{if◌then◌else◌, Comparable, ◌==◌, Bool-cases}
use action_runner_cluster.Prelude.Lists.{All}
use mathlib.Core.Path.{◌≡◌, refl}
use mathlib.Core.Logic.{inl, inr}
use mathlib.Core.Bool.{true}
use mathlib.Core.Option.{Option, none, some}
use mathlib.Core.List.{List, [], ◌∷◌}
use native.Mathlib.Omega.{arith}

abbrev pub Map {ℓ κ} : Type ℓ → Type κ → Type (ℓ ⊔ κ)
Map K V = List (K × V)

abbrev pub or_else {ℓ} : {A : Type ℓ} → A → Option A → A
or_else d none = d
or_else d (some a) = a

pub eq_self {ℓ} : {K : Type ℓ} ⦃c : Comparable K⦄ (key : K) → (key == key) ≡ true
eq_self ⦃c⦄ key = (c.same_iff key key).1 refl

module _ {ℓ κ} {K : Type ℓ} {V : Type κ} ⦃c : Comparable K⦄ where
  -- `v, ok := m[key]`
  unfoldable pub lookup : K → Map K V → Option V
  lookup key [] = none
  lookup key ((k, val) ∷ rest) = if k == key then some val else lookup key rest

  -- `delete(m, key)`
  unfoldable pub delete : K → Map K V → Map K V
  delete key [] = []
  delete key ((k, val) ∷ rest) = if k == key then delete key rest else (k, val) ∷ delete key rest

  -- `m[key] = new`
  unfoldable pub insert : K → V → Map K V → Map K V
  insert key new [] = (key, new) ∷ []
  insert key new ((k, val) ∷ rest) =
      if k == key then (key, new) ∷ rest else (k, val) ∷ insert key new rest

  -- `m[key]` with the zero value for a missing key
  abbrev pub lookup_or : V → K → Map K V → V
  lookup_or zero_value key m = or_else zero_value (lookup key m)

  pub lookup-delete :
      (key asked : K) (m : Map K V)
      → lookup asked (delete key m) ≡ (if key == asked then none else lookup asked m)
  unfolding lookup delete
  lookup-delete key asked [] = ground arith
  lookup-delete key asked ((k, val) ∷ rest) = ground (
    arith,
    c.same_iff k key,
    c.same_iff k asked,
    c.same_iff key asked,
    lookup-delete key asked rest,
  )

  pub lookup-insert :
      (key asked : K) (new : V) (m : Map K V)
      → lookup asked (insert key new m) ≡ (if key == asked then some new else lookup asked m)
  unfolding lookup insert
  lookup-insert key asked new [] = refl
  lookup-insert key asked new ((k, val) ∷ rest) = ground (
    arith,
    c.same_iff k key,
    c.same_iff k asked,
    c.same_iff key asked,
    lookup-insert key asked new rest,
  )

  -- What every entry satisfies, the entry found satisfies.
  pub lookup-All {μ} :
      (P : K × V → Type μ) (key : K) (m : Map K V) {val : V}
      → All P m
      → lookup key m ≡ some val
      → P (key, val)
  unfolding lookup
  lookup-All P key [] all found = cc
  lookup-All P key ((k, w) ∷ rest) {val} all found = elim (Bool-cases (k == key)) [
    | inl hit ↦ rw (← (c.same_iff k key).0 hit) (ground (arith, all.0))
    | inr miss ↦ lookup-All P key rest all.1 (rw miss at found)
  ]

  pub insert-All {μ} :
      (P : K × V → Type μ) (key : K) (new : V) (m : Map K V)
      → P (key, new)
      → All P m
      → All P (insert key new m)
  unfolding insert
  insert-All P key new [] p all = (p, tt)
  insert-All P key new ((k, val) ∷ rest) p all = elim (Bool-cases (k == key)) [
    | inl hit ↦ rw hit (p, all.1)
    | inr miss ↦ rw miss (all.0, insert-All P key new rest p all.1)
  ]

  pub delete-All {μ} : (P : K × V → Type μ) (key : K) (m : Map K V) → All P m → All P (delete key m)
  unfolding delete
  delete-All P key [] all = tt
  delete-All P key ((k, val) ∷ rest) all = elim (Bool-cases (k == key)) [
    | inl hit ↦ rw hit (delete-All P key rest all.1)
    | inr miss ↦ rw miss (all.0, delete-All P key rest all.1)
  ]
