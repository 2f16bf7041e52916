-- ===== src/Orchestrator/Trace.antt =====
-- The calls that an operation adds to those made before.
use mathlib.Core.List.{append_assoc}
use action_runner_cluster.Prelude.{
  All, All-append, All-map, List, Text, [], ap, refl, subst, suc, sym, ℕ, ◌++◌, ◌∙◌, ◌∷◌, ◌≡◌,
}
use action_runner_cluster.Orchestrator.{Call, deregisters, registers, creates, destroys}

-- Newest first, the new calls stand before the old ones, and each satisfies `P`.
abbrev pub Adds : (Call → Type 0) → List Call → List Call → Type 0
Adds P before after = (new : List Call) × (after ≡ new ++ before) × All P new

pub Adds-refl : (P : Call → Type 0) (before : List Call) → Adds P before before
Adds-refl P before = ([], refl, tt)

pub Adds-cons :
    (P : Call → Type 0) (c : Call) (before : List Call) → P c → Adds P before (c ∷ before)
Adds-cons P c before h = (c ∷ [], refl, (h, tt))

pub Adds-trans :
    (P : Call → Type 0) (xs ys zs : List Call) → Adds P xs ys → Adds P ys zs → Adds P xs zs
Adds-trans P xs ys zs (a, e, h) (b, d, k) =
    (b ++ a, d ∙ (ap (◌++◌ b) e ∙ sym (append_assoc b a xs)), All-append P b a k h)

pub Adds-mono :
    (P Q : Call → Type 0) (xs ys : List Call)
    → ((c : Call) → P c → Q c)
    → Adds P xs ys
    → Adds Q xs ys
Adds-mono P Q xs ys f (a, e, h) = (a, e, All-map P Q a f h)

-- Each of the calls satisfies `P` of the calls made before it, those of `before` included.
abbrev pub AllAt : (List Call → Call → Type 0) → List Call → List Call → Type 0
AllAt P before [] = Unit
AllAt P before (c ∷ cs) = P (cs ++ before) c × AllAt P before cs

-- Like `Adds`, for a `P` that also reads the calls made before.
abbrev pub AddsAt : (List Call → Call → Type 0) → List Call → List Call → Type 0
AddsAt P before after = (new : List Call) × (after ≡ new ++ before) × AllAt P before new

pub AddsAt-refl : (P : List Call → Call → Type 0) (before : List Call) → AddsAt P before before
AddsAt-refl P before = ([], refl, tt)

AllAt-append :
    (P : List Call → Call → Type 0) (before b a : List Call)
    → AllAt P (a ++ before) b
    → AllAt P before a
    → AllAt P before (b ++ a)
AllAt-append P before [] a h k = k
AllAt-append P before (c ∷ cs) a h k =
    (subst (λ xs. P xs c) (sym (append_assoc cs a before)) h.0, AllAt-append P before cs a h.1 k)

pub AddsAt-trans :
    (P : List Call → Call → Type 0) (xs ys zs : List Call)
    → AddsAt P xs ys
    → AddsAt P ys zs
    → AddsAt P xs zs
AddsAt-trans P xs ys zs (a, e, h) (b, d, k) = (
  b ++ a,
  d ∙ (ap (◌++◌ b) e ∙ sym (append_assoc b a xs)),
  AllAt-append P xs b a (subst (λ q. AllAt P q b) e k) h,
)

AllAt-of_All :
    (P : Call → Type 0) (Q : List Call → Call → Type 0) (before new : List Call)
    → ((h : List Call) (c : Call) → P c → Q h c)
    → All P new
    → AllAt Q before new
AllAt-of_All P Q before [] f h = tt
AllAt-of_All P Q before (c ∷ cs) f h = (f (cs ++ before) c h.0, AllAt-of_All P Q before cs f h.1)

pub AddsAt-of_Adds :
    (P : Call → Type 0) (Q : List Call → Call → Type 0) (xs ys : List Call)
    → ((h : List Call) (c : Call) → P c → Q h c)
    → Adds P xs ys
    → AddsAt Q xs ys
AddsAt-of_Adds P Q xs ys f (a, e, h) = (a, e, AllAt-of_All P Q xs a f h)

-- The destructions among the calls.
abbrev pub destructions : List Call → ℕ
destructions [] = 0
destructions (destroys pool id ∷ cs) = suc (destructions cs)
destructions (registers repo name ∷ cs) = destructions cs
destructions (deregisters r ∷ cs) = destructions cs
destructions (creates pool name ∷ cs) = destructions cs

-- The registrations among the calls.
abbrev pub launches : List Call → ℕ
launches [] = 0
launches (registers repo name ∷ cs) = suc (launches cs)
launches (deregisters r ∷ cs) = launches cs
launches (creates pool name ∷ cs) = launches cs
launches (destroys pool id ∷ cs) = launches cs

abbrev IsLaunch : Call → Type 0
IsLaunch (registers repo name) = Unit
IsLaunch (deregisters r) = ⊥
IsLaunch (creates pool name) = ⊥
IsLaunch (destroys pool id) = ⊥

launches-append :
    (new before : List Call)
    → All (λ c. IsLaunch c → ⊥) new
    → launches (new ++ before) ≡ launches before
launches-append [] before h = refl
launches-append (registers repo name ∷ cs) before h = absurd (h.0 tt)
launches-append (deregisters r ∷ cs) before h = launches-append cs before h.1
launches-append (creates pool name ∷ cs) before h = launches-append cs before h.1
launches-append (destroys pool id ∷ cs) before h = launches-append cs before h.1

-- Calls none of which registers leave the number of registrations.
pub Adds-launches :
    (P : Call → Type 0) (xs ys : List Call)
    → ((repo name : Text) → ¬ P (registers repo name))
    → Adds P xs ys
    → launches ys ≡ launches xs
Adds-launches P xs ys f (new, e, a) =
    ap launches e ∙ launches-append new xs (All-map P (λ c. IsLaunch c → ⊥) new (deny P f) a)
  where
    deny :
        (Q : Call → Type 0)
        → ((repo name : Text) → ¬ Q (registers repo name))
        → (c : Call) → Q c
        → IsLaunch c
        → ⊥
    deny Q g (registers repo name) q l = g repo name q
    deny Q g (deregisters r) q l = l
    deny Q g (creates pool name) q l = l
    deny Q g (destroys pool id) q l = l
