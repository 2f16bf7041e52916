-- ===== src/Startup/Vouched.antt =====
-- Which credential arc starts with, and that the configuration it makes up is valid.
use action_runner_cluster.Prelude.{
  Bool, Bool-cases, Option, Text, [], ap, false, inl, inr, nat_eq, none, refl, some, sym,
  text_beq_iff, text_eq, true, ℕ, ◌==◌, ◌∙◌, ◌≡◌, ◌≢◌, ◌⊎◌,
}
use action_runner_cluster.Credentials.{Item}
use action_runner_cluster.Startup.{
  Probe, account, api_answer, no_contact, is_auth_error, Chosen, with_account, vault_item,
  from_vault, cached_item, with_cache, choose_item,
}

-- Who vouches for the item that arc starts with: GitHub, or the cache of an earlier start.
pub record IsChosen (probe : Item → Probe) (cache load : Option Item) (c : Chosen) : Type 0 where
  pub vouched :
      (j : Item)
      → c.item ≡ some j
      → ((i : Item) × (t : Text) × (probe i ≡ account t)
          × (j ≡ with_account i t)
          × ((cache ≡ some i) ⊎ (load ≡ some i)))
        ⊎ ((cache ≡ some j) × (j.account_type ≢ []) × (is_auth_error (probe j) ≡ false))
  pub needed :
      (c.reads ≡ 0)
      ⊎ ((c.reads ≡ 1)
          × ((cache ≡ none) ⊎ ((i : Item) × (cache ≡ some i) × (is_auth_error (probe i) ≡ true))))

nobody :
    (probe : Item → Probe) (cache load : Option Item) (from_cache : Bool) (reads : ℕ)
    → ((reads ≡ 0)
        ⊎ ((reads ≡ 1)
            × ((cache ≡ none)
                ⊎ ((i : Item) × (cache ≡ some i) × (is_auth_error (probe i) ≡ true)))))
    → IsChosen probe cache load (record { item = none; from_cache = from_cache; reads = reads })
nobody probe cache load from_cache reads needed = record {
  vouched = λ j e. absurd (let q : none ≡ some j = e in cc);
  needed = needed;
}

vault_item-IsChosen :
    (probe : Item → Probe) (cache : Option Item) (item : Item) (p : Probe)
    → probe item ≡ p
    → ((cache ≡ none) ⊎ ((i : Item) × (cache ≡ some i) × (is_auth_error (probe i) ≡ true)))
    → IsChosen probe cache (some item) (vault_item item p)
unfolding vault_item
vault_item-IsChosen probe cache item (account t) said why = record {
  vouched =
      λ j e. let same : with_account item t ≡ j = cc in inl (item, t, said, sym same, inr refl);
  needed = inr (refl, why);
}
vault_item-IsChosen probe cache item (api_answer status) said why =
    nobody probe cache (some item) false 1 (inr (refl, why))
vault_item-IsChosen probe cache item no_contact said why =
    nobody probe cache (some item) false 1 (inr (refl, why))

from_vault-IsChosen :
    (probe : Item → Probe) (cache load : Option Item)
    → ((cache ≡ none) ⊎ ((i : Item) × (cache ≡ some i) × (is_auth_error (probe i) ≡ true)))
    → IsChosen probe cache load (from_vault probe load)
unfolding from_vault
from_vault-IsChosen probe cache none why = nobody probe cache none false 1 (inr (refl, why))
from_vault-IsChosen probe cache (some item) why =
    vault_item-IsChosen probe cache item (probe item) refl why

cached_item-IsChosen :
    (probe : Item → Probe) (load : Option Item) (item : Item)
    → is_auth_error (probe item) ≡ false
    → IsChosen probe (some item) load (cached_item item)
unfolding cached_item
cached_item-IsChosen probe load item fine = elim (Bool-cases (item.account_type == [])) [
  | inl unknown ↦ simp (unknown, cached_item) (nobody probe (some item) load true 0 (inl refl))
  | inr known ↦
      simp (known, cached_item)
        (record {
          vouched = λ j e.
              let same : item ≡ j = cc in
              inr (
                e,
                (λ z.
                    let t : true ≡ false =
                      sym (
                        (text_beq_iff item.account_type []).1
                          (ap (λ (i : Item). i.account_type) same ∙ z))
                      ∙ known in
                    cc),
                rw (← same) fine,
              );
          needed = inl refl;
        })
]

with_cache-IsChosen :
    (probe : Item → Probe) (load : Option Item) (item : Item) (p : Probe)
    → probe item ≡ p
    → IsChosen probe (some item) load (with_cache probe load item p)
unfolding with_cache is_auth_error
with_cache-IsChosen probe load item (account t) said = record {
  vouched =
      λ j e. let same : with_account item t ≡ j = cc in inl (item, t, said, sym same, inl refl);
  needed = inl refl;
}
with_cache-IsChosen probe load item (api_answer status) said =
    elim (Bool-cases (is_auth_error (api_answer status))) [
      | inl refused ↦
          simp (refused, with_cache)
            (from_vault-IsChosen probe (some item) load
              (inr (item, refl, ap is_auth_error said ∙ refused)))
      | inr other ↦
          simp (other, with_cache)
            (cached_item-IsChosen probe load item (ap is_auth_error said ∙ other))
    ]
with_cache-IsChosen probe load item no_contact said =
    cached_item-IsChosen probe load item (ap is_auth_error said)

-- The credential that arc starts with: either GitHub has just told the account's type for it, and it
-- is from the cache or from the vault; or it is the cached one of an earlier start, with the type
-- known, and GitHub has not refused it now. The vault is read at most once, and only if there is no
-- cached item or GitHub has refused it.
pub choose_item-IsChosen :
    (probe : Item → Probe) (cache load : Option Item)
    → IsChosen probe cache load (choose_item probe cache load)
unfolding choose_item
choose_item-IsChosen probe none load = from_vault-IsChosen probe none load (inl refl)
choose_item-IsChosen probe (some item) load = with_cache-IsChosen probe load item (probe item) refl
