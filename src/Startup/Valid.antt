-- ===== src/Startup/Valid.antt =====
-- The configuration that arc makes up from a credential of 1Password is valid.
use action_runner_cluster.Prelude.{
  Bool, Bool-cases, List, Option, Text, [], arith, codes, false, inl, inr, int_eq, nat_eq, none,
  pair_eq, refl, some, text_eq, trim_space, true, ℕ, ℤ, ◌==◌, ◌≡◌, ◌≢◌, ◌⊎◌,
}
use action_runner_cluster.Config.{GitHub, Config}
use action_runner_cluster.Config.Validation.{
  validate, account_errors, credential_errors, owner_errors, app_errors, add_if, check_pools,
  pool_errors,
}
use action_runner_cluster.Config.Defaults.{
  Machine, finish, parse, parse_expanded, parse_decoded, host_pool, apply_defaults, default_github,
  default_pool,
}
use action_runner_cluster.Config.Expansion.{expanded, expand_env}
use action_runner_cluster.Config.Defaults.Settled.{host_pool_validates}
use action_runner_cluster.Credentials.{
  Item, VaultField, take_fields, blank_item, load_item, stamped, read_cache, is_complete,
}
use action_runner_cluster.Startup.{
  Probe, Chosen, choose_item, with_account, item_config, made, unverified, vault_path,
  parsed_config, marshalled, chosen_config, auto_config, Yaml,
}
use action_runner_cluster.Startup.Vouched.{choose_item-IsChosen}

item_config_valid :
    (m : Machine) (max : ℤ) (include_url : Text) (item : Item)
    → trim_space m.goarch ≡ m.goarch
    → m.goarch ≢ []
    → is_complete item ≡ true
    → validate (apply_defaults m (item_config m max include_url item)) ≡ []
unfolding validate apply_defaults item_config default_github account_errors credential_errors
    owner_errors app_errors add_if check_pools is_complete
item_config_valid m max include_url item trimmed named complete =
    let pool_fine : (g : GitHub) (dir : Text)
        → pool_errors g [] (default_pool m [] dir (host_pool m max)) ≡ [] =
      λ g dir. host_pool_validates m max g [] dir trimmed named in
    let no_token : (item.token == []) ≡ false = ground arith in
    let no_login : (item.login == []) ≡ false = ground arith in
    elim (Bool-cases (item.account_type == codes "Organization")) [
      | inl org ↦ simp (org, no_token, no_login, pool_fine) refl
      | inr user ↦ simp (user, no_token, no_login, pool_fine) refl
    ]

-- An item of the cache's file or of the vault has a token and a login.
read_cache_complete :
    (file : Option Item) (i : Item) → read_cache file ≡ some i → is_complete i ≡ true
unfolding read_cache
read_cache_complete none i e = absurd (let q : none ≡ some i = e in cc)
read_cache_complete (some item) i e = elim (Bool-cases (is_complete item)) [
  | inl whole ↦ let same : item ≡ i = cc in rw (← same) whole
  | inr part ↦ absurd (let q : none ≡ some i = rw (part, read_cache) at e in cc)
]

stamped_complete : (now : ℕ) (item i : Item) → stamped now item ≡ some i → is_complete i ≡ true
unfolding stamped is_complete
stamped_complete now item i e = elim (Bool-cases (is_complete item)) [
  | inl whole ↦
      let q : some (record item { fetched_at = now }) ≡ some i = rw (whole, stamped) at e in
      let same : record item { fetched_at = now } ≡ i = cc in rw (← same) whole
  | inr part ↦ absurd (let q : none ≡ some i = rw (part, stamped) at e in cc)
]

load_item_complete :
    (now : ℕ) (fields : Option (List VaultField)) (i : Item)
    → load_item now fields ≡ some i
    → is_complete i ≡ true
unfolding load_item
load_item_complete now none i e = absurd (let q : none ≡ some i = e in cc)
load_item_complete now (some fields) i e = stamped_complete now (take_fields fields blank_item) i e

-- The item that autoConfig goes on with has a token and a login.
chosen_complete :
    (probe : Item → Probe) (now : ℕ) (file : Option Item) (fields : Option (List VaultField))
    (j : Item)
    → (choose_item probe (read_cache file) (load_item now fields)).item ≡ some j
    → is_complete j ≡ true
unfolding is_complete with_account
chosen_complete probe now file fields j e =
    elim ((choose_item-IsChosen probe (read_cache file) (load_item now fields)).vouched j e) [
      | inl (i, t, said, same, inl cached) ↦
          rw (same, with_account) (read_cache_complete file i cached)
      | inl (i, t, said, same, inr read) ↦
          rw (same, with_account) (load_item_complete now fields i read)
      | inr (cached, known, fine) ↦ read_cache_complete file j cached
    ]

-- The text of the configuration that is made up for the item holds nothing that the environment
-- changes, and decodes to that configuration.
module _ (m : Machine) (env : Text → Option Text) (yaml : Yaml) (max : ℤ) (include_url : Text)
    (trimmed : trim_space m.goarch ≡ m.goarch) (named : m.goarch ≢ []) where
  abbrev pub RoundTrips : Item → Type 0
  RoundTrips j =
      (text : Text) × (yaml.marshal (item_config m max include_url j) ≡ some text)
      × (expand_env env text ≡ expanded text)
      × (yaml.decode text ≡ some (item_config m max include_url j))

  chosen_config_valid :
      (from_cache : Bool) (item : Option Item)
      → ((j : Item) → item ≡ some j → is_complete j ≡ true)
      → ((j : Item) → item ≡ some j → RoundTrips j)
      → (chosen_config m env yaml max include_url from_cache item ≡ unverified)
        ⊎ ((c : Config) × (j : Item) × (item ≡ some j)
            × (validate c ≡ [])
            × (chosen_config m env yaml max include_url from_cache item ≡ made c j))
  unfolding chosen_config marshalled parsed_config parse parse_expanded parse_decoded validate
  chosen_config_valid from_cache none complete trips = inl refl
  chosen_config_valid from_cache (some j) complete trips =
      let valid : validate (apply_defaults m (item_config m max include_url j)) ≡ [] =
        item_config_valid m max include_url j trimmed named (complete j refl) in
      let c : Config = record (apply_defaults m (item_config m max include_url j)) {
        path = vault_path from_cache;
      } in
      let (text, put, plain, read) = trips j refl in
      inr (
        c,
        j,
        refl,
        valid,
        rw (put, marshalled, parse, plain, parse_expanded, read, parse_decoded, valid, finish) refl,
      )

  -- autoConfig ends with an error of the credential, or with a configuration that passes Validate,
  -- for the item that it goes on with: what it makes up is never invalid, whatever the cache's file,
  -- the vault and GitHub say. This is where the made-up configuration's YAML is written, refers to no
  -- variable that would change it, and decodes to what it was written from, and where the name of the
  -- architecture is not empty and has no spaces around it.
  pub auto_config_valid :
      (probe : Item → Probe) (now : ℕ) (file : Option Item) (fields : Option (List VaultField))
      → ((j : Item)
          → (choose_item probe (read_cache file) (load_item now fields)).item ≡ some j
          → (text : Text) × (yaml.marshal (item_config m max include_url j) ≡ some text)
            × (expand_env env text ≡ expanded text)
            × (yaml.decode text ≡ some (item_config m max include_url j)))
      → (auto_config m env yaml max include_url probe now file fields ≡ unverified)
        ⊎ ((c : Config) × (j : Item) × ((choose_item probe
                (read_cache file)
                (load_item now fields)).item
              ≡ some j)
            × (validate c ≡ [])
            × (auto_config m env yaml max include_url probe now file fields ≡ made c j))
  unfolding auto_config
  auto_config_valid probe now file fields trips =
      let c : Chosen = choose_item probe (read_cache file) (load_item now fields) in
      chosen_config_valid c.from_cache c.item (chosen_complete probe now file fields) trips
