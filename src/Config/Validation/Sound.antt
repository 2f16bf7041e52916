-- ===== src/Config/Validation/Sound.antt =====
-- internal/config/config.go: what a configuration that Validate accepts is like.
use action_runner_cluster.Prelude.{
  All, Bool, Bool-cases, In, List, Option, Text, [], any, ap, arith, codes, false, inl, inr,
  is_some, leb, length, ltb_ℤ, map, nat_eq, none, not, pos, refl, some, text_beq_iff, text_eq,
  trim_space, true, ℕ, ◌++◌, ◌+◌, ◌==◌, ◌||◌, ◌∷◌, ◌≡◌, ◌≢◌, ◌≤ℤ◌, ◌⊎◌,
}
use action_runner_cluster.Config.{GitHub, DockerSpec, Pool, Config}
use action_runner_cluster.Config.Validation.{
  unknown_provider, pool_wrong, add_if, account_errors, credential_errors, owner_errors, app_errors,
  second, is_pool_name, is_mac_pool, name_errors, label_errors, limit_errors, is_pull,
  docker_errors, provider_errors, pool_errors, check_pools, validate,
}

none_of : {E : Type 0} (xs ys : List E) → xs ++ ys ≡ [] → (xs ≡ []) × (ys ≡ [])
none_of [] ys e = (refl, e)
none_of (x ∷ xs) ys e = cc

not_added : {E : Type 0} (test : Bool) (e : E) → add_if test e ≡ [] → test ≡ false
unfolding add_if
not_added true e h = cc
not_added false e h = refl

map-nil : {A B : Type 0} (f : A → B) (xs : List A) → map f xs ≡ [] → xs ≡ []
map-nil f [] e = refl
map-nil f (x ∷ xs) e = cc

-- A docker pool has an image and a way to pull it, and is not for macOS.
abbrev pub ValidDocker : Pool → Type 0
ValidDocker p =
    (p.process ≡ none)
    × ((d : DockerSpec) × (p.docker ≡ some d)
        × (d.image ≢ [])
        × (is_pull d.pull ≡ true)
        × (is_mac_pool p ≡ false))

pub record ValidPool (g : GitHub) (p : Pool) : Type 0 where
  pub named : is_pool_name p.name ≡ true
  pub labelled : p.labels ≢ []
  pub trimmed : All (λ l. (trim_space l ≡ l) × (l ≢ [])) p.labels
  pub min_nonneg : pos 0 ≤ℤ p.min
  pub some_room : pos 1 ≤ℤ p.max
  pub ordered : p.min ≤ℤ p.max
  pub no_floor : g.owner ≢ [] → p.min ≡ pos 0
  pub provided :
      ((p.provider ≡ codes "docker") × ValidDocker p)
      ⊎ ((p.provider ≡ codes "process") × (p.docker ≡ none))

name_errors_lem : (name : Text) → name_errors name ≡ [] → is_pool_name name ≡ true
unfolding name_errors add_if
name_errors_lem name h = ground arith

label_errors_lem :
    (ls : List Text) → label_errors ls ≡ [] → All (λ l. (trim_space l ≡ l) × (l ≢ [])) ls
unfolding label_errors
label_errors_lem [] h = tt
label_errors_lem (l ∷ ls) h =
    let (first, rest) = none_of _ (label_errors ls) h in
    let fine = not_added (not (trim_space l == l) || (l == [])) _ first in
    (
      (ground (arith, text_beq_iff (trim_space l) l), ground (arith, text_beq_iff l [])),
      label_errors_lem ls rest,
    )

limit_errors_lem :
    (g : GitHub) (p : Pool)
    → limit_errors g p ≡ []
    → (pos 0 ≤ℤ p.min) × (pos 1 ≤ℤ p.max) × (p.min ≤ℤ p.max) × (g.owner ≢ [] → p.min ≡ pos 0)
unfolding limit_errors add_if
limit_errors_lem g p h =
    (ground arith, ground arith, ground arith, λ n. ground (arith, text_beq_iff g.owner []))

docker_errors_lem :
    (p : Pool) (o : Option DockerSpec)
    → docker_errors p o ≡ []
    → (d : DockerSpec) × (o ≡ some d)
      × (d.image ≢ [])
      × (is_pull d.pull ≡ true)
      × (is_mac_pool p ≡ false)
unfolding docker_errors add_if
docker_errors_lem p none h = cc
docker_errors_lem p (some d) h =
    (d, refl, ground (arith, text_beq_iff d.image []), ground arith, ground arith)

unset : {A : Type 0} (o : Option A) → is_some o ≡ false → o ≡ none
unset none h = refl
unset (some a) h = cc

provider_errors_lem :
    (p : Pool)
    → provider_errors p ≡ []
    → ((p.provider ≡ codes "docker") × ValidDocker p)
      ⊎ ((p.provider ≡ codes "process") × (p.docker ≡ none))
unfolding provider_errors
provider_errors_lem p h = elim (Bool-cases (p.provider == codes "docker")) [
  | inl docker ↦
      let (alone, spec) =
        none_of (add_if (is_some p.process) _) (docker_errors p p.docker) (rw docker at h) in
      inl (
        (text_beq_iff p.provider (codes "docker")).0 docker,
        (
          unset p.process (not_added (is_some p.process) _ alone),
          docker_errors_lem p p.docker spec,
        ),
      )
  | inr other ↦ elim (Bool-cases (p.provider == codes "process")) [
    | inl process ↦ inr (
      (text_beq_iff p.provider (codes "process")).0 process,
      unset p.docker (not_added (is_some p.docker) _ (rw (other, process) at h)),
    )
    | inr neither ↦ absurd (let q : unknown_provider ∷ [] ≡ [] = rw (other, neither) at h in cc)
  ]
]

pool_errors_lem :
    (g : GitHub) (seen : List Text) (p : Pool)
    → pool_errors g seen p ≡ []
    → ValidPool g p × (any (λ n. n == p.name) seen ≡ false)
unfolding pool_errors
pool_errors_lem g seen p h =
    let (name, h1) = none_of (name_errors p.name) _ h in
    let (taken, h2) = none_of (add_if (any (λ n. n == p.name) seen) _) _ h1 in
    let (unlabelled, h3) = none_of (add_if (leb (length p.labels) 0) _) _ h2 in
    let (labels, h4) = none_of (label_errors p.labels) _ h3 in
    let (limits, provider) = none_of (limit_errors g p) (provider_errors p) h4 in
    let (low, room, order, floor) = limit_errors_lem g p limits in
    let some_label : leb (length p.labels) 0 ≡ false = not_added _ _ unlabelled in
    (
      record {
        named = name_errors_lem p.name name;
        labelled = λ e. let q = ap length e in ground arith;
        trimmed = label_errors_lem p.labels labels;
        min_nonneg = low;
        some_room = room;
        ordered = order;
        no_floor = floor;
        provided = provider_errors_lem p provider;
      },
      not_added _ _ taken,
    )

-- The pools after the names `seen` are there, are valid and have names of their own.
abbrev pub ValidPools : GitHub → List Text → List (Option Pool) → Type 0
ValidPools g seen [] = Unit
ValidPools g seen (none ∷ ps) = ⊥
ValidPools g seen (some p ∷ ps) =
    ValidPool g p × (¬ In p.name seen) × ValidPools g (p.name ∷ seen) ps

not_seen : (name : Text) (seen : List Text) → any (λ n. n == name) seen ≡ false → ¬ In name seen
unfolding any
not_seen name [] h m = m
not_seen name (n ∷ ns) h (inl e) = ground (arith, text_beq_iff n name)
not_seen name (n ∷ ns) h (inr m) = not_seen name ns (ground arith) m

check_pools_lem :
    (g : GitHub) (i : ℕ) (seen : List Text) (ps : List (Option Pool))
    → check_pools g i seen ps ≡ []
    → ValidPools g seen ps
unfolding check_pools
check_pools_lem g i seen [] h = tt
check_pools_lem g i seen (none ∷ ps) h = cc
check_pools_lem g i seen (some p ∷ ps) h =
    let (this, rest) = none_of (map (pool_wrong i) (pool_errors g seen p)) _ h in
    let (valid, new) =
      pool_errors_lem g seen p (map-nil (pool_wrong i) (pool_errors g seen p) this) in
    (valid, not_seen p.name seen new, check_pools_lem g (i + 1) (p.name ∷ seen) ps rest)

-- Exactly one of the two.
abbrev pub OneOf : Type 0 → Type 0 → Type 0
OneOf P Q = (P × (¬ Q)) ⊎ (Q × (¬ P))

pub record ValidConfig (c : Config) : Type 0 where
  pub one_account : OneOf (c.github.org ≢ []) (c.github.owner ≢ [])
  pub one_credential : OneOf (c.github.token ≢ []) (c.github.app ≢ none)
  pub owner_by_token : c.github.owner ≢ [] → (c.github.app ≡ none) × (c.github.runner_group ≡ [])
  pub calm : second ≤ℤ c.github.poll_interval
  pub some_pool : c.pools ≢ []
  pub pools_valid : ValidPools c.github [] c.pools

account_errors_lem : (g : GitHub) → account_errors g ≡ [] → OneOf (g.org ≢ []) (g.owner ≢ [])
unfolding account_errors add_if
account_errors_lem g h = ground (arith, text_beq_iff g.org [], text_beq_iff g.owner [])

credential_errors_lem :
    (g : GitHub) → credential_errors g ≡ [] → OneOf (g.token ≢ []) (g.app ≢ none)
unfolding credential_errors add_if
credential_errors_lem g h = ground (arith, text_beq_iff g.token [], unset g.app)

owner_errors_lem :
    (g : GitHub) → owner_errors g ≡ [] → g.owner ≢ [] → (g.app ≡ none) × (g.runner_group ≡ [])
unfolding owner_errors add_if
owner_errors_lem g h n =
    ground (arith, text_beq_iff g.owner [], text_beq_iff g.runner_group [], unset g.app)

-- A configuration that Validate accepts names one account and one credential, polls no faster than
-- every second, and has pools, which have proper names of their own, trimmed labels, limits with
-- 0 ≤ min ≤ max and 1 ≤ max, no minimum on a personal account, and what their provider needs.
pub validate_sound : (c : Config) → validate c ≡ [] → ValidConfig c
unfolding validate
validate_sound c h =
    let g : GitHub = c.github in
    let (account, h1) = none_of (account_errors g) _ h in
    let (credential, h2) = none_of (credential_errors g) _ h1 in
    let (owner, h3) = none_of (owner_errors g) _ h2 in
    let (app, h4) = none_of (app_errors g.app) _ h3 in
    let (poll, h5) = none_of (add_if (ltb_ℤ g.poll_interval second) _) _ h4 in
    let (some_pools, pools) = none_of (add_if (leb (length c.pools) 0) _) _ h5 in
    let slow : ltb_ℤ g.poll_interval second ≡ false = not_added _ _ poll in
    let any_pools : leb (length c.pools) 0 ≡ false = not_added _ _ some_pools in
    record {
      one_account = account_errors_lem g account;
      one_credential = credential_errors_lem g credential;
      owner_by_token = owner_errors_lem g owner;
      calm = ground arith;
      some_pool = λ e. let q = ap length e in ground arith;
      pools_valid = check_pools_lem g 0 [] c.pools pools;
    }
