-- ===== src/Config/Validation.antt =====
-- internal/config/config.go: Validate. The texts of the errors are left out; an error names the pool
-- by its place, and by nothing else.
pub mod Sound
use action_runner_cluster.Prelude.{
  Bool, List, Option, Text, [], any, codes, equal_fold, false, if◌then◌else◌, is_some, leb, length,
  ltb_ℤ, map, nat_beq, nat_eq, none, not, pos, reverse, some, text_eq, to_lower, trim_space, true,
  ℕ, ℤ, ◌&&◌, ◌++◌, ◌+◌, ◌==◌, ◌||◌, ◌∷◌,
}
use action_runner_cluster.Config.{AppAuth, GitHub, DockerSpec, Pool, Config}

pub data PoolError : Type 0 where
  name_missing name_malformed name_taken no_labels min_negative min_with_owner max_too_small
        min_exceeds_max :
      PoolError
  bad_label : Text → PoolError
  process_given docker_missing image_missing bad_pull isolation_elsewhere macos_in_docker
        docker_given unknown_provider :
      PoolError

pub data ConfigError : Type 0 where
  no_account two_accounts no_credentials two_credentials app_with_owner group_with_owner
        app_id_missing installation_id_missing key_missing poll_too_fast no_pools :
      ConfigError
  pool_empty : ℕ → ConfigError
  pool_wrong : ℕ → PoolError → ConfigError

-- `if test { add(...) }`
unfoldable pub add_if {ℓ} : {E : Type ℓ} → Bool → E → List E
add_if test e = if test then e ∷ [] else []

unfoldable pub account_errors : GitHub → List ConfigError
unfolding add_if
account_errors g =
    if (g.org == []) && (g.owner == [])
    then no_account ∷ []
    else add_if (not (g.org == []) && not (g.owner == [])) two_accounts

unfoldable pub credential_errors : GitHub → List ConfigError
unfolding add_if
credential_errors g =
    if (g.token == []) && not (is_some g.app)
    then no_credentials ∷ []
    else add_if (not (g.token == []) && is_some g.app) two_credentials

unfoldable pub owner_errors : GitHub → List ConfigError
unfolding add_if
owner_errors g =
    if g.owner == []
    then []
    else add_if (is_some g.app) app_with_owner
      ++ add_if (not (g.runner_group == [])) group_with_owner

is_zero : ℤ → Bool
is_zero n = not (ltb_ℤ n (pos 0)) && not (ltb_ℤ (pos 0) n)

unfoldable pub app_errors : Option AppAuth → List ConfigError
unfolding add_if is_zero
app_errors none = []
app_errors (some a) =
    add_if (is_zero a.app_id) app_id_missing
    ++ (add_if (is_zero a.installation_id) installation_id_missing
        ++ add_if ((a.private_key == []) && (a.private_key_path == [])) key_missing)

abbrev pub second : ℤ
second = pos 1000000000

is_alnum : ℕ → Bool
is_alnum c = (leb b'a' c && leb c b'z') || (leb b'0' c && leb c b'9')

all_name_bytes : Text → Bool
unfolding is_alnum
all_name_bytes [] = true
all_name_bytes (c ∷ cs) = if is_alnum c || nat_beq c b'-' then all_name_bytes cs else false

-- The first byte, and the same of the reversed text for the last.
starts_alnum : Text → Bool
unfolding is_alnum
starts_alnum [] = false
starts_alnum (c ∷ cs) = is_alnum c

-- poolNameRE
unfoldable pub is_pool_name : Text → Bool
unfolding all_name_bytes starts_alnum
is_pool_name s =
    leb 2 (length s)
    && leb (length s) 40
    && all_name_bytes s
    && starts_alnum s
    && starts_alnum (reverse s)

-- `isWindowsPool`
unfoldable pub is_windows_pool : Pool → Bool
unfolding any equal_fold
is_windows_pool p = any (λ l. equal_fold l (codes "windows")) p.labels

mac_labels : List Text
mac_labels = codes "macos" ∷ codes "macos-latest" ∷ codes "darwin" ∷ codes "osx" ∷ []

-- `isMacPool`
unfoldable pub is_mac_pool : Pool → Bool
unfolding any mac_labels to_lower
is_mac_pool p = any (λ l. any (λ m. m == to_lower l) mac_labels) p.labels

unfoldable pub name_errors : Text → List PoolError
unfolding add_if
name_errors name =
    if name == [] then name_missing ∷ [] else add_if (not (is_pool_name name)) name_malformed

-- The loop over the labels.
unfoldable pub label_errors : List Text → List PoolError
unfolding add_if
label_errors [] = []
label_errors (l ∷ ls) =
    add_if (not (trim_space l == l) || (l == [])) (bad_label l) ++ label_errors ls

unfoldable pub limit_errors : GitHub → Pool → List PoolError
unfolding add_if
limit_errors g p =
    add_if (ltb_ℤ p.min (pos 0)) min_negative
    ++ (add_if (not (g.owner == []) && ltb_ℤ (pos 0) p.min) min_with_owner
        ++ (add_if (ltb_ℤ p.max (pos 1)) max_too_small
            ++ add_if (ltb_ℤ p.max p.min) min_exceeds_max))

unfoldable pub is_pull : Text → Bool
is_pull s = s == codes "always" || s == codes "missing" || s == codes "never"

-- What a docker pool's block must be; the `break` ends the checks when there is none.
unfoldable pub docker_errors : Pool → Option DockerSpec → List PoolError
unfolding add_if
docker_errors p none = docker_missing ∷ []
docker_errors p (some d) =
    add_if (d.image == []) image_missing
    ++ (add_if (not (is_pull d.pull)) bad_pull
        ++ (add_if (not (d.isolation == []) && not (is_windows_pool p)) isolation_elsewhere
            ++ add_if (is_mac_pool p) macos_in_docker))

unfoldable pub provider_errors : Pool → List PoolError
unfolding add_if
provider_errors p =
    if p.provider == codes "docker"
    then add_if (is_some p.process) process_given ++ docker_errors p p.docker
    else if p.provider == codes "process"
    then add_if (is_some p.docker) docker_given
    else unknown_provider ∷ []

-- One pool, after the pools of the names `seen`.
unfoldable pub pool_errors : GitHub → List Text → Pool → List PoolError
unfolding add_if any
pool_errors g seen p =
    name_errors p.name
    ++ (add_if (any (λ n. n == p.name) seen) name_taken
        ++ (add_if (leb (length p.labels) 0) no_labels
            ++ (label_errors p.labels ++ (limit_errors g p ++ provider_errors p))))

-- The loop over the pools, from the place `i` on.
unfoldable pub check_pools : GitHub → ℕ → List Text → List (Option Pool) → List ConfigError
check_pools g i seen [] = []
check_pools g i seen (none ∷ ps) = pool_empty i ∷ check_pools g (i + 1) seen ps
check_pools g i seen (some p ∷ ps) =
    map (pool_wrong i) (pool_errors g seen p) ++ check_pools g (i + 1) (p.name ∷ seen) ps

-- `Validate`; no errors stands for nil.
unfoldable pub validate : Config → List ConfigError
unfolding add_if
validate c =
    account_errors c.github
    ++ (credential_errors c.github
        ++ (owner_errors c.github
            ++ (app_errors c.github.app
                ++ (add_if (ltb_ℤ c.github.poll_interval second) poll_too_fast
                    ++ (add_if (leb (length c.pools) 0) no_pools
                        ++ check_pools c.github 0 [] c.pools)))))
