-- ===== src/Ghapi/Repos/Watched.antt =====
-- What ListRepos drops of pages in GitHub's order, and what makes a repository one of those that are watched.
use action_runner_cluster.Prelude.{
  All, List, Option, Text, [], arith, equal_fold, false, if◌then◌else◌, int_eq, leb, length, nat_eq,
  pair_eq, refl, select, text_beq_iff, text_eq, true, ℤ, ◌++◌, ◌==◌, ◌↔◌, ◌∷◌, ◌≡◌, ◌≢◌, ◌≤◌, ◌⊎◌,
}
use action_runner_cluster.Ghapi.{Repo}
use action_runner_cluster.Ghapi.Repos.{RepoFilterOpts, match_any, match_name, too_old, is_kept}

-- The repositories that pass every test, without any stop.
abbrev pub passing : Text → RepoFilterOpts → Option ℤ → List Repo → List Repo
passing owner f cutoff repos =
    select (λ r. if too_old cutoff r then false else is_kept owner f r) repos

-- GitHub's order: the newest push first.
abbrev pub IsNewestFirst : List Repo → Type 0
IsNewestFirst [] = Unit
IsNewestFirst (r ∷ more) = All (λ q. q.pushed_at ≤ r.pushed_at) more × IsNewestFirst more

abbrev pub joined : List (List Repo) → List Repo
joined [] = []
joined (p ∷ ps) = p ++ joined ps

-- A repository that the filter lets through.
pub record IsWatched (owner : Text) (f : RepoFilterOpts) (r : Repo) : Type 0 where
  pub right_owner : (owner ≡ []) ⊎ (equal_fold r.owner owner ≡ true)
  pub forks_asked_for : (owner ≡ []) ⊎ ((r.fork ≡ false) ⊎ (f.include ≢ []))
  pub enabled : r.disabled ≡ false
  pub archived_wanted : (r.archived ≡ false) ⊎ (f.archived ≡ true)
  pub included : (f.include ≡ []) ⊎ (match_any f.include r.name ≡ true)
  pub not_excluded : match_any f.exclude r.name ≡ false

no_patterns : (l : List Text) → (leb (length l) 0 ≡ true) ↔ (l ≡ [])
no_patterns [] = (λ _. refl, λ _. refl)
no_patterns (p ∷ ps) = (λ e. ground arith, λ e. cc)

-- A repository that is young enough is listed exactly if it belongs to the account, is a fork only
-- where names are asked for or the account is an organization, is not disabled, is archived only
-- where those are wanted, and its name matches the patterns to include, if there are any, and none
-- to exclude.
pub is_kept_iff :
    (owner : Text) (f : RepoFilterOpts) (r : Repo)
    → (is_kept owner f r ≡ true) ↔ IsWatched owner f r
unfolding is_kept match_name
is_kept_iff owner f r = (λ e. kept_sound e, λ w. kept_complete w)
  where
    no_owner : ((owner == []) ≡ true) ↔ (owner ≡ [])
    no_owner = text_beq_iff owner []

    kept_sound : is_kept owner f r ≡ true → IsWatched owner f r
    kept_sound e = record {
      right_owner = ground (arith, no_owner);
      forks_asked_for = ground (arith, no_owner, no_patterns f.include);
      enabled = ground arith;
      archived_wanted = ground arith;
      included = ground (arith, no_patterns f.include);
      not_excluded = ground arith;
    }

    kept_complete : IsWatched owner f r → is_kept owner f r ≡ true
    kept_complete w = ground (
      arith,
      no_owner,
      no_patterns f.include,
      w.right_owner,
      w.forks_asked_for,
      w.enabled,
      w.archived_wanted,
      w.included,
      w.not_excluded,
    )
