-- ===== src/Ghapi/Repos.antt =====
-- internal/ghapi/jobs.go: ListRepos, the filter on names, and the list of names
-- that a URL serves. Pages come decoded, or not; a page of GitHub is newest push first.
pub mod Watched
use mathlib.Core.Option
use action_runner_cluster.Prelude.{
  Bool, List, Option, Text, [], any, codes, equal_fold, false, has_prefix, if◌then◌else◌, int_eq,
  leb, length, ltb, ltb_ℤ, map, nat_beq, nat_eq, none, not, pair_eq, pos, some, sort_stable,
  split_at, text_eq, to_lower, trim_space, true, ℕ, ℤ, ◌&&◌, ◌++◌, ◌-ℤ◌, ◌==◌, ◌||◌, ◌∷◌,
}
use action_runner_cluster.Ghapi.{Repo}
use action_runner_cluster.Ghapi.Globs.{path_match}

-- RepoFilterOpts; durations are nanoseconds.
pub record RepoFilterOpts : Type 0 where
  pub include : List Text
  pub include_url : Text
  pub exclude : List Text
  pub active_within : ℤ
  pub archived : Bool

-- `matchAny`
unfoldable pub match_any : List Text → Text → Bool
unfolding any equal_fold path_match to_lower
match_any patterns name =
    any (λ p. equal_fold p name || path_match (to_lower p) (to_lower name)) patterns

-- `RepoFilterOpts.match`
unfoldable pub match_name : RepoFilterOpts → Text → Bool
unfolding match_any
match_name f name =
    if not (leb (length f.include) 0) && not (match_any f.include name)
    then false
    else not (match_any f.exclude name)

-- The lines of parseRepoInclude.
include_lines : List Text → List Text
unfolding trim_space has_prefix
include_lines [] = []
include_lines (l ∷ ls) =
    let line : Text = trim_space l in
    if line == [] || has_prefix line (codes "#") then include_lines ls else line ∷ include_lines ls

non_empty_list : List Text → Option (List Text)
non_empty_list [] = none
non_empty_list (l ∷ ls) = some (l ∷ ls)

-- `parseRepoInclude`; none is the error of an empty list.
unfoldable pub parse_repo_include : Text → Option (List Text)
unfolding include_lines non_empty_list split_at
parse_repo_include body = non_empty_list (include_lines (split_at 10 body))

-- What the request for the list comes to: no response, with what curl gives on a Mac, or a response
-- with its body.
pub data IncludeReply : Type 0 where
  no_response : (curl : Option Text) → IncludeReply
  responded : (status : ℕ) (body : Option Text) → IncludeReply

-- `fetchRepoInclude`
unfoldable pub fetch_repo_include : Bool → IncludeReply → Option (List Text)
unfolding parse_repo_include
fetch_repo_include darwin (no_response none) = none
fetch_repo_include darwin (no_response (some body)) =
    if darwin then parse_repo_include body else none
fetch_repo_include darwin (responded status none) = none
fetch_repo_include darwin (responded status (some body)) =
    if not (status == 200) then none else parse_repo_include body

-- The time before which a push is too old; none is the zero time.
unfoldable pub cutoff_of : ℤ → RepoFilterOpts → Option ℤ
cutoff_of now f = if ltb_ℤ (pos 0) f.active_within then some (now -ℤ f.active_within) else none

unfoldable pub too_old : Option ℤ → Repo → Bool
too_old none r = false
too_old (some cutoff) r = ltb_ℤ (pos r.pushed_at) cutoff

-- The tests in the loop's body after the one on the push.
unfoldable pub is_kept : Text → RepoFilterOpts → Repo → Bool
unfolding equal_fold match_name
is_kept owner f r =
    if not (owner == []) && not (equal_fold r.owner owner)
    then false
    else if not (owner == []) && r.fork && leb (length f.include) 0
    then false
    else if r.disabled
    then false
    else if r.archived && not f.archived
    then false
    else match_name f r.name

-- One page: what is kept of it, and whether a push was too old.
scan_page : Text → RepoFilterOpts → Option ℤ → List Repo → List Repo × Bool
unfolding too_old is_kept
scan_page owner f cutoff [] = ([], false)
scan_page owner f cutoff (r ∷ more) =
    let rest : List Repo × Bool = scan_page owner f cutoff more in
    if too_old cutoff r
    then ([], true)
    else (if is_kept owner f r then r ∷ rest.0 else rest.0, rest.1)

-- The function that paginate calls, over the pages, all of which are fetched: once a push was too
-- old, a page is not even decoded. None is an error of decoding.
unfoldable pub scan_pages :
    Text → RepoFilterOpts → Option ℤ → Bool → List (Option (List Repo)) → Option (List Repo)
unfolding scan_page
scan_pages owner f cutoff stop [] = some []
scan_pages owner f cutoff true (p ∷ more) = scan_pages owner f cutoff true more
scan_pages owner f cutoff false (none ∷ more) = none
scan_pages owner f cutoff false (some repos ∷ more) =
    let one : List Repo × Bool = scan_page owner f cutoff repos in
    elim (scan_pages owner f cutoff one.1 more) [ none ↦ none | some rest ↦ some (one.0 ++ rest) ]

-- Strings in Go's order.
text_leb : Text → Text → Bool
text_leb [] t = true
text_leb (c ∷ s) [] = false
text_leb (c ∷ s) (d ∷ t) = if ltb c d then true else nat_beq c d && text_leb s t

unfoldable pub by_name : Repo → Repo → Bool
unfolding text_leb
by_name a b = text_leb a.name b.name

with_include : RepoFilterOpts → List Text → RepoFilterOpts
with_include f more = record f { include = f.include ++ more }

-- `ListRepos`, on the pages that paginate hands over; `fetched` is the list that IncludeURL serves,
-- none if it cannot be had.
unfoldable pub list_repos :
    Text → ℤ → RepoFilterOpts → Option (List Text) → List (Option (List Repo)) → Option (List Repo)
unfolding scan_pages cutoff_of with_include by_name
list_repos owner now f fetched pages = elim (f.include_url == []) [
  | true ↦ Option.map (sort_stable by_name) (scan_pages owner f (cutoff_of now f) false pages)
  | false ↦ elim fetched [
    | none ↦ none
    | some more ↦
        Option.map (sort_stable by_name)
          (scan_pages owner (with_include f more) (cutoff_of now f) false pages)
  ]
]
