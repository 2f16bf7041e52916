-- ===== src/Examples/Pages.antt =====
-- Pages of GitHub: a loop of links, and repositories by their pushes.
use action_runner_cluster.Prelude.{
  List, Option, Text, [], codes, false, length, pos, some, suc, ℕ, ◌↔◌, ◌∷◌, ◌≡◌, ◌≤◌,
}
use action_runner_cluster.Ghapi.{Repo}
use action_runner_cluster.Ghapi.Paging.{PageReply, page, Paged, complete, pages_from, paginate}
use action_runner_cluster.Ghapi.Paging.Bounded.{Chain, folded, paginate_ends}
use action_runner_cluster.Ghapi.Repos.{RepoFilterOpts}

-- Every page links to itself.
abbrev looping : ℕ → Text → PageReply
looping n url = page (codes "[]") url

abbrev count : ℕ → Text → Option ℕ
count n body = some (suc n)

paginate_ends_example :
    (r : Paged ℕ) × (pages_from looping count 201 0 (codes "/x") 0 ≡ some r)
    × (paginate looping count (codes "/x") 0 ≡ r)
    × ((n : ℕ)
        → (r ≡ complete n) ↔ (
            (bodies : List Text) × Chain looping count 0 (codes "/x") bodies
            × (folded looping count 0 bodies ≡ some n)
            × (length bodies ≤ 200)))
paginate_ends_example = paginate_ends looping count (codes "/x") 0

abbrev app : Repo
app = record {
  name = codes "app";
  full_name = codes "me/app";
  archived = false;
  disabled = false;
  fork = false;
  pushed_at = 90;
  owner = codes "me";
}

abbrev filter : RepoFilterOpts
filter = record {
  include = [];
  include_url = [];
  exclude = codes "doc*" ∷ [];
  active_within = pos 50;
  archived = false;
}

-- The second page starts with a push that is too old.
abbrev two_pages : List (List Repo)
two_pages =
    (app ∷ record app { name = codes "docs"; pushed_at = 80 } ∷ [])
    ∷ (record app { name = codes "old"; pushed_at = 10 } ∷ [])
    ∷ []
