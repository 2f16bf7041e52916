-- ===== src/Ghapi/Paging.antt =====
-- internal/ghapi/client.go: paginate. What a request for a page comes to is an argument, by the
-- number of the page and its URL.
pub mod Bounded
use action_runner_cluster.Prelude.{
  Option, Text, [], false, ltb, nat_eq, none, or_else, some, suc, text_eq, true, zero, ℕ, ◌+◌, ◌==◌,
}

pub data PageReply : Type 0 where
  page : (body next : Text) → PageReply
  no_page : PageReply

-- How the walk ends: through the last page, with the error of a request or of the function that is
-- called with each page, or at the hard stop.
pub data Paged {ℓ} (S : Type ℓ) : Type ℓ where
  complete : S → Paged S
  failed too_long : Paged S

abbrev pub max_pages : ℕ
max_pages = 200

module _ {ℓ} {S : Type ℓ} (fetch : ℕ → Text → PageReply) (use_page : S → Text → Option S) where
  -- The loop, with `s` the state that the function has; none would mean that the fuel ran out.
  unfoldable pub pages_from : ℕ → ℕ → Text → S → Option (Paged S)
  pages_from zero n url s = none
  pages_from (suc fuel) n url s = elim (url == []) [
    | true ↦ some (complete s)
    | false ↦ elim (fetch n url) [
      | no_page ↦ some failed
      | page body next ↦ elim (use_page s body) [
        | none ↦ some failed
        | some s' ↦ elim (ltb max_pages (n + 1)) [
          | true ↦ some too_long
          | false ↦ pages_from fuel (n + 1) next s'
        ]
      ]
    ]
  ]

  -- `paginate`, with fuel for the pages that it may fetch.
  unfoldable pub paginate : Text → S → Paged S
  unfolding pages_from
  paginate path s = or_else failed (pages_from (max_pages + 1) 0 path s)
