-- ===== src/Ghapi/Paging/Bounded.antt =====
-- paginate ends after at most 201 requests, and succeeds exactly on a chain of at most 200 pages
-- that leads to its end.
use mathlib.Core.Option
use action_runner_cluster.Prelude.{
  Bool-cases, List, Option, Option-cases, Text, [], ap, arith, false, inl, inr, length, ltb, nat_eq,
  none, refl, some, suc, sym, text_beq_iff, text_eq, true, zero, ℕ, ◌+◌, ◌<◌, ◌==◌, ◌↔◌, ◌∙◌, ◌∷◌,
  ◌≡◌, ◌≢◌, ◌≤◌, ◌⊎◌,
}
use action_runner_cluster.Ghapi.Paging.{
  PageReply, page, no_page, Paged, complete, failed, too_long, max_pages, pages_from, paginate,
}

reply_cases :
    (r : PageReply) → (r ≡ no_page) ⊎ ((body : Text) × (next : Text) × (r ≡ page body next))
reply_cases no_page = inl refl
reply_cases (page body next) = inr (body, next, refl)

module _ {S : Type 0} (fetch : ℕ → Text → PageReply) (use_page : S → Text → Option S) where
  -- The pages from the `n`-th on, each at the URL that the one before gave, and none after them.
  abbrev pub Chain : ℕ → Text → List Text → Type 0
  Chain n url [] = url ≡ []
  Chain n url (body ∷ more) =
      (url ≢ []) × (next : Text) × (fetch n url ≡ page body next) × Chain (n + 1) next more

  abbrev pub folded : S → List Text → Option S
  folded s [] = some s
  folded s (body ∷ more) = elim (use_page s body) [ none ↦ none | some s' ↦ folded s' more ]

  pages_end :
      (fuel n : ℕ) (url : Text) (s : S)
      → max_pages < n + fuel
      → n ≤ max_pages
      → (r : Paged S) × (pages_from fetch use_page fuel n url s ≡ some r)
  unfolding pages_from
  pages_end zero n url s enough early = absurd (omega arith)
  pages_end (suc fuel) n url s enough early = elim (Bool-cases (url == [])) [
    | inl over ↦ (complete s, rw (over, pages_from) refl)
    | inr more ↦ elim (reply_cases (fetch n url)) [
      | inl bad ↦ (failed, rw (more, bad, pages_from) refl)
      | inr (body, next, got) ↦ elim (Option-cases (use_page s body)) [
        | inl refused ↦ (failed, rw (more, got, refused, pages_from) refl)
        | inr (s', used) ↦ elim (Bool-cases (ltb max_pages (n + 1))) [
          | inl stop ↦ (too_long, rw (more, got, used, stop, pages_from) refl)
          | inr on ↦
              let (r, e) = pages_end fuel (n + 1) next s' (omega arith) (ground (arith, on)) in
              (r, rw (more, got, used, on, pages_from) e)
        ]
      ]
    ]
  ]

  pages_total :
      (path : Text) (s : S) → (r : Paged S) × (pages_from fetch use_page 201 0 path s ≡ some r)
  pages_total path s = pages_end (max_pages + 1) 0 path s (omega arith) (omega arith)

  walked :
      (fuel n : ℕ) (url : Text) (s : S) {s' : S}
      → n ≤ max_pages
      → pages_from fetch use_page fuel n url s ≡ some (complete s')
      → (bodies : List Text) × Chain n url bodies
        × (folded s bodies ≡ some s')
        × (n + length bodies ≤ max_pages)
  unfolding pages_from
  walked zero n url s early e = cc
  walked (suc fuel) n url s {s'} early e = elim (Bool-cases (url == [])) [
    | inl over ↦
        let q : some (complete s) ≡ some (complete s') = rw (over, pages_from) at e in
        let same : s ≡ s' = cc in ([], (text_beq_iff url []).0 over, ap some same, omega arith)
    | inr more ↦ elim (reply_cases (fetch n url)) [
      | inl bad ↦
          absurd (let q : some failed ≡ some (complete s') = rw (more, bad, pages_from) at e in cc)
      | inr (body, next, got) ↦ elim (Option-cases (use_page s body)) [
        | inl refused ↦ absurd (
            let q : some failed ≡ some (complete s') = rw (more, got, refused, pages_from) at e in
            cc)
        | inr (t, used) ↦ elim (Bool-cases (ltb max_pages (n + 1))) [
          | inl stop ↦ absurd (
              let q : some too_long ≡ some (complete s') =
                rw (more, got, used, stop, pages_from) at e in
              cc)
          | inr on ↦
              let (bodies, chain, fold, few) =
                walked fuel (n + 1) next t (ground (arith, on))
                  (rw (more, got, used, on, pages_from) at e) in
              (
                body ∷ bodies,
                (
                  λ q. let w : true ≡ false = sym ((text_beq_iff url []).1 q) ∙ more in cc,
                  next,
                  got,
                  chain,
                ),
                rw (used, folded) fold,
                omega arith,
              )
        ]
      ]
    ]
  ]

  walks :
      (fuel n : ℕ) (url : Text) (s : S) (bodies : List Text) {s' : S}
      → length bodies < fuel
      → n + length bodies ≤ max_pages
      → Chain n url bodies
      → folded s bodies ≡ some s'
      → pages_from fetch use_page fuel n url s ≡ some (complete s')
  unfolding pages_from
  walks zero n url s bodies enough early chain e = absurd (omega arith)
  walks (suc fuel) n url s [] enough early chain e =
      let over : (url == []) ≡ true = (text_beq_iff url []).1 chain in
      rw (over, pages_from) (ap (Option.map complete) e)
  walks (suc fuel) n url s (body ∷ more) {s'} enough early chain e = elim (Bool-cases (url == [])) [
    | inl over ↦ absurd (chain.0 ((text_beq_iff url []).0 over))
    | inr on ↦ elim (Option-cases (use_page s body)) [
      | inl refused ↦ absurd (let q : none ≡ some s' = rw (refused, folded) at e in cc)
      | inr (t, used) ↦
          let below : ltb max_pages (n + 1) ≡ false = ground arith in
          rw (on, chain.2, used, below, pages_from)
            (walks fuel (n + 1) chain.1 t more (omega arith) (omega arith) chain.3
              (rw (used, folded) at e))
    ]
  ]

  paginate_complete :
      (path : Text) (s s' : S)
      → (paginate fetch use_page path s ≡ complete s') ↔ (
          (bodies : List Text) × Chain 0 path bodies
          × (folded s bodies ≡ some s')
          × (length bodies ≤ max_pages))
  unfolding paginate
  paginate_complete path s s' =
      let (r, e) = pages_total path s in
      (
        λ done.
            let q : r ≡ complete s' = rw (e, paginate) at done in
            let (bodies, chain, fold, few) =
              walked (max_pages + 1) 0 path s (omega arith) (e ∙ ap some q) in
            (bodies, chain, fold, omega arith),
        λ w.
            rw
              (
                walks (max_pages + 1) 0 path s w.0 (omega (arith, w.3)) (omega (arith, w.3)) w.1
                    w.2,
                paginate,
              )
              refl,
      )

  -- paginate ends whatever the server answers, also where the links of the pages form a loop: its
  -- loop ends within 201 rounds, and so after 201 pages at the latest. It succeeds exactly on a chain
  -- of pages, each at the URL that the one before gave, that ends by itself, has at most 200 pages
  -- and whose pages are all taken; its result is what the pages in their order give.
  pub paginate_ends :
      (path : Text) (s : S)
      → (r : Paged S) × (pages_from fetch use_page 201 0 path s ≡ some r)
        × (paginate fetch use_page path s ≡ r)
        × ((s' : S)
            → (r ≡ complete s') ↔ (
                (bodies : List Text) × Chain 0 path bodies
                × (folded s bodies ≡ some s')
                × (length bodies ≤ 200)))
  unfolding paginate
  paginate_ends path s =
      let (r, e) = pages_total path s in
      let same : paginate fetch use_page path s ≡ r = rw (e, paginate) refl in
      (
        r,
        e,
        same,
        λ s'.
            let whole = paginate_complete path s s' in
            (λ done. whole.0 (same ∙ done), λ w. sym same ∙ whole.1 w),
      )
