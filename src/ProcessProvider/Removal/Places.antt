-- ===== src/ProcessProvider/Removal/Places.antt =====
-- Which entry Destroy acts on: the names of entries stand for themselves.
use mathlib.Core.List.{reverse-reverse, reverse-append}
use action_runner_cluster.Prelude.{
  All, All-append, Text, [], ap, arith, codes, refl, reverse, sym, text_beq_iff, ◌∙◌, ◌∷◌, ◌≡◌, ◌≢◌,
}
use action_runner_cluster.ProcessProvider.Removal.{
  drop_slashes, before_slash, non_empty, filepath_base, place_of, under,
}

abbrev pub NoSlash : Text → Type 0
NoSlash = All (λ c. c ≢ b'/')

-- What a directory can hold as a name.
pub record IsFileName (name : Text) : Type 0 where
  pub not_empty : name ≢ []
  pub no_slash : NoSlash name
  pub not_dot : name ≢ codes "."
  pub not_dots : name ≢ codes ".."

reverse-NoSlash : (s : Text) → NoSlash s → NoSlash (reverse s)
reverse-NoSlash [] h = tt
reverse-NoSlash (c ∷ s) h =
    rw (reverse-append (c ∷ []) s)
      (All-append _ (reverse s) (c ∷ []) (reverse-NoSlash s h.1) (h.0, tt))

drop_slashes_id : (s : Text) → NoSlash s → drop_slashes s ≡ s
unfolding drop_slashes
drop_slashes_id [] h = refl
drop_slashes_id (c ∷ s) h = ground (arith, h.0)

before_slash_id : (s : Text) → NoSlash s → before_slash s ≡ s
unfolding before_slash
before_slash_id [] h = refl
before_slash_id (c ∷ s) h = ground (arith, h.0, before_slash_id s)

non_empty_id : (s : Text) → s ≢ [] → NoSlash s → non_empty s ≡ reverse s
unfolding non_empty
non_empty_id [] n h = absurd (n refl)
non_empty_id (c ∷ s) n h = ap reverse (before_slash_id (c ∷ s) h)

reverse_nonempty : (s : Text) → s ≢ [] → reverse s ≢ []
reverse_nonempty s n e = n (sym (reverse-reverse s) ∙ ap reverse e)

filepath_base_id : (name : Text) → IsFileName name → filepath_base name ≡ name
unfolding filepath_base
filepath_base_id [] f = absurd (f.not_empty refl)
filepath_base_id (c ∷ s) f =
    let back : NoSlash (reverse (c ∷ s)) = reverse-NoSlash (c ∷ s) f.no_slash in
    rw (drop_slashes_id (reverse (c ∷ s)) back) (
      non_empty_id (reverse (c ∷ s)) (reverse_nonempty (c ∷ s) f.not_empty) back
      ∙ reverse-reverse (c ∷ s))

not_slash : (name : Text) → NoSlash name → name ≢ codes "/"
not_slash [] h e = cc
not_slash (c ∷ s) h e = h.0 (cc)

pub place_of_name : (name : Text) → IsFileName name → place_of name ≡ under name
unfolding place_of
place_of_name name f = rw (filepath_base_id name f) (
    ground (
      arith,
      f.not_dot,
      f.not_dots,
      not_slash name f.no_slash,
      text_beq_iff name (codes "."),
      text_beq_iff name (codes "/"),
      text_beq_iff name (codes ".."),
    ))
