-- ===== src/ProcessProvider/Template/Installed.antt =====
-- ensureTemplate installs a whole template or none.
use action_runner_cluster.Prelude.{
  All, All-map, Bool, Bool-cases, List, Option, Option-cases, Text, [], false, inl, inr, nat_eq,
  none, not, refl, select, select-All, some, sym, text_eq, true, ◌&&◌, ◌==◌, ◌∙◌, ◌≡◌, ◌⊎◌,
}
use action_runner_cluster.ProcessProvider.Cloning.{runner_entrypoint}
use action_runner_cluster.ProcessProvider.Template.{
  Tree, Disk, Setup, has_file, is_stale, remove_stale, stat_of, abandon, install, fetch, stage,
  with_release, ensure_template, latest_version, downloaded,
}

-- A template that a set-up has put there: it has the entry script, and no file of an identity that
-- could be removed.
pub record IsUnconfigured (s : Setup) (t : Tree) : Type 0 where
  pub is_dir : t.is_dir ≡ true
  pub has_entry : has_file (runner_entrypoint s.platform) t.files ≡ true
  pub no_stale : All (λ f. (is_stale f ≡ false) ⊎ (s.file_removed f ≡ false)) t.files

-- What ensureTemplate does to the disk.
pub record IsInstalled (s : Setup) (d : Disk) (r : Bool × Disk) : Type 0 where
  pub installed :
      d.template ≡ none → r.0 ≡ true → (t : Tree) × (r.1.template ≡ some t) × IsUnconfigured s t
  pub refused : r.0 ≡ false → r.1.template ≡ d.template
  pub kept : (t : Tree) → d.template ≡ some t → r.1 ≡ d

-- A step that fails leaves the template as it was.
failed_lem :
    (s : Setup) (d d' : Disk) → d.template ≡ none → d'.template ≡ none → IsInstalled s d (false, d')
failed_lem s d d' e e' = record {
  installed = λ _ t. absurd (let q : false ≡ true = t in cc);
  refused = λ _. e' ∙ sym e;
  kept = λ t there. absurd (let q : none ≡ some t = sym e ∙ there in cc);
}

not_both : (a b : Bool) → not (a && b) ≡ true → (a ≡ false) ⊎ (b ≡ false)
not_both true true e = absurd (let q : false ≡ true = e in cc)
not_both true false e = inr refl
not_both false b e = inl refl

remove_stale-clean :
    (removes : Text → Bool) (files : List Text)
    → All (λ f. (is_stale f ≡ false) ⊎ (removes f ≡ false)) (remove_stale removes files)
unfolding remove_stale
remove_stale-clean removes files =
    All-map (λ f. not (is_stale f && removes f) ≡ true) _
      (select (λ f. not (is_stale f && removes f)) files)
      (λ f e. not_both (is_stale f) (removes f) e)
      (select-All (λ f. not (is_stale f && removes f)) files)

module _ (s : Setup) (d : Disk) (missing : d.template ≡ none) where
  install_lem :
      (files : List Text) (e : Disk) → e.template ≡ none → IsInstalled s d (install s files e)
  unfolding install abandon
  install_lem files e same = elim (Bool-cases s.archive_removed) [
    | inr bad ↦ simp (bad, install) (failed_lem s d _ missing same)
    | inl removed ↦
        elim (Bool-cases
          (has_file (runner_entrypoint s.platform) (remove_stale s.file_removed files))) [
            | inr bad ↦ simp (removed, bad, install) (failed_lem s d _ missing same)
            | inl entry ↦ elim (Bool-cases s.renamed) [
              | inr bad ↦ simp (removed, entry, bad, install) (failed_lem s d _ missing same)
              | inl moved ↦
                  simp (removed, entry, moved, install)
                    (record {
                      installed = λ _ _. (
                        record { is_dir = true; files = remove_stale s.file_removed files },
                        refl,
                        record {
                          is_dir = refl;
                          has_entry = entry;
                          no_stale = remove_stale-clean s.file_removed files;
                        },
                      );
                      refused = λ q. absurd (let w : true ≡ false = q in cc);
                      kept = λ t there. absurd (let q : none ≡ some t = sym missing ∙ there in cc);
                    })
            ]
          ]
  ]

  fetch_lem : (e : Disk) → e.template ≡ none → IsInstalled s d (fetch s e)
  unfolding fetch abandon
  fetch_lem e same = elim (Bool-cases (downloaded s.download)) [
    | inr bad ↦ simp (bad, fetch) (failed_lem s d _ missing same)
    | inl got ↦ elim (Option-cases s.unpacked) [
      | inl bad ↦ simp (got, bad, fetch) (failed_lem s d _ missing same)
      | inr (files, unpacked) ↦ simp (got, unpacked, fetch) (install_lem files e same)
    ]
  ]

  stage_lem : IsInstalled s d (stage s d)
  unfolding stage
  stage_lem = elim (Bool-cases s.staging_cleared) [
    | inr bad ↦ simp (bad, stage) (failed_lem s d d missing missing)
    | inl cleared ↦ elim (Bool-cases s.staging_made) [
      | inr bad ↦ simp (cleared, bad, stage) (failed_lem s d _ missing missing)
      | inl made ↦
          simp (cleared, made, stage)
            (fetch_lem (record d { staging = some (record { is_dir = true; files = [] }) }) missing)
    ]
  ]

unchanged_lem :
    (s : Setup) (d : Disk) (b : Bool) → (d.template ≡ none → b ≡ false) → IsInstalled s d (b, d)
unchanged_lem s d b h = record {
  installed = λ e t. absurd (let q : true ≡ false = sym t ∙ h e in cc);
  refused = λ _. refl;
  kept = λ t there. refl;
}

by_template :
    (s : Setup) (d : Disk) (template_dir : Text) (there : Option Tree)
    → (template_dir == []) ≡ false
    → s.stat_fails ≡ false
    → d.template ≡ there
    → IsInstalled s d (ensure_template s template_dir d)
unfolding ensure_template stat_of with_release
by_template s d template_dir (some t) named fine e =
    simp (named, fine, e, ensure_template, stat_of)
      (unchanged_lem s d true (λ m. absurd (let q : none ≡ some t = sym m ∙ e in cc)))
by_template s d template_dir none named fine e =
    simp (named, fine, e, ensure_template, stat_of) (released_lem (latest_version s.release))
  where
    released_lem : (v : Option Text) → IsInstalled s d (with_release v s d)
    released_lem none = unchanged_lem s d false (λ _. refl)
    released_lem (some v) = stage_lem s d e

-- ensureTemplate installs a whole template or none: where there was none and it succeeds, the
-- template has the runner's entry script, and no file of an earlier configuration but those whose
-- removal failed; where it fails,
-- the template is what it was; and where there is one already, nothing on the disk changes,
-- whatever the one holds.
pub ensure_template-IsInstalled :
    (s : Setup) (template_dir : Text) (d : Disk)
    → IsInstalled s d (ensure_template s template_dir d)
unfolding ensure_template stat_of
ensure_template-IsInstalled s template_dir d = elim (Bool-cases (template_dir == [])) [
  | inl empty ↦ simp (empty, ensure_template) (unchanged_lem s d false (λ _. refl))
  | inr named ↦ elim (Bool-cases s.stat_fails) [
    | inl bad ↦ simp (named, bad, ensure_template, stat_of) (unchanged_lem s d false (λ _. refl))
    | inr fine ↦ by_template s d template_dir d.template named fine refl
  ]
]
