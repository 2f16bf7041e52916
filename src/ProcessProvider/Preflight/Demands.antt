-- ===== src/ProcessProvider/Preflight/Demands.antt =====
-- What Preflight demands of the template and of the host.
use action_runner_cluster.Prelude.{
  Bool-cases, Option, Text, [], arith, codes, false, inl, inr, none, refl, some, sym, text_beq_iff,
  true, ◌↔◌, ◌∙◌, ◌≡◌, ◌⊎◌,
}
use action_runner_cluster.ProcessProvider.Cloning.{
  Platform, darwin, linux, windows, elsewhere, runner_entrypoint,
}
use action_runner_cluster.ProcessProvider.Template.{Tree, Disk, Setup, has_file, ensure_template}
use action_runner_cluster.ProcessProvider.Preflight.{
  no_template, template_unreadable, Checks, check_host, check_tree, check_template, preflight,
  deps_missing,
}

-- What Preflight finds of a provider that can work.
pub record IsFit (c : Checks) (os : Platform) (script : Text) (t : Tree) : Type 0 where
  pub is_dir : t.is_dir ≡ true
  pub has_entry : has_file (runner_entrypoint os) t.files ≡ true
  pub no_runner : has_file (codes ".runner") t.files ≡ false
  pub no_credentials : has_file (codes ".credentials") t.files ≡ false
  pub stat_works : c.stat_works ≡ true
  pub instances_made : c.instances_made ≡ true
  pub tool_found : c.tool_found ≡ true
  pub script_found : (script ≡ []) ⊎ (c.script_found ≡ true)
  pub libraries : os ≡ linux → deps_missing c.probe ≡ false

check_host_sound :
    (c : Checks) (os : Platform) (script : Text)
    → check_host c os script ≡ none
    → (c.instances_made ≡ true)
      × (c.tool_found ≡ true)
      × ((script ≡ []) ⊎ (c.script_found ≡ true))
      × (os ≡ linux → deps_missing c.probe ≡ false)
unfolding check_host
check_host_sound c linux script e = ground (arith, text_beq_iff script [])
check_host_sound c darwin script e = ground (arith, text_beq_iff script [])
check_host_sound c windows script e = ground (arith, text_beq_iff script [])
check_host_sound c elsewhere script e = ground (arith, text_beq_iff script [])

check_host_complete :
    (c : Checks) (os : Platform) (script : Text)
    → c.instances_made ≡ true
    → c.tool_found ≡ true
    → (script ≡ []) ⊎ (c.script_found ≡ true)
    → (os ≡ linux → deps_missing c.probe ≡ false)
    → check_host c os script ≡ none
unfolding check_host
check_host_complete c linux script made tool found libs =
    ground (arith, text_beq_iff script [], libs refl)
check_host_complete c darwin script made tool found libs = ground (arith, text_beq_iff script [])
check_host_complete c windows script made tool found libs = ground (arith, text_beq_iff script [])
check_host_complete c elsewhere script made tool found libs = ground (arith, text_beq_iff script [])

check_tree_sound :
    (c : Checks) (os : Platform) (script : Text) (t : Tree)
    → c.stat_works ≡ true
    → check_tree c os script t ≡ none
    → IsFit c os script t
unfolding check_tree
check_tree_sound c os script t stat e =
    let (dir, entry, runner, credentials, host) = parts in
    let (made, tool, found, libs) = check_host_sound c os script host in
    record {
      is_dir = dir;
      has_entry = entry;
      no_runner = runner;
      no_credentials = credentials;
      stat_works = stat;
      instances_made = made;
      tool_found = tool;
      script_found = found;
      libraries = libs;
    }
  where
    parts :
        (t.is_dir ≡ true)
        × (has_file (runner_entrypoint os) t.files ≡ true)
        × (has_file (codes ".runner") t.files ≡ false)
        × (has_file (codes ".credentials") t.files ≡ false)
        × (check_host c os script ≡ none)
    parts = ground arith

check_tree_complete :
    (c : Checks) (os : Platform) (script : Text) (t : Tree)
    → IsFit c os script t
    → check_tree c os script t ≡ none
unfolding check_tree
check_tree_complete c os script t f =
    simp (f.is_dir, f.has_entry, f.no_runner, f.no_credentials)
      (check_host_complete c os script f.instances_made f.tool_found f.script_found f.libraries)

check_template_iff :
    (c : Checks) (os : Platform) (script : Text) (there : Option Tree)
    → (check_template c os script there ≡ none)
      ↔ ((t : Tree) × (there ≡ some t) × IsFit c os script t)
unfolding check_template
check_template_iff c os script none =
    (λ e. absurd (cc), λ w. absurd (let q : none ≡ some w.0 = w.1 in cc))
check_template_iff c os script (some t) = elim (Bool-cases c.stat_works) [
  | inr bad ↦ (
    λ e. absurd (let q : some template_unreadable ≡ none = rw (bad, check_template) at e in cc),
    λ w. absurd (let q : true ≡ false = sym w.2.stat_works ∙ bad in cc),
  )
  | inl works ↦ (
    λ e. (t, refl, check_tree_sound c os script t works (rw (works, check_template) at e)),
    λ w. simp (works, check_template) (check_tree_complete c os script t (fits w.0 w.1 w.2)),
  )
]
  where
    fits : (t' : Tree) → some t ≡ some t' → IsFit c os script t' → IsFit c os script t
    fits t' q f = let same : t ≡ t' = cc in rw same f

-- Preflight passes exactly if the template is there or could be set up, it is a directory with the
-- entry script and without the two files of a configured runner, the directory of instances can be
-- made, the platform's tool for copies is found, the preflight script is there if one is set, and
-- on Linux no missing library shows in the runner's answer.
pub preflight_iff :
    (s : Setup) (c : Checks) (template_dir script : Text) (d : Disk)
    → ((preflight s c template_dir script d).0 ≡ none) ↔ (
        ((ensure_template s template_dir d).0 ≡ true)
        × (t : Tree) × ((ensure_template s template_dir d).1.template ≡ some t)
        × IsFit c s.platform script t)
unfolding preflight
preflight_iff s c template_dir script d = elim (Bool-cases (ensure_template s template_dir d).0) [
  | inr bad ↦ (
    λ e. absurd (let q : some no_template ≡ none = rw (bad, preflight) at e in cc),
    λ w. absurd (let q : true ≡ false = sym w.0 ∙ bad in cc),
  )
  | inl ready ↦
      let both : (check_template c s.platform script (ensure_template s template_dir d).1.template
            ≡ none)
          ↔ ((t : Tree) × ((ensure_template s template_dir d).1.template ≡ some t)
              × IsFit c s.platform script t) =
        check_template_iff c s.platform script (ensure_template s template_dir d).1.template in
      (
        λ e. let (t, there, fit) = both.0 (simp (ready, preflight) at e) in (ready, t, there, fit),
        λ w. simp (ready, preflight) (both.1 (w.1, w.2, w.3)),
      )
]
