-- ===== src/Uninstall/Targets.antt =====
-- Which paths `arc uninstall` deletes.
use action_runner_cluster.Prelude.{
  Bool, Bool-cases, List, Option, Option-cases, Text, [], any, arith, codes, eq_self, false, inl,
  inr, nat_eq, none, refl, some, text_beq_iff, text_eq, true, ◌++◌, ◌==◌, ◌||◌, ◌∷◌, ◌≡◌, ◌≢◌,
}
use action_runner_cluster.Config.{Pool, Config}
use action_runner_cluster.Uninstall.{
  add_target, add_instances, ArcPaths, state_targets, runtime_targets, uninstall_targets,
}

-- Adding a target keeps the targets there were.
abbrev Kept : Text → List Text → Type 0
Kept path targets = any (λ t. t == path) targets ≡ true

any-append : (path : Text) (xs ys : List Text) → Kept path xs → Kept path (xs ++ ys)
unfolding any
any-append path [] ys h = absurd (let q : false ≡ true = h in cc)
any-append path (x ∷ xs) ys h = ground (arith, any-append path xs ys)

any_last : (path : Text) (xs : List Text) → Kept path (xs ++ path ∷ [])
unfolding any
any_last path [] = rw (eq_self path) refl
any_last path (x ∷ xs) = ground (arith, any_last path xs)

add_target-Kept :
    (path other : Text) (targets : List Text)
    → Kept path targets
    → Kept path (add_target other targets)
unfolding add_target
add_target-Kept path other targets h =
    elim (Bool-cases (other == [] || any (λ t. t == other) targets)) [
      | inl there ↦ rw (there, add_target) h
      | inr new ↦ rw (new, add_target) (any-append path targets (other ∷ []) h)
    ]

add_target-new :
    (path : Text) (targets : List Text) → path ≢ [] → Kept path (add_target path targets)
unfolding add_target
add_target-new path targets named = elim (Bool-cases (any (λ t. t == path) targets)) [
  | inl there ↦ ground (arith, there)
  | inr new ↦ elim (Bool-cases (path == [])) [
    | inl empty ↦ absurd (named ((text_beq_iff path []).0 empty))
    | inr some_path ↦ rw (some_path, new, add_target) (any_last path targets)
  ]
]

add_instances-Kept :
    (path : Text) (pools : List (Option Pool)) (targets : List Text)
    → Kept path targets
    → Kept path (add_instances pools targets)
unfolding add_instances
add_instances-Kept path [] targets h = h
add_instances-Kept path (none ∷ more) targets h = add_instances-Kept path more targets h
add_instances-Kept path (some p ∷ more) targets h = elim (Option-cases p.process) [
  | inl absent ↦ rw (absent, add_instances) (add_instances-Kept path more targets h)
  | inr (spec, given) ↦
      rw (given, add_instances)
        (add_instances-Kept path more (add_target spec.instances_dir targets)
          (add_target-Kept path spec.instances_dir targets h))
]

-- The directory that the configuration names as `state_dir`, wherever it is, is deleted.
pub state_dir_deleted :
    (paths : ArcPaths) (c : Config) (keep_config : Bool)
    → c.server.state_dir ≢ []
    → any (λ t. t == c.server.state_dir) (uninstall_targets paths (some c) keep_config) ≡ true
unfolding uninstall_targets runtime_targets state_targets
state_dir_deleted paths c keep_config named =
    let dir : Text = c.server.state_dir in
    let first : Kept dir (state_targets paths (some c)) =
      add_instances-Kept dir c.pools (add_target dir []) (add_target-new dir [] named) in
    let t1 : List Text = state_targets paths (some c) in
    let t2 : List Text = add_target (paths.arc_dir ++ codes "/instances") t1 in
    let t3 : List Text = add_target (paths.arc_dir ++ codes "/arc.log") t2 in
    let t4 : List Text = add_target paths.local_log t3 in
    let kept : Kept dir t4 = add_target-Kept dir paths.local_log t3 (
      add_target-Kept dir (paths.arc_dir ++ codes "/arc.log") t2
        (add_target-Kept dir (paths.arc_dir ++ codes "/instances") t1 first)) in
    elim (Bool-cases keep_config) [
      | inl keep ↦ simp keep kept
      | inr all ↦
          let t5 : List Text = add_target paths.user_path t4 in
          let t6 : List Text = add_target paths.cache_path t5 in
          simp all (
            add_target-Kept dir (paths.arc_dir ++ codes "/runner-template") t6 (
              add_target-Kept dir paths.cache_path t5
                (add_target-Kept dir paths.user_path t4 kept)))
    ]
