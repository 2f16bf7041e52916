-- ===== src/ProcessProvider/Creation/Undone.antt =====
-- What Create of the process provider leaves behind, on success and on each failure.
use action_runner_cluster.Prelude.{
  Bool, Bool-cases, false, if◌then◌else◌, inl, inr, int_eq, lookup, none, not, pair_eq, refl, some,
  subst, text_eq, true, ◌∙◌, ◌≡◌, ◌⊎◌,
}
use action_runner_cluster.Provider.{Instance}
use action_runner_cluster.ProcessProvider.{directory, Host, Provider, dir_of}
use action_runner_cluster.ProcessProvider.Removal.{gone, Os, remove_all}
use action_runner_cluster.ProcessProvider.Removal.Reclaimed.{remove_all_lem}
use action_runner_cluster.ProcessProvider.Creation.{
  Spec, Calls, Created, put_dir, refused, bare_dir, build_instance, make_dir, create,
}
use action_runner_cluster.ProcessProvider.Cloning.{clone_tree}
use action_runner_cluster.ProcessProvider.Creation.Building.{
  Same, put_dir-Same, put_dir-lookup, IsStarted, IsEnded, IsUndone, remove_all-processes,
  removed_now, removed-Same, build_instance_lem,
}

module _ (os : Os) (calls : Calls) (p : Provider) (spec : Spec)
    (removable : os.remove spec.runner_name ≡ gone) where
  -- Nothing is left under the name or, where the template could not be copied or the directory for
  -- temporary files not made, a directory without a state file.
  abbrev pub Left : Host → Type 0
  Left h =
      (lookup spec.runner_name h.entries ≡ none)
      ⊎ ((lookup spec.runner_name h.entries ≡ some (directory bare_dir))
          × ((clone_tree calls.runs calls.platform p.settings.template_dir
                  (dir_of p spec.runner_name)
                ≡ false)
              ⊎ (calls.scratch_made ≡ false)))

  pub record IsTidy (h : Host) (c : Created) : Type 0 where
    pub fresh : (i : Instance) → c.result ≡ some i → IsStarted calls p spec c.host i
    pub left : c.result ≡ none → Left c.host
    pub ended : c.result ≡ none → IsEnded calls h c
    pub others : Same spec.runner_name h c.host

  refused-IsTidy :
      (h h' : Host)
      → Left h'
      → h'.processes ≡ h.processes
      → Same spec.runner_name h h'
      → IsTidy h (refused h')
  unfolding refused
  refused-IsTidy h h' left quiet same = record {
    fresh = λ i e. absurd (let q : none ≡ some i = e in cc);
    left = λ _. left;
    ended = λ _. inl (refl, quiet);
    others = same;
  }

  make_dir_lem :
      (h : Host)
      → h.present ≡ true
      → lookup spec.runner_name h.entries ≡ none
      → IsTidy h (make_dir os calls p spec h)
  unfolding make_dir put_dir
  make_dir_lem h there clear =
      let copied : Bool =
        clone_tree calls.runs calls.platform p.settings.template_dir (dir_of p spec.runner_name) in
      elim (Bool-cases calls.dir_made) [
        | inr bad ↦ simp (bad, make_dir) (refused-IsTidy h h (inl clear) refl (λ other n. refl))
        | inl made ↦
            let h1 : Host = put_dir spec.runner_name bare_dir h in
            let left : ((clone_tree calls.runs calls.platform p.settings.template_dir
                      (dir_of p spec.runner_name)
                    ≡ false)
                  ⊎ (calls.scratch_made ≡ false))
                → IsTidy h (refused h1) =
              λ why.
                refused-IsTidy h h1 (inr (put_dir-lookup spec.runner_name bare_dir h, why)) refl
                  (put_dir-Same spec.runner_name bare_dir h) in
            elim (Bool-cases copied) [
              | inr bad ↦ simp (made, bad, make_dir) (left (inl bad))
              | inl good ↦ elim (Bool-cases calls.scratch_made) [
                | inr bad ↦ simp (made, good, bad, make_dir) (left (inr bad))
                | inl fine ↦
                    simp (made, good, fine, make_dir)
                      (let h2 : Host =
                          put_dir spec.runner_name (record bare_dir { scratch = true }) h in
                        let built : IsUndone calls p spec h2 (build_instance os calls p spec h2) =
                          build_instance_lem os calls p spec removable h2 there in
                        record {
                          fresh = built.fresh;
                          left = λ e. inl (built.undone e);
                          ended = built.ended;
                          others = λ other n.
                              built.others other n
                              ∙ put_dir-Same spec.runner_name (record bare_dir { scratch = true }) h
                                  other n;
                        })
              ]
            ]
      ]

  create_cleared :
      (h h1 : Host)
      → lookup spec.runner_name h1.entries ≡ none
      → h1.processes ≡ h.processes
      → Same spec.runner_name h h1
      → (made : Bool) → calls.parent_made ≡ made
      → IsTidy h
          (if not made then refused h1 else make_dir os calls p spec (record h1 { present = true }))
  create_cleared h h1 clear quiet same false e = refused-IsTidy h h1 (inl clear) quiet same
  create_cleared h h1 clear quiet same true e =
      let m : IsTidy (record h1 { present = true })
          (make_dir os calls p spec (record h1 { present = true })) =
        make_dir_lem (record h1 { present = true }) refl clear in
      record {
        fresh = m.fresh;
        left = m.left;
        ended = λ f.
            subst
              (λ ps.
                IsEnded calls (record h { processes = ps })
                  (make_dir os calls p spec (record h1 { present = true })))
              quiet (m.ended f);
        others = λ other n. m.others other n ∙ same other n;
      }

  -- Create, where directories of that name can be removed: if it succeeds, the new directory holds the
  -- instance's state, and a process with the recorded pid runs the entry script in it; if it fails,
  -- nothing is left under the name, or only a directory without a state file, and that only where the
  -- copy of the template failed or the directory for temporary files could not be made; a failure has
  -- started no process, or one whose state could not be written and that has been sent SIGKILL; no
  -- other entry changes.
  pub create-IsTidy : (h : Host) → IsTidy h (create os calls p spec h)
  unfolding create
  create-IsTidy h =
      let cleared : Bool × Host = remove_all os spec.runner_name h in
      elim (Bool-cases cleared.0) [
        | inr stays ↦ absurd ((remove_all_lem os spec.runner_name h).failed stays removable)
        | inl done ↦
            simp (done, create)
              (create_cleared h cleared.1 (removed_now os calls p spec removable h)
                (remove_all-processes os spec.runner_name h)
                (removed-Same os calls p spec removable h) calls.parent_made refl)
      ]
