-- ===== src/Uninstall/Careful.antt =====
-- When `arc uninstall` changes something, in which order, and which paths it deletes.
use action_runner_cluster.Prelude.{
  Bool, Bool-cases, List, [], arith, false, inl, inr, is_some, ltb, refl, some, suc, true, zero, ℕ,
  ◌*◌, ◌++◌, ◌+◌, ◌<◌, ◌∷◌, ◌≡◌, ◌≤◌, ◌⊎◌,
}
use action_runner_cluster.Uninstall.{
  ArcPaths, uninstall_targets, confirms, still_answers, probes, still_running, Uninstalling,
  UninstallStep, service_removed, has_orchestrator, blocks, delete_targets, clean_up,
}

-- The probes of the control API end.
probes_end :
    (fuel : ℕ) (answers : ℕ → Bool) (now : ℕ)
    → 5250 < now + fuel * 250
    → now ≤ 5250
    → (b : Bool) × (still_answers fuel answers now ≡ some b)
unfolding still_answers
probes_end zero answers now enough early = absurd (omega arith)
probes_end (suc fuel) answers now enough in_time = elim (Bool-cases (answers now)) [
  | inr quiet ↦ (false, rw quiet refl)
  | inl up ↦ elim (Bool-cases (ltb 5000 now)) [
    | inl late ↦ (true, rw (up, late) refl)
    | inr early ↦
        let (b, e) = probes_end fuel answers (now + 250) (omega arith) (ground (arith, early)) in
        (b, rw (up, early) e)
  ]
]

pub still_running_ends :
    (answers : ℕ → Bool) → (b : Bool) × (still_answers probes answers 0 ≡ some b)
still_running_ends answers = probes_end probes answers 0 (omega arith) (omega arith)

-- What must hold before anything is changed.
pub record IsAllowed (u : Uninstalling) : Type 0 where
  pub has_rights : u.needs_root ≡ false
  pub no_jobs : (u.force ≡ true) ⊎ (has_orchestrator u ≡ false) ⊎ (blocks u.busy ≡ false)
  pub confirmed : (u.yes ≡ true) ⊎ (confirms u.answer ≡ true)
  pub stopped : u.service_stops ≡ true

-- How an uninstall ends, where it changes something.
pub record IsUninstall (paths : ArcPaths) (u : Uninstalling) (r : Bool × List UninstallStep)
    : Type 0 where
  pub allowed : IsAllowed u
  pub ends :
      ((r ≡ (false, service_removed ∷ []))
        × (is_some u.config ≡ true)
        × (u.force ≡ false)
        × (still_running u.answers ≡ true))
      ⊎ (((is_some u.config ≡ false) ⊎ (u.force ≡ true) ⊎ (still_running u.answers ≡ false))
          × (r ≡ (
            true,
            service_removed
                ∷ (clean_up u ++ delete_targets u (uninstall_targets paths u.config u.keep_config)),
          )))
