-- ===== src/DockerProvider/Running/Pulls.antt =====
-- When the image is looked for and pulled.
use mathlib.Core.List.{append-nil}
use action_runner_cluster.Prelude.{
  All, All-map, Bool, List, Option, Text, [], ap, arith, codes, false, none, not, refl, some, sym,
  text_beq_iff, true, ◌++◌, ◌∙◌, ◌∷◌, ◌≡◌, ◌≢◌,
}
use action_runner_cluster.DockerProvider.{image_exists}
use action_runner_cluster.DockerProvider.Running.{
  Once, Daemon, ensure_missing, pull_missing, ensure_image, ensure_each,
}

missing_done :
    (d : Daemon) (policy : Text) (o : Once)
    → policy ≢ codes "never"
    → policy ≢ codes "always"
    → ensure_image d policy o ≡ ensure_missing d o
unfolding ensure_image
missing_done d policy o n a =
    ground (arith, n, a, text_beq_iff policy (codes "never"), text_beq_iff policy (codes "always"))

-- Once the function has run, its outcome is the outcome of every call, and nothing is asked.
after_first :
    (policy : Text) (ds : List Daemon) (o : Once)
    → policy ≢ codes "never"
    → policy ≢ codes "always"
    → o.done ≡ true
    → (All (λ b. b ≡ not o.failed) (ensure_each policy ds o).0) × ((ensure_each policy ds o).1 ≡ [])
unfolding ensure_each
after_first policy [] o n a done = (tt, refl)
after_first policy (d ∷ ds) o n a done =
    let one : ensure_image d policy o ≡ record { fine = not o.failed; events = []; once = o } =
      missing_done d policy o n a ∙ simp (done, ensure_missing) refl in
    let rest : (All (λ b. b ≡ not o.failed) (ensure_each policy ds o).0)
        × ((ensure_each policy ds o).1 ≡ []) =
      after_first policy ds o n a done in
    simp one ((refl, rest.0), rest.1)

negate_twice : (b : Bool) → b ≡ not (not b)
negate_twice true = refl
negate_twice false = refl

pull_missing_done :
    (d : Daemon) (there : Option Bool)
    → ((pull_missing d there).once.done ≡ true)
      × ((pull_missing d there).fine ≡ not (pull_missing d there).once.failed)
unfolding pull_missing
pull_missing_done d none = (refl, refl)
pull_missing_done d (some true) = (refl, refl)
pull_missing_done d (some false) = (refl, negate_twice _)

first_done :
    (d : Daemon) (policy : Text) (o : Once)
    → policy ≢ codes "never"
    → policy ≢ codes "always"
    → o.done ≡ false
    → ((ensure_image d policy o).once.done ≡ true)
      × ((ensure_image d policy o).fine ≡ not (ensure_image d policy o).once.failed)
unfolding ensure_missing
first_done d policy o n a new =
    let e : ensure_image d policy o ≡ pull_missing d (image_exists d.image) =
      missing_done d policy o n a ∙ simp (new, ensure_missing) refl in
    rw e (pull_missing_done d (image_exists d.image))

-- With the policy "missing" the image is looked for and pulled by the first call alone: whatever
-- the daemon would answer later, every further call asks nothing and ends as the first did, in
-- success or in failure.
pub ensure_image_once :
    (policy : Text) (first : Daemon) (later : List Daemon) (o : Once)
    → policy ≢ codes "never"
    → policy ≢ codes "always"
    → o.done ≡ false
    → (All (λ b. b ≡ (ensure_image first policy o).fine) (ensure_each policy (first ∷ later) o).0)
      × ((ensure_each policy (first ∷ later) o).1 ≡ (ensure_image first policy o).events)
unfolding ensure_each
ensure_image_once policy first later o n a new =
    let (done, same) = first_done first policy o n a new in
    let rest = after_first policy later (ensure_image first policy o).once n a done in
    (
      (
        refl,
        All-map _ _ (ensure_each policy later (ensure_image first policy o).once).0
            (λ b e. e ∙ sym same) rest.0,
      ),
      ap (λ t. (ensure_image first policy o).events ++ t) rest.1
          ∙ append-nil (ensure_image first policy o).events,
    )
