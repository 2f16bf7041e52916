-- ===== src/DockerProvider/Running/Kept.antt =====
-- A container is started or taken away again, and Prune removes what has exited and nothing else.
use mathlib.Core.List.{append-nil}
use action_runner_cluster.Prelude.{
  Bool, Bool-cases, List, Option, Text, [], ap, codes, eq_self, false, inl, inr, length, map,
  nat_eq, none, not, refl, select, some, suc, sym, text_eq, true, ℕ, ◌&&◌, ◌++◌, ◌==◌, ◌∙◌, ◌∷◌,
  ◌≡◌, ◌⊎◌,
}
use action_runner_cluster.Provider.{Instance}
use action_runner_cluster.DockerProvider.{
  Reply, replied, engine_error, broken, remove_container, image_exists,
}
use action_runner_cluster.DockerProvider.Requests.{
  Docker, Formats, CreateRequest, build_create_request, ContainerSummary, list_containers,
}
use action_runner_cluster.DockerProvider.Running.{
  Once, Event, asked_image, pulled, made, started, start_failed, removed, remove_failed, Daemon,
  Ensured, ensure_missing, pull_missing, ensure_image, starting_instance, is_reply, start_made,
  made_unseen, make_container, request_container, launch, is_exited, destroy_container,
  prune_containers, docker_prune, ensure_never, ensure_always,
}
use action_runner_cluster.ProcessProvider.Creation.{Spec}

without : Text → List Text → List Text
unfolding select
without id ids = select (λ x. not (x == id)) ids

-- The containers that are there after the events, of those that were there before.
unfoldable pub left_after : List Text → List Event → List Text
unfolding without
left_after there [] = there
left_after there (made id ∷ events) = left_after (id ∷ there) events
left_after there (removed id ∷ events) = left_after (without id there) events
left_after there (asked_image ∷ events) = left_after there events
left_after there (pulled ∷ events) = left_after there events
left_after there (started id ∷ events) = left_after there events
left_after there (start_failed id ∷ events) = left_after there events
left_after there (remove_failed id ∷ events) = left_after there events

-- What Create leaves of the container that the daemon made.
pub record IsLaunch (p : Docker) (spec : Spec) (now : ℕ) (d : Daemon)
    (r : Option Instance × List Event) : Type 0 where
  pub succeeded :
      (i : Instance)
      → r.0 ≡ some i
      → (d.created ≡ replied i.id)
        × (i ≡ starting_instance p spec now i.id)
        × (is_reply d.start ≡ true)
        × (left_after [] r.1 ≡ i.id ∷ [])
  pub failed :
      r.0 ≡ none
      → (left_after [] r.1 ≡ [])
        ⊎ (((id : Text) × (d.created ≡ replied id) × (remove_container (d.remove id) ≡ false))
            ⊎ ((id : Text) × (d.created ≡ broken)
                × (d.lost ≡ some id)
                × (left_after [] r.1 ≡ id ∷ [])))

no_container : (p : Docker) (spec : Spec) (now : ℕ) (d : Daemon) → IsLaunch p spec now d (none, [])
unfolding left_after
no_container p spec now d = record {
  succeeded = λ i e. absurd (let q : none ≡ some i = e in cc);
  failed = λ _. inl refl;
}

start_made_lem :
    (p : Docker) (spec : Spec) (now : ℕ) (d : Daemon) (id : Text)
    → d.created ≡ replied id
    → IsLaunch p spec now d (start_made p spec now d id)
unfolding start_made left_after without select starting_instance
start_made_lem p spec now d id created = elim (Bool-cases (is_reply d.start)) [
  | inl up ↦
      simp (up, start_made)
        (record {
          succeeded = λ i e. took i (cc) up;
          failed = λ e. absurd (let q : some (starting_instance p spec now id) ≡ none = e in cc);
        })
  | inr down ↦ elim (Bool-cases (remove_container (d.remove id))) [
    | inl cleared ↦
        simp (down, cleared, start_made)
          (record {
            succeeded = λ i e. absurd (let q : none ≡ some i = e in cc);
            failed = λ _. inl (rw (eq_self id) refl);
          })
    | inr stays ↦
        simp (down, stays, start_made)
          (record {
            succeeded = λ i e. absurd (let q : none ≡ some i = e in cc);
            failed = λ _. inr (inl (id, created, stays));
          })
  ]
]
  where
    took :
        (i : Instance)
        → starting_instance p spec now id ≡ i
        → is_reply d.start ≡ true
        → (d.created ≡ replied i.id)
          × (i ≡ starting_instance p spec now i.id)
          × (is_reply d.start ≡ true)
          × (id ∷ [] ≡ i.id ∷ [])
    took i e up = rw (← e) (created, refl, up, refl)

lost_container :
    (p : Docker) (spec : Spec) (now : ℕ) (d : Daemon) (lost : Option Text)
    → d.lost ≡ lost
    → d.created ≡ broken
    → IsLaunch p spec now d (none, made_unseen lost)
unfolding made_unseen left_after
lost_container p spec now d none e broke = no_container p spec now d
lost_container p spec now d (some id) e broke = record {
  succeeded = λ i q. absurd (let w : none ≡ some i = q in cc);
  failed = λ _. inr (inr (id, broke, e, refl));
}

make_container_lem :
    (p : Docker) (spec : Spec) (now : ℕ) (d : Daemon) (r : Reply Text)
    → d.created ≡ r
    → IsLaunch p spec now d (make_container p spec now d r)
unfolding make_container
make_container_lem p spec now d (replied id) e = start_made_lem p spec now d id e
make_container_lem p spec now d (engine_error status) e = no_container p spec now d
make_container_lem p spec now d broken e = lost_container p spec now d d.lost refl e

request_container_lem :
    (p : Docker) (spec : Spec) (now : ℕ) (d : Daemon) (req : Option CreateRequest)
    → IsLaunch p spec now d (request_container p spec now d req)
unfolding request_container
request_container_lem p spec now d none = no_container p spec now d
request_container_lem p spec now d (some req) = make_container_lem p spec now d d.created refl

pull_missing-left :
    (d : Daemon) (there : Option Bool) (more : List Event)
    → left_after [] ((pull_missing d there).events ++ more) ≡ left_after [] more
unfolding pull_missing left_after
pull_missing-left d none more = refl
pull_missing-left d (some true) more = refl
pull_missing-left d (some false) more = refl

-- Looking for the image makes and removes no container.
ensured-left :
    (d : Daemon) (policy : Text) (o : Once) (more : List Event)
    → left_after [] ((ensure_image d policy o).events ++ more) ≡ left_after [] more
unfolding ensure_image ensure_never ensure_always ensure_missing left_after
ensured-left d policy o more = elim (Bool-cases (policy == codes "never")) [
  | inl n ↦ rw n refl
  | inr other ↦ elim (Bool-cases (policy == codes "always")) [
    | inl a ↦ rw (other, a) refl
    | inr missing ↦ elim (Bool-cases o.done) [
      | inl done ↦ rw (other, missing, done) refl
      | inr new ↦ rw (other, missing, new) (pull_missing-left d (image_exists d.image) more)
    ]
  ]
]

-- Create of the Docker provider: a success is a container that the daemon made and started, and
-- that is there; a failure leaves no container, unless the daemon refuses to remove the one that it
-- made and could not start, or its answer to the creation was lost or cannot be read though it made
-- the container, and then that one is left.
pub launch-IsLaunch :
    (f : Formats) (p : Docker) (spec : Spec) (now : ℕ) (d : Daemon) (o : Once)
    → IsLaunch p spec now d ((launch f p spec now d o).result, (launch f p spec now d o).events)
unfolding launch left_after
launch-IsLaunch f p spec now d o =
    let e : Ensured = ensure_image d p.settings.pull o in
    let c : Option Instance × List Event =
      request_container p spec now d (build_create_request f p spec now) in
    let l : IsLaunch p spec now d c =
      request_container_lem p spec now d (build_create_request f p spec now) in
    let same : left_after [] (e.events ++ c.1) ≡ left_after [] c.1 =
      ensured-left d p.settings.pull o c.1 in
    let bare : left_after [] e.events ≡ [] =
      ap (left_after []) (sym (append-nil e.events)) ∙ ensured-left d p.settings.pull o [] in
    elim (Bool-cases e.fine) [
      | inr bad ↦
          simp (bad, launch)
            (record {
              succeeded = λ i q. absurd (let w : none ≡ some i = q in cc);
              failed = λ _. inl bare;
            })
      | inl fine ↦
          simp (fine, launch)
            (record {
              succeeded = λ i q.
                  let (created, known, up, there) = l.succeeded i q in
                  (created, known, up, same ∙ there);
              failed = λ q. elim (l.failed q) [
                | inl none_left ↦ inl (same ∙ none_left)
                | inr (inl stuck) ↦ inr (inl stuck)
                | inr (inr (id, broke, unseen, there)) ↦ inr (inr (id, broke, unseen, same ∙ there))
              ];
            })
    ]

-- The events of a prune: each instance that has exited, in their order.
abbrev pub removals : Daemon → List Instance → List Event
removals d instances =
    map (λ i. destroy_container d i.id) (select (λ i. is_exited i.state) instances)

prune_containers_lem :
    (d : Daemon) (instances : List Instance)
    → ((prune_containers d instances).1 ≡ removals d instances)
      × ((prune_containers d instances).0
          ≡ length (select (λ i. is_exited i.state && remove_container (d.remove i.id)) instances))
unfolding prune_containers select
prune_containers_lem d [] = (refl, refl)
prune_containers_lem d (i ∷ more) =
    let (events, count) = prune_containers_lem d more in
    elim (Bool-cases (is_exited i.state)) [
      | inr live ↦ simp (live, prune_containers, select) (events, count)
      | inl over ↦ elim (Bool-cases (remove_container (d.remove i.id))) [
        | inl cleared ↦
            simp (over, cleared, prune_containers, select)
              (ap (λ t. removed i.id ∷ t) events, ap suc count)
        | inr stays ↦
            simp (over, stays, prune_containers, select)
              (ap (λ t. remove_failed i.id ∷ t) events, count)
      ]
    ]

-- Prune of the Docker provider acts on the containers that List reports as exited, one removal for
-- each and in their order, and on no other; it counts those whose removal the daemon grants or
-- whose container is not there any more.
pub docker_prune_lem :
    (f : Formats) (p : Docker) (d : Daemon) (containers : List ContainerSummary)
    → docker_prune f p d (replied containers)
      ≡ some (
        length (
            select
              (λ i. is_exited i.state && remove_container (d.remove i.id))
              (list_containers f p containers)),
        removals d (list_containers f p containers),
      )
unfolding docker_prune
docker_prune_lem f p d containers =
    let (events, count) = prune_containers_lem d (list_containers f p containers) in cc
