-- ===== src/DockerProvider/Requests/Labels.antt =====
-- The labels that a container is made with carry everything that List needs to know it again.
use action_runner_cluster.Prelude.{
  Option-cases, Text, [], arith, eq_self, false, inl, inr, lookup, nat_eq, none, or_else,
  parse_int-decimal, refl, some, text_beq_iff, text_eq, true, ℕ, ◌==◌, ◌∙◌, ◌∷◌, ◌≡◌, ◌≢◌, ◌≤◌,
}
use action_runner_cluster.DockerProvider.{truncate_hostname, docker_state}
use action_runner_cluster.DockerProvider.Requests.{
  Docker, CreateRequest, Formats, request_labels, request_with, request_binds, size_or_zero,
  build_create_request, ContainerSummary, read_container, name_of, is_listed, has_label,
}
use action_runner_cluster.ProcessProvider.Creation.{Spec}

-- A container that the daemon has made from a request.
pub record IsMadeFrom (req : CreateRequest) (c : ContainerSummary) : Type 0 where
  pub labels : c.labels ≡ req.labels

built_lem :
    (f : Formats) (p : Docker) (spec : Spec) (now : ℕ) {req : CreateRequest}
    → build_create_request f p spec now ≡ some req
    → (req.labels ≡ request_labels f p spec now)
      × (req.hostname ≡ truncate_hostname spec.runner_name)
      × (req.host_config.auto_remove ≡ false)
unfolding build_create_request request_with
built_lem f p spec now {req} e = elim (Option-cases (request_binds p)) [
  | inl bad ↦ absurd (let q : none ≡ some req = rw (bad, build_create_request) at e in cc)
  | inr (binds, b) ↦ elim (Option-cases (size_or_zero f p.settings.shm_size)) [
    | inl bad ↦ absurd (let q : none ≡ some req = simp (b, bad, build_create_request) at e in cc)
    | inr (shm, s) ↦ elim (Option-cases (size_or_zero f p.settings.memory)) [
      | inl bad ↦
          absurd (let q : none ≡ some req = simp (b, s, bad, build_create_request) at e in cc)
      | inr (memory, m) ↦
          let q : some (request_with f p spec now binds shm memory) ≡ some req =
            simp (b, s, m, build_create_request) at e in
          let same : request_with f p spec now binds shm memory ≡ req = cc in
          rw (← same) (refl, refl, refl)
    ]
  ]
]

listed_lem :
    (f : Formats) (p other : Docker) (spec : Spec) (now : ℕ) (c : ContainerSummary)
    → c.labels ≡ request_labels f p spec now
    → is_listed other c ≡ (p.pool == other.pool)
unfolding is_listed has_label request_labels lookup
listed_lem f p other spec now c written = simp (written, is_listed, has_label) refl

-- A container that is made from the request for a runner is listed by the pool that made it, with
-- the runner's name and id, its time as it is written, and the state that Docker gives it; and no
-- other pool lists it. The runner's name is not empty, and its id fits the 63 bits of an int64.
pub read_container-build :
    (f : Formats) (p : Docker) (spec : Spec) (now : ℕ) (c : ContainerSummary) {req : CreateRequest}
    → build_create_request f p spec now ≡ some req
    → IsMadeFrom req c
    → spec.runner_name ≢ []
    → spec.runner_id ≤ 9223372036854775807
    → (is_listed p c ≡ true)
      × ((other : Docker) → other.pool ≢ p.pool → is_listed other c ≡ false)
      × ((read_container f p c).id ≡ c.id)
      × ((read_container f p c).pool ≡ p.pool)
      × ((read_container f p c).runner_name ≡ spec.runner_name)
      × ((read_container f p c).runner_id ≡ spec.runner_id)
      × ((read_container f p c).created_at ≡ or_else 0 (f.read_time (f.show_time now)))
      × ((read_container f p c).state ≡ docker_state c.state)
unfolding read_container request_labels lookup name_of
read_container-build f p spec now c e made named small =
    let written : c.labels ≡ request_labels f p spec now =
      made.labels ∙ (built_lem f p spec now e).0 in
    simp (written, parse_int-decimal spec.runner_id small)
      (
        listed_lem f p p spec now c written ∙ eq_self p.pool,
        λ other apart. listed_lem f p other spec now c written ∙ foreign other.pool apart,
        refl,
        refl,
        given spec.runner_name named,
        refl,
        refl,
        refl,
      )
  where
    foreign : (pool : Text) → pool ≢ p.pool → (p.pool == pool) ≡ false
    foreign pool apart = ground (arith, text_beq_iff p.pool pool)

    given : (name : Text) → name ≢ [] → name_of name c.names ≡ name
    given [] n = absurd (n refl)
    given (b ∷ name) n = refl
