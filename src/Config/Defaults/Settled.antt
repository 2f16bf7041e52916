-- ===== src/Config/Defaults/Settled.antt =====
-- The defaults settle, and the pool that arc makes up for its host is one that validates.
use mathlib.Core.Option
use action_runner_cluster.Prelude.{
  Bool, Bool-cases, List, Option, Text, [], any, ap, arith, codes, false, if◌then◌else◌, inl, inr,
  int_eq, map, nat_eq, none, pair_eq, refl, some, text_beq_iff, text_eq, trim_left, trim_space,
  true, ℤ, ◌&&◌, ◌==◌, ◌∙◌, ◌∷◌, ◌≡◌, ◌≢◌,
}
use action_runner_cluster.Config.{GitHub, Server, LogOutput, DockerSpec, ProcessSpec, Pool, Config}
use action_runner_cluster.Config.Validation.{
  pool_errors, name_errors, label_errors, limit_errors, provider_errors, is_windows_pool, add_if,
  is_pool_name,
}
use action_runner_cluster.Config.Defaults.{
  Machine, is_zero, or_text, or_time, default_active_within, default_github, default_server,
  default_log, default_work_dir, default_docker, default_process, default_pool, apply_defaults,
  host_pool, os_label, arch_label,
}

or_text_twice :
    (given default : Text) → or_text (or_text given default) default ≡ or_text given default
unfolding or_text
or_text_twice [] default = ground arith
or_text_twice (c ∷ s) default = refl

or_time_twice :
    (given default : ℤ) → or_time (or_time given default) default ≡ or_time given default
unfolding or_time is_zero
or_time_twice given default = ground arith

active_twice :
    (tested : Bool) (given default : ℤ)
    → (if tested && is_zero (if tested && is_zero given then default else given)
        then default
        else if tested && is_zero given
        then default
        else given)
      ≡ (if tested && is_zero given then default else given)
active_twice true given default = ground arith
active_twice false given default = refl

default_github_twice : (g : GitHub) → default_github (default_github g) ≡ default_github g
unfolding default_github default_active_within
default_github_twice g =
    simp (or_time_twice, or_text_twice, default_active_within, active_twice) refl

default_server_twice :
    (m : Machine) (s : Server) → default_server m (default_server m s) ≡ default_server m s
unfolding default_server
default_server_twice m s = simp or_text_twice refl

default_log_twice : (l : LogOutput) → default_log (default_log l) ≡ default_log l
unfolding default_log
default_log_twice l = simp or_text_twice refl

default_docker_twice :
    (m : Machine) (p q : Pool) (d : DockerSpec)
    → q.labels ≡ p.labels
    → default_docker m q (default_docker m p d) ≡ default_docker m p d
unfolding default_docker default_work_dir is_windows_pool
default_docker_twice m p q d same = simp (same, or_text_twice) refl

default_process_twice :
    (m : Machine) (dir name : Text) (given : Option ProcessSpec)
    → default_process m dir name (some (default_process m dir name given))
      ≡ default_process m dir name given
unfolding default_process
default_process_twice m dir name given = simp or_text_twice refl

docker_option :
    (m : Machine) (p q : Pool) (d : Option DockerSpec)
    → q.labels ≡ p.labels
    → Option.map (default_docker m q) (Option.map (default_docker m p) d)
      ≡ Option.map (default_docker m p) d
docker_option m p q none same = refl
docker_option m p q (some d) same = ap some (default_docker_twice m p q d same)

process_option :
    (m : Machine) (dir name : Text) (is_process : Bool) (given : Option ProcessSpec)
    → (if is_process
        then some (
            default_process m dir name
              (if is_process then some (default_process m dir name given) else given))
        else if is_process
        then some (default_process m dir name given)
        else given)
      ≡ (if is_process then some (default_process m dir name given) else given)
process_option m dir name true given = ap some (default_process_twice m dir name given)
process_option m dir name false given = refl

default_pool_twice :
    (m : Machine) (group dir : Text) (p : Pool)
    → default_pool m group dir (default_pool m group dir p) ≡ default_pool m group dir p
unfolding default_pool
default_pool_twice m group dir p =
    simp
      (
        or_text_twice,
        or_time_twice,
        docker_option m p (default_pool m group dir p) p.docker refl,
        process_option,
      )
      refl

pools_twice :
    (m : Machine) (group dir : Text) (ps : List (Option Pool))
    → map (Option.map (default_pool m group dir)) (map (Option.map (default_pool m group dir)) ps)
      ≡ map (Option.map (default_pool m group dir)) ps
pools_twice m group dir [] = refl
pools_twice m group dir (none ∷ ps) = ap (λ t. none ∷ t) (pools_twice m group dir ps)
pools_twice m group dir (some p ∷ ps) =
    cc (default_pool_twice m group dir p, pools_twice m group dir ps)

-- The defaults are settled after one application: applied again, they change nothing.
pub apply_defaults_twice :
    (m : Machine) (c : Config) → apply_defaults m (apply_defaults m c) ≡ apply_defaults m c
unfolding apply_defaults default_github
apply_defaults_twice m c =
    let dirs : (default_server m (default_server m c.server)).state_dir
        ≡ (default_server m c.server).state_dir =
      ap (λ (s : Server). s.state_dir) (default_server_twice m c.server) in
    let group : Text = c.github.runner_group in
    let pools : map
          (Option.map
            (default_pool m group (default_server m (default_server m c.server)).state_dir))
          (apply_defaults m c).pools
        ≡ (apply_defaults m c).pools =
      rw dirs (pools_twice m group (default_server m c.server).state_dir c.pools) in
    cc (
      default_github_twice c.github,
      default_server_twice m c.server,
      default_log_twice c.log,
      pools,
    )

arch_label_fine :
    (goarch : Text)
    → trim_space goarch ≡ goarch
    → goarch ≢ []
    → (trim_space (arch_label goarch) ≡ arch_label goarch) × (arch_label goarch ≢ [])
unfolding arch_label trim_space trim_left
arch_label_fine goarch trimmed named = elim (Bool-cases (goarch == codes "amd64")) [
  | inl amd ↦ rw amd (refl, λ e. cc)
  | inr other ↦ rw other (trimmed, named)
]

label_fine :
    (l : Text) (ls : List Text)
    → trim_space l ≡ l
    → l ≢ []
    → label_errors (l ∷ ls) ≡ label_errors ls
unfolding label_errors add_if
label_fine l ls trimmed named =
    ground (arith, trimmed, named, text_beq_iff (trim_space l) l, text_beq_iff l [])

-- The three names that a host's pool can have, which are labels too.
os_label_fine :
    (goos : Text)
    → (name_errors (os_label goos) ≡ [])
      × (trim_space (os_label goos) ≡ os_label goos)
      × (os_label goos ≢ [])
unfolding os_label name_errors is_pool_name add_if trim_space trim_left
os_label_fine goos = elim (Bool-cases (goos == codes "darwin")) [
  | inl mac ↦ rw mac (refl, refl, λ e. cc)
  | inr other ↦ elim (Bool-cases (goos == codes "windows")) [
    | inl win ↦ rw (other, win) (refl, refl, λ e. cc)
    | inr neither ↦ rw (other, neither) (refl, refl, λ e. cc)
  ]
]

-- The pool that HostPool makes up, with the defaults, passes every check of Validate on a pool, for
-- an organization and for a personal account, whatever maximum is asked for; the name of the
-- architecture is not empty and has no spaces around it.
pub host_pool_validates :
    (m : Machine) (max : ℤ) (g : GitHub) (group dir : Text)
    → trim_space m.goarch ≡ m.goarch
    → m.goarch ≢ []
    → pool_errors g [] (default_pool m group dir (host_pool m max)) ≡ []
unfolding pool_errors default_pool host_pool limit_errors provider_errors label_errors trim_space
    trim_left add_if any
host_pool_validates m max g group dir trimmed named =
    let p : Pool = default_pool m group dir (host_pool m max) in
    let (name, os_trim, os_named) = os_label_fine m.goos in
    let (arch_trim, arch_named) = arch_label_fine m.goarch trimmed named in
    let labels : label_errors (codes "self-hosted" ∷ os_label m.goos ∷ arch_label m.goarch ∷ [])
        ≡ [] =
      label_fine (codes "self-hosted") (os_label m.goos ∷ arch_label m.goarch ∷ []) refl (λ e. cc)
      ∙ (label_fine (os_label m.goos) (arch_label m.goarch ∷ []) os_trim os_named
          ∙ label_fine (arch_label m.goarch) [] arch_trim arch_named) in
    let limits : limit_errors g p ≡ [] = ground arith in rw (name, labels, limits) refl
