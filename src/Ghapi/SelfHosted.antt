-- ===== src/Ghapi/SelfHosted.antt =====
-- internal/ghapi/jobs.go: which jobs ask for a self-hosted runner.
use action_runner_cluster.Prelude.{
  Bool, List, Text, [], any, codes, equal_fold, false, has_prefix, if◌then◌else◌, nat_eq, not,
  text_eq, to_lower, true, ◌==◌, ◌||◌, ◌∷◌,
}

abbrev hosted_prefixes : List Text
hosted_prefixes =
    codes "ubuntu-"
    ∷ codes "windows-"
    ∷ codes "macos-"
    ∷ codes "ubuntu_"
    ∷ codes "windows_"
    ∷ codes "macos_"
    ∷ []

unfoldable pub github_hosted_label : Text → Bool
unfolding any has_prefix to_lower
github_hosted_label label =
    let l : Text = to_lower label in
    if any (has_prefix l) hosted_prefixes
    then true
    else l == codes "ubuntu" || l == codes "windows" || l == codes "macos"

-- `Job.SelfHosted`, over the job's labels.
unfoldable pub self_hosted : List Text → Bool
unfolding any equal_fold
self_hosted [] = false
self_hosted (l ∷ ls) =
    if any (λ x. equal_fold x (codes "self-hosted")) (l ∷ ls)
    then true
    else any (λ x. not (github_hosted_label x)) (l ∷ ls)
