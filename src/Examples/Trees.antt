-- ===== src/Examples/Trees.antt =====
-- The template of the process provider, set up on a host that has none.
use action_runner_cluster.Prelude.{
  [], codes, false, has_suffix, nat_eq, none, not, refl, some, text_eq, true, ◌==◌, ◌∷◌, ◌≡◌,
}
use action_runner_cluster.ProcessProvider.Cloning.{linux}
use action_runner_cluster.ProcessProvider.Template.{
  Setup, Disk, responded, answered, ensure_template, tar_args,
}
use action_runner_cluster.ProcessProvider.Template.Installed.{
  IsInstalled, ensure_template-IsInstalled,
}

-- GitHub answers, and the archive has a file of a configuration that is not to be there.
abbrev setup : Setup
setup = record {
  platform = linux;
  stat_fails = false;
  release = responded 200 (codes "v2.330.0");
  staging_cleared = true;
  staging_made = true;
  download = answered 200 (some 1000) true;
  unpacked = some (codes "run.sh" ∷ codes ".runner" ∷ []);
  archive_removed = true;
  file_removed = λ f. not (f == codes ".credentials");
  renamed = true;
}

abbrev bare : Disk
bare = record { template = none; staging = none }

tar_of_zip :
    tar_args (codes "a.zip") (codes "d")
    ≡ codes "-x" ∷ codes "-f" ∷ codes "a.zip" ∷ codes "-C" ∷ codes "d" ∷ []
unfolding tar_args has_suffix
tar_of_zip = refl

ensure_template-IsInstalled_example :
    IsInstalled setup bare (ensure_template setup (codes "/t") bare)
ensure_template-IsInstalled_example = ensure_template-IsInstalled setup (codes "/t") bare
