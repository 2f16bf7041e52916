-- ===== src/ProcessProvider/Template.antt =====
-- internal/provider/processprov/bootstrap.go: the runner template, and how it is set up where it is
-- missing. What each call of the system and of GitHub comes to is an argument.
pub mod Installed
use action_runner_cluster.Prelude.{
  Bool, List, Option, Text, [], any, codes, false, has_suffix, if◌then◌else◌, is_some, nat_eq, none,
  not, select, some, text_eq, trim_prefix, true, ℕ, ◌&&◌, ◌++◌, ◌==◌, ◌∷◌,
}
use action_runner_cluster.ProcessProvider.Cloning.{
  Platform, darwin, linux, windows, elsewhere, runner_entrypoint, copy_tool,
}

-- A directory's tree, as far as it is asked about: the names of the files in it.
pub record Tree : Type 0 where
  pub is_dir : Bool
  pub files : List Text

-- The paths `template_dir` and `template_dir` + ".download".
pub record Disk : Type 0 where
  pub template : Option Tree
  pub staging : Option Tree

-- The answer to the question for the latest release.
pub data ReleaseAnswer : Type 0 where
  unreachable garbled : ReleaseAnswer
  responded : (status : ℕ) (tag : Text) → ReleaseAnswer

-- `latestRunnerVersion`; none stands for its errors.
unfoldable pub latest_version : ReleaseAnswer → Option Text
unfolding trim_prefix
latest_version unreachable = none
latest_version garbled = none
latest_version (responded status tag) =
    if not (status == 200)
    then none
    else if trim_prefix tag (codes "v") == []
    then none
    else some (trim_prefix tag (codes "v"))

os_name : Text → Text
os_name goos =
    if goos == codes "darwin"
    then codes "osx"
    else if goos == codes "windows"
    then codes "win"
    else goos

arch_name : Text → Text
arch_name goarch = if goarch == codes "amd64" then codes "x64" else goarch

-- `runnerArchiveName`, for runtime.GOOS and runtime.GOARCH.
unfoldable pub runner_archive_name : Text → Text → Text → Text
unfolding os_name arch_name
runner_archive_name goos goarch version =
    codes "actions-runner-"
    ++ (os_name goos
        ++ (codes "-"
            ++ (arch_name goarch
                ++ (codes "-"
                    ++ (version
                        ++ (if goos == codes "windows" then codes ".zip" else codes ".tar.gz"))))))

-- How a download ends: the bytes written, or an error; the daemon's answer is read by its status.
pub data Download : Type 0 where
  no_answer : Download
  answered : (status : ℕ) (copied : Option ℕ) (closed : Bool) → Download

-- `downloadFile`, its success told from its errors.
unfoldable pub downloaded : Download → Bool
downloaded no_answer = false
downloaded (answered status none closed) = false
downloaded (answered status (some n) closed) =
    if not (status == 200) then false else if n == 0 then false else closed

-- `extractArchive`: the arguments of tar.
unfoldable pub tar_args : Text → Text → List Text
unfolding has_suffix
tar_args archive dst =
    let args : List Text = codes "-x" ∷ codes "-f" ∷ archive ∷ codes "-C" ∷ dst ∷ [] in
    if has_suffix archive (codes ".tar.gz") then codes "-z" ∷ args else args

-- What stat says of `template_dir`, other than that it is there.
pub data Stat : Type 0 where
  exists not_there unreadable : Stat

-- The calls of one set-up. `unpacked` is what the archive holds, none if tar fails.
pub record Setup : Type 0 where
  pub platform : Platform
  pub stat_fails : Bool
  pub release : ReleaseAnswer
  pub staging_cleared : Bool
  pub staging_made : Bool
  pub download : Download
  pub unpacked : Option (List Text)
  pub archive_removed : Bool
  pub file_removed : Text → Bool
  pub renamed : Bool

unfoldable pub has_file : Text → List Text → Bool
has_file name files = any (λ f. f == name) files

stale_files : List Text
stale_files = codes ".runner" ∷ codes ".credentials" ∷ codes ".credentials_rsaparams" ∷ []

unfoldable pub is_stale : Text → Bool
unfolding stale_files any
is_stale f = any (λ s. s == f) stale_files

-- os.Remove of each stale file; its errors are dropped, and the file then stays.
remove_stale : (Text → Bool) → List Text → List Text
unfolding select is_stale
remove_stale file_removed files = select (λ f. not (is_stale f && file_removed f)) files

stat_of : Setup → Disk → Stat
stat_of s d = if s.stat_fails then unreadable else if is_some d.template then exists else not_there

abandon : Disk → Bool × Disk
abandon d = (false, record d { staging = none })

-- From the unpacked archive to the rename.
install : Setup → List Text → Disk → Bool × Disk
unfolding remove_stale has_file abandon runner_entrypoint
install s files d =
    if not s.archive_removed
    then abandon d
    else if not (has_file (runner_entrypoint s.platform) (remove_stale s.file_removed files))
    then abandon d
    else if not s.renamed
    then abandon d
    else (
      true,
      record {
        template = some (record { is_dir = true; files = remove_stale s.file_removed files });
        staging = none;
      },
    )

-- In the staging directory.
fetch : Setup → Disk → Bool × Disk
unfolding abandon install downloaded
fetch s d =
    if not (downloaded s.download)
    then abandon d
    else elim s.unpacked [ none ↦ abandon d | some files ↦ install s files d ]

stage : Setup → Disk → Bool × Disk
unfolding fetch
stage s d =
    if not s.staging_cleared
    then (false, d)
    else if not s.staging_made
    then (false, record d { staging = none })
    else fetch s (record d { staging = some (record { is_dir = true; files = [] }) })

with_release : Option Text → Setup → Disk → Bool × Disk
unfolding stage
with_release none s d = (false, d)
with_release (some version) s d = stage s d

-- `ensureTemplate`, its success and the disk after it.
unfoldable pub ensure_template : Setup → Text → Disk → Bool × Disk
unfolding stat_of latest_version with_release
ensure_template s template_dir d = if template_dir == [] then (false, d) else elim (stat_of s d) [
  | exists ↦ (true, d)
  | unreadable ↦ (false, d)
  | not_there ↦ with_release (latest_version s.release) s d
]
