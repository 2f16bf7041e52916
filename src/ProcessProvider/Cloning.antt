-- ===== src/ProcessProvider/Cloning.antt =====
-- internal/provider/processprov/process.go: cloneTree, and what depends on the platform.
use action_runner_cluster.Prelude.{
  Bool, List, Option, Text, [], codes, false, if◌then◌else◌, ltb_ℤ, none, not, pos, some, true, ℤ,
  ◌&&◌, ◌++◌, ◌∷◌,
}

-- runtime.GOOS, as far as it is asked for.
pub data Platform : Type 0 where
  darwin linux windows elsewhere : Platform

unfoldable pub runner_entrypoint : Platform → Text
runner_entrypoint windows = codes "run.cmd"
runner_entrypoint darwin = codes "run.sh"
runner_entrypoint linux = codes "run.sh"
runner_entrypoint elsewhere = codes "run.sh"

unfoldable pub copy_tool : Platform → Text
copy_tool windows = codes "robocopy"
copy_tool darwin = codes "cp"
copy_tool linux = codes "cp"
copy_tool elsewhere = codes "cp"

-- `robocopyOK`
unfoldable pub robocopy_ok : ℤ → Bool
robocopy_ok code = not (ltb_ℤ code (pos 0)) && ltb_ℤ code (pos 8)

-- copyAttempt: its arguments, and how an exit code other than zero is read.
pub record CopyAttempt : Type 0 where
  pub args : List Text
  pub succeeded : Option (ℤ → Bool)

unfoldable pub copy_attempts : Platform → Text → Text → List CopyAttempt
unfolding robocopy_ok
copy_attempts darwin src dst =
    record { args = codes "cp" ∷ codes "-Rc" ∷ (src ++ codes "/") ∷ dst ∷ []; succeeded = none }
    ∷ record { args = codes "cp" ∷ codes "-R" ∷ (src ++ codes "/") ∷ dst ∷ []; succeeded = none }
    ∷ []
copy_attempts linux src dst =
    record {
      args = codes "cp" ∷ codes "-a" ∷ codes "--reflink=auto" ∷ (src ++ codes "/.") ∷ dst ∷ [];
      succeeded = none;
    }
    ∷ []
copy_attempts windows src dst =
    record {
      args =
          codes "robocopy"
          ∷ src
          ∷ dst
          ∷ codes "/E"
          ∷ codes "/NFL"
          ∷ codes "/NDL"
          ∷ codes "/NJH"
          ∷ codes "/NJS"
          ∷ codes "/NP"
          ∷ codes "/R:1"
          ∷ codes "/W:1"
          ∷ [];
      succeeded = some robocopy_ok;
    }
    ∷ []
copy_attempts elsewhere src dst =
    record { args = codes "cp" ∷ codes "-R" ∷ (src ++ codes "/.") ∷ dst ∷ []; succeeded = none }
    ∷ []

-- How a command ends: with no error, with an exit code, or without one (it did not start, or it was
-- killed).
pub data Ended : Type 0 where
  fine : Ended
  exit_code : ℤ → Ended
  broken : Ended

unfoldable pub copied : CopyAttempt → Ended → Bool
copied a fine = true
copied a (exit_code code) = elim a.succeeded [ none ↦ false | some ok ↦ ok code ]
copied a broken = false

-- The loop over the attempts: the first that succeeds ends it.
unfoldable pub try_copies : (List Text → Ended) → List CopyAttempt → Bool
unfolding copied
try_copies runs [] = false
try_copies runs (a ∷ more) = if copied a (runs a.args) then true else try_copies runs more

-- `cloneTree`, its error told from success; no attempt at all would be no error.
unfoldable pub clone_tree : (List Text → Ended) → Platform → Text → Text → Bool
unfolding try_copies copy_attempts
clone_tree runs os src dst = try_copies runs (copy_attempts os src dst)
