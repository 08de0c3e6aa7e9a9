-- ===== src/Spawn/Mounts.antt =====
-- `MountMatrix` of crates/orchestrator/src/spawn.rs: what of the repository a role may see.
use vetinari.Prelude.{Bool, true, false, Text, codes, List, [], ◌∷◌, ◌++◌, if◌then◌else◌}
use vetinari.State.Enums.{WorkerRole}

pub data MountMode : Type 0 where
  read_write read_only : MountMode

pub record Mount : Type 0 where
  pub source : Text
  pub mode : MountMode

abbrev pub flag : MountMode → Text
flag read_write = codes "--bind"
flag read_only = codes "--ro-bind"

-- Bound at the same path inside.
abbrev pub render_mount : Mount → List Text → List Text
render_mount m rest = flag m.mode ∷ m.source ∷ m.source ∷ rest

-- `root.join(name)`, for a root that does not end in a slash
abbrev pub in_root : Text → Text → Text
in_root root name = root ++ b'/' ∷ name

unfoldable pub role_gets_jj : WorkerRole → Bool
role_gets_jj WorkerRole.implementer = true
role_gets_jj WorkerRole.merger = true
role_gets_jj _ = false

unfoldable pub for_role : WorkerRole → Text → Text → List Mount
for_role role root workspace =
    record { source = workspace; mode = read_write }
    ∷ record { source = in_root root (codes ".crosslink"); mode = read_only }
    ∷ (if role_gets_jj role
        then record { source = in_root root (codes ".jj"); mode = read_write }
          ∷ record { source = in_root root (codes ".git"); mode = read_write }
          ∷ []
        else [])

-- The tokens of the mounts, before those of `rest`
unfoldable pub render : List Mount → List Text → List Text
render [] rest = rest
render (m ∷ ms) rest = render_mount m (render ms rest)
