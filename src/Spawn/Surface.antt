-- ===== src/Spawn/Surface.antt =====
-- What a sandbox has of the host, read off the arguments that bwrap is given.
use vetinari.Prelude.{
  ℕ, zero, suc, ◌≡◌, refl, ap, ◌∙◌, Bool, true, false, Text, codes, text_eq, any, List, [], ◌∷◌,
  ◌++◌, if◌then◌else◌,
}
use vetinari.State.Enums.{WorkerRole}
use vetinari.Spawn.Mounts.{
  flag, MountMode, read_write, read_only, Mount, in_root, role_gets_jj, for_role, render,
}
use vetinari.Spawn.Sandbox.{
  SandboxHost, ClaudeSpawn, ro_mounts, overlay_mounts, base_mounts, qa_mounts, claude, bwrap_prefix,
  to_argv,
}

-- What an option gives the sandbox: a path of the host, bound or as the layer below discarded writes;
-- the host's network, or none; or something that the reader does not know.
pub data Access : Type 0 where
  bound : MountMode → Text → Access
  layered : Text → Access
  network : Bool → Access
  unknown : Text → Access

-- A reader of bwrap's command line: it passes over the arguments of an option, takes the source of a
-- bind or of a layer, and stops at `--`.
pub data Reader : Type 0 where
  pass : ℕ → Reader
  source_of : (Text → Access) → ℕ → Reader
  program : Reader

abbrev is_one_of : List Text → Text → Bool
is_one_of options option = any (λ o. text_eq option o) options

-- The options that give nothing of the host, with two arguments, with one, and with none
abbrev inert_two : List Text
inert_two = codes "--symlink" ∷ codes "--setenv" ∷ []

abbrev inert_one : List Text
inert_one =
    codes "--tmpfs" ∷ codes "--proc" ∷ codes "--dev" ∷ codes "--chdir" ∷ codes "--tmp-overlay" ∷ []

abbrev inert_none : List Text
inert_none = codes "--unshare-pid" ∷ codes "--die-with-parent" ∷ []

after : Text → Reader
after option =
    if text_eq option (codes "--bind")
    then source_of (bound read_write) 1
    else if text_eq option (codes "--ro-bind")
    then source_of (bound read_only) 1
    else if text_eq option (codes "--overlay-src")
    then source_of layered 0
    else if text_eq option (codes "--")
    then program
    else if is_one_of inert_two option
    then pass 2
    else if is_one_of inert_one option
    then pass 1
    else pass 0

-- What an option itself says
noted : Text → List Access → List Access
noted option rest =
    if text_eq option (codes "--share-net")
    then network true ∷ rest
    else if text_eq option (codes "--unshare-net")
    then network false ∷ rest
    else if is_one_of
        (codes "--bind" ∷ codes "--ro-bind" ∷ codes "--overlay-src" ∷ codes "--" ∷ inert_two
          ++ inert_one
          ++ inert_none)
        option
    then rest
    else unknown option ∷ rest

pub accesses : Reader → List Text → List Access
unfolding after noted
accesses r [] = []
accesses (pass zero) (t ∷ ts) = noted t (accesses (after t) ts)
accesses (pass (suc n)) (t ∷ ts) = accesses (pass n) ts
accesses (source_of access n) (t ∷ ts) = access t ∷ accesses (pass n) ts
accesses program (t ∷ ts) = []

-- Of a command line, behind the name of the program
abbrev pub accesses_of : List Text → List Access
accesses_of argv = accesses (pass 1) argv

abbrev of_mount : Mount → Access
of_mount m = bound m.mode m.source

abbrev pub all_of : {A : Type 0} → (A → Access) → List A → List Access → List Access
all_of f [] rest = rest
all_of f (x ∷ xs) rest = f x ∷ all_of f xs rest

accesses-ro_mounts :
    (ros rest : List Text)
    → accesses (pass 0) (ro_mounts ros rest) ≡ all_of (bound read_only) ros (accesses (pass 0) rest)
unfolding accesses ro_mounts text_eq
accesses-ro_mounts [] rest = refl
accesses-ro_mounts (ro ∷ ros) rest =
    ap (λ xs. bound read_only ro ∷ xs) (accesses-ro_mounts ros rest)

accesses-overlay_mounts :
    (cfgs rest : List Text)
    → accesses (pass 0) (overlay_mounts cfgs rest) ≡ all_of layered cfgs (accesses (pass 0) rest)
unfolding accesses overlay_mounts text_eq
accesses-overlay_mounts [] rest = refl
accesses-overlay_mounts (cfg ∷ cfgs) rest =
    ap (λ xs. layered cfg ∷ xs) (accesses-overlay_mounts cfgs rest)

accesses-program : (ts : List Text) → accesses program ts ≡ []
unfolding accesses
accesses-program [] = refl
accesses-program (t ∷ ts) = refl

-- The flag of a mount, and what stands behind it
accesses-flag :
    (mode : MountMode) (source : Text) (rest : List Text)
    → accesses (pass 0) (flag mode ∷ source ∷ source ∷ rest)
      ≡ bound mode source ∷ accesses (pass 0) rest
unfolding accesses text_eq
accesses-flag read_write source rest = refl
accesses-flag read_only source rest = refl

accesses-render :
    (ms : List Mount) (rest : List Text)
    → accesses (pass 0) (render ms (codes "--" ∷ rest)) ≡ all_of of_mount ms []
unfolding accesses render text_eq
accesses-render [] rest = accesses-program rest
accesses-render (m ∷ ms) rest =
    accesses-flag m.mode m.source (render ms (codes "--" ∷ rest))
    ∙ ap (λ xs. of_mount m ∷ xs) (accesses-render ms rest)

-- What every sandbox begins with
abbrev pub common_accesses : SandboxHost → List Access → List Access
common_accesses host rest =
    bound read_only (codes "/nix")
    ∷ bound read_only (codes "/etc")
    ∷ all_of (bound read_only) host.ro_binds rest

-- The repository's stores that a role commits to
abbrev pub stores_of : WorkerRole → Text → List Access
stores_of WorkerRole.implementer root =
    bound read_write (in_root root (codes ".jj"))
    ∷ bound read_write (in_root root (codes ".git"))
    ∷ []
stores_of WorkerRole.merger root =
    bound read_write (in_root root (codes ".jj"))
    ∷ bound read_write (in_root root (codes ".git"))
    ∷ []
stores_of WorkerRole.adversary root = []
stores_of WorkerRole.judge root = []

all-for_role :
    (role : WorkerRole) (root workspace : Text)
    → all_of of_mount (for_role role root workspace) []
      ≡ bound read_write workspace
        ∷ bound read_only (in_root root (codes ".crosslink"))
        ∷ stores_of role root
unfolding for_role role_gets_jj
all-for_role WorkerRole.implementer root workspace = refl
all-for_role WorkerRole.merger root workspace = refl
all-for_role WorkerRole.adversary root workspace = refl
all-for_role WorkerRole.judge root workspace = refl

worker-accesses :
    (c : ClaudeSpawn) (workspace : Text) (host : SandboxHost)
    → accesses_of (to_argv c workspace host)
      ≡ common_accesses host
          (all_of layered host.config_overlays (network true ∷ all_of of_mount c.mounts []))
unfolding accesses to_argv bwrap_prefix base_mounts text_eq
worker-accesses c workspace host =
    ap (λ xs. bound read_only (codes "/nix") ∷ bound read_only (codes "/etc") ∷ xs)
      (accesses-ro_mounts host.ro_binds _
        ∙ ap (λ xs. all_of (bound read_only) host.ro_binds xs)
            (accesses-overlay_mounts host.config_overlays _
              ∙ ap (λ xs. all_of layered host.config_overlays (network true ∷ xs))
                  (accesses-render c.mounts _)))

qa-accesses :
    (workspace : Text) (host : SandboxHost) (command : List Text)
    → accesses_of (host.bwrap ∷ qa_mounts host workspace (codes "--" ∷ command))
      ≡ common_accesses host (bound read_write workspace ∷ network false ∷ [])
unfolding accesses qa_mounts text_eq
qa-accesses workspace host command =
    ap (λ xs. bound read_only (codes "/nix") ∷ bound read_only (codes "/etc") ∷ xs)
      (accesses-ro_mounts host.ro_binds _
        ∙ ap
            (λ xs.
              all_of (bound read_only) host.ro_binds
                (bound read_write workspace ∷ network false ∷ xs))
            (accesses-program command))

-- All that the command line of bwrap gives a sandbox of the host, whatever texts stand in it. A worker
-- has `/nix`, `/etc` and the host's read-only binds, read-only; the host's config directories as
-- layers below writes that are discarded; the network; its workspace, writable; `.crosslink`,
-- read-only; and, for an Implementer or a Merger, the stores `.jj` and `.git`, writable. The QA gate
-- has the first three, the workspace, writable, and no network: no config directory and nothing else
-- of the repository.
pub sandbox_surface :
    (role : WorkerRole) (root workspace task allowed denied prompt : Text) (turns : ℕ)
    (host : SandboxHost) (command : List Text)
    → (accesses_of
          (to_argv (claude role root workspace task allowed denied prompt turns) workspace host)
        ≡ common_accesses host (
            all_of layered host.config_overlays (
              network true
              ∷ bound read_write workspace
              ∷ bound read_only (in_root root (codes ".crosslink"))
              ∷ stores_of role root)))
      × (accesses_of (host.bwrap ∷ qa_mounts host workspace (codes "--" ∷ command))
          ≡ common_accesses host (bound read_write workspace ∷ network false ∷ []))
unfolding claude
sandbox_surface role root workspace task allowed denied prompt turns host command =
    let c : ClaudeSpawn = claude role root workspace task allowed denied prompt turns in
    (
      worker-accesses c workspace host
          ∙ ap
              (λ xs. common_accesses host (all_of layered host.config_overlays (network true ∷ xs)))
              (all-for_role role root workspace),
      qa-accesses workspace host command,
    )
