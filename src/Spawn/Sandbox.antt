-- ===== src/Spawn/Sandbox.antt =====
-- `SandboxHost` and `ClaudeSpawn` of crates/orchestrator/src/spawn.rs: the arguments of bwrap for a
-- worker and for the QA gate. A token list is built in front of the tokens that follow it.
use vetinari.Prelude.{ℕ, Text, codes, msg, List, [], ◌∷◌, ◌++◌}
use vetinari.Prelude.Int.{show_nat}
use vetinari.Prelude.Strings.{newline}
use vetinari.State.Enums.{WorkerRole}
use vetinari.Spawn.Mounts.{Mount, read_write, read_only, render_mount, render, for_role}
use vetinari.Spawn.Shell.{shell_join}

pub record SandboxHost : Type 0 where
  pub bwrap : Text
  pub nix_shell : Text
  pub sh : Text
  pub home : Text
  pub ro_binds : List Text
  pub config_overlays : List Text

-- The tokens that `base_mounts` and `qa_mounts` begin with
abbrev pub common_mounts : SandboxHost → List Text → List Text
common_mounts host rest =
    codes "--tmpfs"
    ∷ host.home
    ∷ codes "--ro-bind"
    ∷ codes "/nix"
    ∷ codes "/nix"
    ∷ codes "--ro-bind"
    ∷ codes "/etc"
    ∷ codes "/etc"
    ∷ codes "--proc"
    ∷ codes "/proc"
    ∷ codes "--dev"
    ∷ codes "/dev"
    ∷ codes "--tmpfs"
    ∷ codes "/run"
    ∷ codes "--tmpfs"
    ∷ codes "/tmp"
    ∷ codes "--symlink"
    ∷ host.sh
    ∷ codes "/bin/sh"
    ∷ rest

unfoldable pub ro_mounts : List Text → List Text → List Text
ro_mounts [] rest = rest
ro_mounts (ro ∷ ros) rest =
    render_mount (record { source = ro; mode = read_only }) (ro_mounts ros rest)

-- Read-only below, and what is written is discarded
unfoldable pub overlay_mounts : List Text → List Text → List Text
overlay_mounts [] rest = rest
overlay_mounts (cfg ∷ cfgs) rest =
    codes "--overlay-src" ∷ cfg ∷ codes "--tmp-overlay" ∷ cfg ∷ overlay_mounts cfgs rest

unfoldable pub base_mounts : SandboxHost → Text → List Text → List Text
base_mounts host workspace rest = common_mounts host (
    ro_mounts host.ro_binds (
      overlay_mounts host.config_overlays (
        codes "--setenv"
        ∷ codes "SHELL"
        ∷ host.sh
        ∷ codes "--share-net"
        ∷ codes "--unshare-pid"
        ∷ codes "--chdir"
        ∷ workspace
        ∷ rest)))

unfoldable pub qa_mounts : SandboxHost → Text → List Text → List Text
qa_mounts host workspace rest = common_mounts host (
    ro_mounts host.ro_binds (
      render_mount (record { source = workspace; mode = read_write })
        (codes "--setenv"
          ∷ codes "SHELL"
          ∷ host.sh
          ∷ codes "--unshare-net"
          ∷ codes "--unshare-pid"
          ∷ codes "--die-with-parent"
          ∷ codes "--chdir"
          ∷ workspace
          ∷ rest)))

pub record ClaudeSpawn : Type 0 where
  pub role : WorkerRole
  pub task : Text
  pub allowlist : Text
  pub denylist : Text
  pub system_prompt : Text
  pub max_turns : ℕ
  pub mounts : List Mount

-- `WorkerCommand::claude`: the mounts are those of the role.
unfoldable pub claude : WorkerRole → Text → Text → Text → Text → Text → Text → ℕ → ClaudeSpawn
claude role root workspace task allowlist denylist system_prompt max_turns = record {
  role = role;
  task = task;
  allowlist = allowlist;
  denylist = denylist;
  system_prompt = system_prompt;
  max_turns = max_turns;
  mounts = for_role role root workspace;
}

abbrev task_prompt_suffix : Text
task_prompt_suffix =
    msg
      "Your task for this session is written to `_orchestrator/task.md` at the root of your working directory. Read that file first; it is the sole source of your instructions for this round."

abbrev headless_bootstrap : Text
headless_bootstrap =
    msg
      "Read _orchestrator/task.md and complete the task described there, then write _orchestrator/result.md and _orchestrator/DONE as instructed."

abbrev denied : Text → List Text → List Text
denied [] rest = rest
denied (c ∷ cs) rest = codes "--disallowed-tools" ∷ (c ∷ cs) ∷ rest

-- The task is not among the arguments.
unfoldable pub claude_argv : ClaudeSpawn → List Text
claude_argv c =
    codes "claude"
    ∷ codes "-p"
    ∷ headless_bootstrap
    ∷ codes "--permission-mode"
    ∷ codes "default"
    ∷ codes "--allowed-tools"
    ∷ c.allowlist
    ∷ denied c.denylist (
        codes "--append-system-prompt"
        ∷ (c.system_prompt ++ newline ∷ newline ∷ task_prompt_suffix)
        ∷ codes "--max-turns"
        ∷ show_nat c.max_turns
        ∷ [])

unfoldable pub bwrap_prefix : ClaudeSpawn → Text → SandboxHost → List Text → List Text
bwrap_prefix c workspace host rest = host.bwrap ∷ base_mounts host workspace (render c.mounts rest)

unfoldable pub to_argv : ClaudeSpawn → Text → SandboxHost → List Text
to_argv c workspace host = bwrap_prefix c workspace host (
    codes "--"
    ∷ host.nix_shell
    ∷ (workspace ++ codes "/shell.nix")
    ∷ codes "--run"
    ∷ shell_join (claude_argv c)
    ∷ [])
