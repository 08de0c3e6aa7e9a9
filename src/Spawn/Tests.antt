-- ===== src/Spawn/Tests.antt =====
-- The sandbox of an Adversary, and a command with a quote and shell syntax in it.
use vetinari.Prelude.{true, false, ◌≡◌, Text, codes, List, [], ◌∷◌}
use vetinari.State.Enums.{WorkerRole}
use vetinari.Spawn.Mounts.{read_write, read_only, in_root}
use vetinari.Spawn.Sandbox.{SandboxHost, to_argv, qa_mounts, claude}
use vetinari.Spawn.Surface.{
  bound, layered, network, accesses_of, all_of, common_accesses, sandbox_surface,
}

abbrev a_host : SandboxHost
a_host = record {
  bwrap = codes "/b/bwrap";
  nix_shell = codes "/b/nix-shell";
  sh = codes "/b/sh";
  home = codes "/home/u";
  ro_binds = codes "/home/u/.gitconfig" ∷ [];
  config_overlays = codes "/home/u/.claude" ∷ [];
}

sandbox_surface_example :
    (accesses_of (
        to_argv
          (claude WorkerRole.adversary
            (codes "/r")
            (codes "/r/w")
            (codes "t")
            (codes "Read")
            (codes "--bind")
            (codes "p")
            5)
          (codes "/r/w")
          a_host)
      ≡ common_accesses a_host (
          all_of layered a_host.config_overlays (
            network true
            ∷ bound read_write (codes "/r/w")
            ∷ bound read_only (in_root (codes "/r") (codes ".crosslink"))
            ∷ [])))
    × (accesses_of (a_host.bwrap ∷ qa_mounts a_host (codes "/r/w") (codes "--" ∷ codes "bash" ∷ []))
        ≡ common_accesses a_host (bound read_write (codes "/r/w") ∷ network false ∷ []))
sandbox_surface_example =
    sandbox_surface WorkerRole.adversary (codes "/r") (codes "/r/w") (codes "t") (codes "Read")
      (codes "--bind") (codes "p") 5 a_host (codes "bash" ∷ [])

abbrev hostile : List Text
hostile = codes "claude" ∷ codes "it's; rm -rf $HOME" ∷ [] ∷ []
