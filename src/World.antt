-- ===== src/World.antt =====
-- The state of the control plane: the instances directory, the other files, and what is outside.
pub mod Frames
pub mod Clock
use linuxmuster_radius.Prelude.{Bool, true, false, Option, none, some, Text, ◌++◌, if◌then◌else◌}
use linuxmuster_radius.Exec.{Exec, Result, ok, err}
use linuxmuster_radius.Dict.{Dict}
use linuxmuster_radius.Host.{Host}

pub record World (H : Host) : Type 0 where
  -- The files of `Settings.instances_dir` by name.
  pub instances : Dict Text
  -- The files of the secrets, certificate and render directories, by resolved path.
  pub files : Dict Text
  pub host : H.State

module _ {H : Host} where
  -- A call of something outside.
  abbrev pub call : {A : Type 0} → Exec H.State A → Exec (World H) A
  call m w = let (r, s) = m w.host in (r, record w { host = s })

  -- A call that cannot raise.
  abbrev pub ask : {A : Type 0} → (H.State → A × H.State) → Exec (World H) A
  ask m w = let (a, s) = m w.host in (ok a, record w { host = s })
