-- ===== src/Reconciler.antt =====
-- controlplane/lmnradius/reconciler.py: the store and the container service together.
pub mod Leaving
pub mod Keeping
use linuxmuster_radius.Prelude.{ℕ, true, false, Option, none, some, List, [], ◌∷◌, Text, codes}
use linuxmuster_radius.Exec.{Exec, pure, gets, ◌>>=◌, ◌>>◌}
use linuxmuster_radius.Models.Types.{Instance}
use linuxmuster_radius.Models.Fields.{Stdlib}
use linuxmuster_radius.Host.{Host}
use linuxmuster_radius.World.{World}
use linuxmuster_radius.Store
use linuxmuster_radius.Docker.Config.{Config}
use linuxmuster_radius.Docker.View.{Status}
use linuxmuster_radius.Docker.Lifecycle.{ensure_running}
use linuxmuster_radius.Docker.Removal
use linuxmuster_radius.Docker.Removal.{Leave}

abbrev pub no_record : Leave
no_record = record { succeeded = true; attempted = false; detail = codes "no instance record" }

-- `fuel` bounds the polls of `_wait_settled`.
module _ (H : Host) (py : Stdlib) (cfg : Config) (fuel : ℕ) where
  -- `Reconciler.apply`
  unfoldable pub apply : Instance → Exec (World H) (Option Status)
  unfolding ensure_running Store.put
  apply inst = do Store.put H inst; ensure_running H py cfg fuel inst

  abbrev pub leave_of : Option Instance → Exec (World H) Leave
  leave_of none = pure no_record
  leave_of (some inst) = Removal.remove H py cfg inst

  -- `Reconciler.remove`
  unfoldable pub remove : Text → Exec (World H) Leave
  unfolding Store.get Store.delete Removal.remove
  remove name = do
    inst ← Store.get H py name
    leave ← leave_of inst
    Store.delete H name
    pure leave

  unfoldable pub ensure_each : List Instance → Exec (World H) (List (Option Status))
  unfolding ensure_running
  ensure_each [] = pure []
  ensure_each (inst ∷ insts) = do
    st ← ensure_running H py cfg fuel inst
    rest ← ensure_each insts
    pure (st ∷ rest)

  -- `Reconciler.reconcile_all`
  unfoldable pub reconcile_all : Exec (World H) (List (Option Status))
  unfolding Store.list ensure_each
  reconcile_all = do insts ← gets (Store.list H py); ensure_each insts
