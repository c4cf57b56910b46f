-- ===== src/VirtualStorage/Session/Reach.antt =====
-- The states that mounts and unmounts lead to.
use libkvs.Prelude.{ℕ, ◌≡◌, some}
use libkvs.StorageRegistry.Interface.{RegistryImpl}
use libkvs.VirtualStorage.{MountOptions, NodePath}
use libkvs.VirtualStorage.Tables.{find_id}
use libkvs.VirtualStorage.Tables.Kept.{mount_points_at, HasId}
use libkvs.VirtualStorage.Session.{MountResult, UnmountStatus, State, init, mount, unmount}
use libkvs.VirtualStorage.Session.Known.{IsKnown, mount_acquired-IsKnown, unmount_found-IsKnown}

module _ (G : RegistryImpl) where
  -- The mounts and unmounts that return.
  pub data Step : State G → State G → Type 0 where
    mounts :
        {s s' : State G} (options : MountOptions) (result : MountResult)
        → mount G options s ≡ some (result, s')
        → Step s s'
    unmounts :
        {s s' : State G} (id : ℕ) (status : UnmountStatus)
        → unmount G id s ≡ some (status, s')
        → Step s s'

  pub data Reach : State G → Type 0 where
    starts : (g : G.State) → Reach (init G g)
    goes_on : {s s' : State G} → Reach s → Step s s' → Reach s'

  Reach-IsKnown : {s : State G} → Reach s → IsKnown G s
  unfolding find_id mount unmount
  Reach-IsKnown (starts g) = λ id path found. absurd (cc found)
  Reach-IsKnown (goes_on {s = s} {s' = s'} r (mounts options result h)) =
      mount_acquired-IsKnown G options s s' result _ h (Reach-IsKnown r)
  Reach-IsKnown (goes_on {s = s} {s' = s'} r (unmounts id status h)) =
      unmount_found-IsKnown G id _ s s' status h (Reach-IsKnown r)

  -- In every state that mounts and unmounts lead to, with their remounts, an id of `m_mountPoints`
  -- stands among the mount points of the node that it leads to, so `unmount` finds it there.
  pub Reach-HasId :
      {s : State G} (id : ℕ) (path : NodePath)
      → Reach s
      → find_id id s.mount_points ≡ some path
      → HasId id (mount_points_at s.root_node path)
  Reach-HasId id path r found = Reach-IsKnown r id path found
