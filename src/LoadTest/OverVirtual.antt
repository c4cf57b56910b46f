-- ===== src/LoadTest/OverVirtual.antt =====
-- The virtual storage (src/VirtualStorage.hpp) as the composite storage that the load test runs on, over
-- any registry and any storages. A read and a range of keys change nothing. Each operation takes the
-- clock's readings from the first one on.
use mathlib.Core.Option.{some-injective}
use libkvs.Prelude.{ℕ, ◌≡◌, refl, sym, ap, ◌∙◌, some}
use libkvs.Prelude.Int.{ℤ}
use libkvs.Value.{Value}
use libkvs.Key.{permanent}
use libkvs.Storage.{StorageImpl}
use libkvs.StorageRegistry.Interface.{RegistryImpl}
use libkvs.VirtualStorage.Values.{Heap, put_value, delete_value}
use libkvs.VirtualStorage.Mounting.{◌>>=◌}
use libkvs.VirtualStorage.Mounting.Unmount.{bind-some}
use libkvs.VirtualStorage.Session.{MountResult, UnmountStatus, State, mount, unmount}
use libkvs.VirtualStorage.Session.Ids.{mount-counter, unmount-counter}
use libkvs.LoadTest.Runner.{CompositeStorage}
use libkvs.LoadTest.Ledger.{CompositeLaws}

-- `value_of` is the value of a number of bytes that the runner writes.
module _ (G : RegistryImpl) (S : StorageImpl) (clock : ℕ → ℤ) (value_of : ℕ → Value) where
  -- The members of the virtual storage, and its storages.
  abbrev pub World : Type 0
  World = State G × Heap S

  abbrev pub virtual_storage : CompositeStorage
  virtual_storage = record {
    State = World;
    mount = λ o s. mount G o s.0 >>= λ r. some (r.0, (r.1, s.1));
    unmount = λ id s. unmount G id s.0 >>= λ r. some (r.0, (r.1, s.1));
    get_value = λ key path s. s;
    put_value = λ key path size s.
        (s.0, (put_value S clock s.0.root_node s.1 (permanent key path) (value_of size)).1);
    delete_value = λ key path s. (s.0, (delete_value S s.0.root_node s.1 (permanent key path)).1);
    get_keys_range = λ path offset count s. s;
  }

  -- The virtual storage keeps the laws on mount ids that the load test relies on.
  abbrev pub virtual_storage_laws : CompositeLaws virtual_storage
  virtual_storage_laws = record {
    next_id = λ s. s.0.mount_id_counter;
    mount_next = λ o s s' r e ok room.
        let (r1, done, e1) = bind-some (mount G o s.0) _ (r, s') e in
        let same = some-injective _ _ e1 in
        let result : r1.0 ≡ r = ap (λ (x : MountResult × World). x.0) same in
        let state : r1.1 ≡ s'.0 = ap (λ (x : MountResult × World). x.1.0) same in
        let (id, next) =
          mount-counter G o s.0 r1.1 r1.0 done (ap (λ (x : MountResult). x.status) result ∙ ok)
            room in
        (
          sym (ap (λ (x : MountResult). x.mount_id) result) ∙ id,
          sym (ap (λ (x : State G). x.mount_id_counter) state) ∙ next,
        );
    unmount_keeps = λ id s s' status e.
        let (r1, done, e1) = bind-some (unmount G id s.0) _ (status, s') e in
        let state : r1.1 ≡ s'.0 =
          ap (λ (x : UnmountStatus × World). x.1.0) (some-injective _ _ e1) in
        sym (ap (λ (x : State G). x.mount_id_counter) state)
        ∙ unmount-counter G id s.0 r1.1 r1.0 done;
    get_value_keeps = λ key path s. refl;
    put_value_keeps = λ key path size s. refl;
    delete_value_keeps = λ key path s. refl;
    get_keys_range_keeps = λ path offset count s. refl;
  }
