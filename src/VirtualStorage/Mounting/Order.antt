-- ===== src/VirtualStorage/Mounting/Order.antt =====
-- The storages of a node stand in descending order of their priorities.
use libkvs.Prelude.{◌≡◌, refl, ap, List, [], ◌∷◌, ◌++◌, arith, Bool-cases, inl, inr, All}
use libkvs.Prelude.Int.{ℤ, ltb_ℤ, ◌≤ℤ◌, ◌<ℤ◌}
use libkvs.VirtualStorage.{MountedStorage}
use libkvs.VirtualStorage.Mounting.{insert_storage}

-- Each storage of a list has a priority of `p` at most, and the list descends.
abbrev pub Descends : List MountedStorage → Type 0
Descends [] = Unit {0}
Descends (m ∷ ms) = All (λ (k : MountedStorage). k.priority ≤ℤ m.priority) ms × Descends ms

All-insert :
    (p : ℤ) (new : MountedStorage) (ms : List MountedStorage)
    → new.priority ≤ℤ p
    → All (λ (k : MountedStorage). k.priority ≤ℤ p) ms
    → All (λ (k : MountedStorage). k.priority ≤ℤ p) (insert_storage new ms)
unfolding insert_storage
All-insert p new [] h a = (h, tt)
All-insert p new (m ∷ ms) h a = elim (Bool-cases (ltb_ℤ m.priority new.priority)) [
  | inl e ↦ rw e (h, a)
  | inr e ↦ rw e (a.0, All-insert p new ms h a.1)
]

All-weaken :
    (p q : ℤ) (ms : List MountedStorage)
    → p ≤ℤ q
    → All (λ (k : MountedStorage). k.priority ≤ℤ p) ms
    → All (λ (k : MountedStorage). k.priority ≤ℤ q) ms
All-weaken p q [] h a = tt
All-weaken p q (m ∷ ms) h a = (omega arith, All-weaken p q ms h a.1)

pub insert_storage-Descends :
    (new : MountedStorage) (ms : List MountedStorage)
    → Descends ms
    → Descends (insert_storage new ms)
unfolding insert_storage
insert_storage-Descends new [] d = (tt, tt)
insert_storage-Descends new (m ∷ ms) d = elim (Bool-cases (ltb_ℤ m.priority new.priority)) [
  | inl e ↦
      let le : m.priority ≤ℤ new.priority = ground arith in
      rw e ((le, All-weaken m.priority new.priority ms le d.0), d)
  | inr e ↦
      rw e (All-insert m.priority new ms (ground arith) d.0, insert_storage-Descends new ms d.1)
]

All-below :
    (p q : ℤ) (ms : List MountedStorage)
    → p <ℤ q
    → All (λ (k : MountedStorage). k.priority ≤ℤ p) ms
    → All (λ (k : MountedStorage). k.priority <ℤ q) ms
All-below p q [] h a = tt
All-below p q (m ∷ ms) h a = (omega arith, All-below p q ms h a.1)

-- In a list of descending priorities a new storage comes right behind those of its priority or a
-- higher one, so storages of one priority stay in the order in which they were mounted. The list
-- still descends.
pub insert_storage_split :
    (new : MountedStorage) (ms : List MountedStorage)
    → Descends ms
    → (above : List MountedStorage) × (below : List MountedStorage) × (ms ≡ above ++ below)
      × (insert_storage new ms ≡ above ++ new ∷ below)
      × All (λ (k : MountedStorage). new.priority ≤ℤ k.priority) above
      × All (λ (k : MountedStorage). k.priority <ℤ new.priority) below
      × Descends (insert_storage new ms)
unfolding insert_storage
insert_storage_split new [] d = ([], [], refl, refl, tt, tt, (tt, tt))
insert_storage_split new (m ∷ ms) d =
    let down = insert_storage-Descends new (m ∷ ms) d in
    elim (Bool-cases (ltb_ℤ m.priority new.priority)) [
      | inl e ↦
          let lt : m.priority <ℤ new.priority = ground arith in
          ([], m ∷ ms, refl, rw e, tt, (lt, All-below m.priority new.priority ms lt d.0), down)
      | inr e ↦
          let (above, below, parts, put, hi, lo, _) = insert_storage_split new ms d.1 in
          (m ∷ above, below, ap (◌∷◌ m) parts, rw e (ap (◌∷◌ m) put), (ground arith, hi), lo, down)
    ]
