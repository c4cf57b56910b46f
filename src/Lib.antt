-- ===== src/Lib.antt =====
-- libkvs, a key-value storage library in C++: values live in storages, the storages of a volume form
-- a tree, and a virtual storage merges subtrees of several volumes into one virtual tree.
--
-- Parts and files
--   Value (src/Value.hpp, ValueType.hpp, Error.hpp, detail/ValueTraits.hpp): values as typed byte
--     arrays. `of_content` is the constructors, `get_value` is getValue<T>, `Bits` is memcpy of
--     numbers in little-endian order; a float or a double is its bit pattern.
--   Key (src/Key.hpp, KeysRange.hpp, Status.hpp, Record.hpp): keys with a time to live, ranges,
--     statuses, records. A status and an output parameter together are an `Outcome`.
--   StringUtils (src/utility/StringUtils.cpp): startsWith and split. A string is a list of bytes.
--   MgMutex (src/utility/MGMutex.hpp, MGMutex.cpp): the mutex with lock modes. `lock` and `unlock`
--     are critical sections of the inner mutex, as functions of the state; `System` lets threads
--     that lock, poll and unlock interleave in any order, as a step relation, `Reach` is the states
--     that come about. A parameter says which lock types the threads ask for.
--   LockGuard (src/utility/MGLockGuard.hpp): threads that take and leave many mutexes by guards, as a
--     step relation. `Operations` is the locks of each operation of the virtual storage, in their
--     order; `Projection` looks at the system from one mutex, as `MgMutex.System` does; `Progress` and
--     `Completion` have the threads in any order of the mutexes, `Deadlock` those of the virtual
--     storage.
--   Storage (src/IStorage.hpp, IStorageImpl.hpp): the interface of a storage, `StorageImpl`, and
--     what it promises, `StorageLaws`. The virtual storage is built over any storage of this kind.
--   LinearHashStorage (src/linear_hashing/LinearHashStorage.cpp): the storage over a hash table. The
--     hash table and the byte buffer of libs/index-cpp, another project's code, are the parameters
--     `HashTable` and `Buffer`; `HashTableLaws` and `BufferLaws` say what is relied on, and `Sample`
--     has instances. `Contract` fills `StorageLaws`, `Locks` has the lock type of each operation.
--   VirtualStorage (src/VirtualStorage.hpp, VirtualStorage.cpp): the tree of nodes with the storages
--     mounted on each. A pointer to a storage is a number, which a heap maps to the storage's state,
--     so that one storage mounted in two places is shared; a pointer to a node is its path.
--     `Resolve` is resolveNode with its locks, `Values` is getValue, putValue and deleteValue,
--     `Ranges` is getKeysRange, `Mounting` is the recursions of mount and unmount and
--     createNodesForPath. `Session` is the public mount and unmount with their tables, which are in
--     `Tables`, and with remountNodes. It uses any registry, by the interface `RegistryImpl`;
--     `Reach` is the states that mounts and unmounts lead to.
--   StorageRegistry (src/IStorageRegistry.hpp, linear_hashing/LinearHashStorageRegistry.cpp): how often
--     each storage is in use; the overflow of a counter gives no result. Volumes are behind the
--     interface `VolumeImpl` (src/IVolume.hpp).
--   LinearHashVolume (src/linear_hashing/LinearHashVolume.hpp, LinearHashVolume.cpp, Node.hpp,
--     src/IVolume.hpp): the tree of nodes of a volume, each with two files. `find_tree_node` is
--     findTreeNode, `load_tree` the private loadStorage, `Json` has toJson and fromJson, `Volume` the
--     constructor, loadStorage, unloadStorage and saveNodes. Paths (libs/teenypath), JSON values
--     (libs/json) and files are the parameters `PathOps`, `JsonImpl` and `FileSystem`, and whether a
--     storage can be constructed is one too.
--   FilesystemUtils (src/utility/FilesystemUtils.cpp): mkdir, mkdirp and getcwd over `FileSystem`.
--   RandomUtils (src/utility/RandomUtils.cpp, StringUtils.cpp): random numbers and texts, from the
--     sequence of numbers that the random engine gives.
--   LoadTest (load_test/src): the load test. `Runner` is TestRunner with its operations over the
--     interface `CompositeStorage`, `Threads` the loop of threadFunc in one thread, `Concurrent` its
--     critical sections in several threads, as a step relation, `Arguments` main.
--     `Ledger` has its tables, over the laws `CompositeLaws` on mount ids, which `OverVirtual` fills
--     with the virtual storage.
--   Example (example/src/main.cpp): the example program, with the lines that it prints.
--   TimeUtils (src/utility/TimeUtils.cpp): the reading of the clock in milliseconds.
--   Prelude: lists, texts, tests and integers that the parts share.
--
-- Time, bounds and fuel
--   The clock is a sequence of readings that an operation takes in order. Arithmetic on size_t keeps
--   its wrap-around. The loops of getKeysRange run on fuel: one more than the sum, over the layers,
--   of one more than their sizes, since each round reads a key or leaves a layer. Whether a vector can
--   hold a number of keys is a parameter, `reserves`. The loop of
--   mkdirp runs on one more than the length of the path, since each round passes a character. fromJson
--   runs on fuel for the depth of the value, where two levels are as good as any more
--   (`from_json_depth`). The load test does a round for each reading of the clock that it is given.
--   The order of the locks is by the number of components of a path, which a bound of any size limits
--   for the operations that run, with the storages above all nodes.
--
-- Not modelled
--   The libraries under libs, and the system clock behind TimeUtils. The operations on values are
--   sequential: other threads do not change a storage or the tree during an operation. The locks that
--   keep them apart are in LockGuard, where how many storages a call looks into is an argument. There
--   a thread that waits in the loop of `lock` makes no step until it finds itself running. What an
--   exception leaves behind is not modelled: a call that throws gives no state.
pub mod Prelude
pub mod StringUtils
pub mod MgMutex
pub mod Value
pub mod Key
pub mod Storage
pub mod LinearHashStorage
pub mod VirtualStorage
pub mod StorageRegistry
pub mod FilesystemUtils
pub mod LinearHashVolume
pub mod RandomUtils
pub mod TimeUtils
pub mod LockGuard
pub mod LoadTest
pub mod Example
