-- ===== src/Lib.antt =====
-- wedding_cake: a store that gives every hash of a stream an index of presentation and finds
-- hashes by index and indices by hash. Hashes are fed in blocks to a buffer in memory
-- (apps/wedding_cake/include/ingester_buffer.hpp); a worker moves them into a donut of at most 65535
-- hashes on disk (ingester_evolver_types.hpp), which is promoted to a buffer room when it is full.
--
-- The files of this library, and the code that each is about:
-- + Base: shared types and lemmas (tests, lists, results, dictionaries, bytes).
-- + Types: apps/wedding_cake/include/types.hpp. LocalPi, GlobalPi and their arithmetic on uint64_t;
--   a hash is the list of its bytes, the least significant first.
-- + Hash: apps/wedding_cake/include/hash_prefix_suffix.hpp. The prefix and the suffix of a hash.
-- + PrefixPath: make_ms_prefix_path of the same file.
-- + Donut: apps/wedding_cake/include/donut_entries_calculator.hpp. The entries of the two files of
--   a donut. A writer takes the caller's buffer as a list and returns the count with the buffer.
-- + Lookup, TierConstants: concepts_lookup.hpp and tier_constants.hpp of the same folder.
-- + Manifest: libs/evolving_disk_state/include/files_manifest/dummy_implementation.hpp. The folder
--   on disk is a map from relative paths to bytes; a stream that is open is its path. What is
--   appended counts as written, since a stream is flushed when it is closed.
-- + ObjectFolder: libs/evolving_disk_state/include/evolving_disk_state/tier_folder.hpp. The names of
--   object folders.
-- + Remainder: apps/wedding_cake/include/ingester_evolver_types.hpp. The donut that is being filled,
--   in memory and in the two files of its folder.
-- + IngesterBuffer: apps/wedding_cake/include/ingester_buffer.hpp. The queue between the clients and
--   the worker. An operation runs under the lock; one that waits is none until its condition holds.
-- + BufferRoom: libs/evolving_disk_state/include/evolving_disk_state/buffer_room.hpp. The batch of
--   full donuts, with its threads as a step relation. Two calls of Discard at once are outside of its
--   theorems: the first to finish resets the flag under the second.
-- + FilledDonut, LookupableRoom: the ST01 state of ingester_evolver_types.hpp with
--   ingester_tier_hydrator.hpp, and lookupable_buffer_room.hpp, all in apps/wedding_cake/include.
-- + TierFolder, Worker, Ingester, StoreB: ingester_tier_folder.hpp, ingestor_worker.hpp, ingester.hpp
--   and store_b.hpp of the same folder. The worker's loop runs on fuel, as many rounds as there are
--   entries, which is enough since each round but the last takes one.
-- + ShallowTree: include/wedding_cake/shallow_tree.hpp. A mask of used bytes is a list of bits. The
--   recursion of the construction runs on fuel, one more than the bytes of a hash, which is enough
--   since each level uses a byte; a visitor's fuel is the number of nodes. The entropy of a byte is
--   minus the exact sum of squares, which doubles hold exactly below 2^53.
-- + FileStream: what the readers use of std::ifstream, a position in bytes with its two flags.
-- + HashesOrderFile, LsSuffixEntriesFile: hashes_order_file.hpp and ls_suffix_entries_file.hpp of
--   apps/wedding_cake/include, the readers and the writers of the two files of a settled donut.
-- + ManifestEngine: include/evolving_disk_state_old/manifest_engine.hpp. The transaction log as its
--   bytes, and the recovery after a crash; the fuel of the recovery is the count of bytes of the log.
-- + OutputBuffer: pipeline_buffer.hpp of the same folder, with its threads as a step relation.
--
-- Not modelled: reader_writer_factory.hpp and evolving_type_states.hpp of apps/wedding_cake/include,
-- which do not compile as they stand, the legacy Store with its tiers, the rest of the old pipeline
-- in include/evolving_disk_state_old, the class template TierFolder, which nothing instantiates,
-- first_offset of the tier, which calls an operation that BufferRoom does not have, and the programs.
-- A failed assertion is an error of the model, as in a debug build.
pub mod Base
pub mod BufferRoom
pub mod Donut
pub mod FileStream
pub mod FilledDonut
pub mod Hash
pub mod HashesOrderFile
pub mod Ingester
pub mod IngesterBuffer
pub mod Lookup
pub mod LookupableRoom
pub mod LsSuffixEntriesFile
pub mod Manifest
pub mod ManifestEngine
pub mod ObjectFolder
pub mod OutputBuffer
pub mod PrefixPath
pub mod Remainder
pub mod ShallowTree
pub mod StoreB
pub mod TierConstants
pub mod TierFolder
pub mod Types
pub mod Worker
