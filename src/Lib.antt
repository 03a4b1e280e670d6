-- ===== src/Lib.antt =====
-- A verification library of the core of OpenVault, a backup system in Rust: crate
-- crates/openvault-core, whose components share the errors, the snapshots and the storage trait, and
-- what stands on it.
--
-- The parts and the files that model them:
--   Vault        crates/openvault-core/src/error.rs, snapshot.rs, storage.rs. The trait `VaultStorage`
--                is a record of operations on a type of states; what its clients rely on of a backend
--                is the record `StorageLaws`.
--   Fs           what the program uses of std::fs: a table of files, and the paths that refuse.
--   Local        crates/openvault-storage/src/local.rs: the backend in a directory. `Paths` has what
--                `Path::join` and the operating system make of a path (`..`, `.`, absolute paths; links are
--                left out). It keeps the laws of a storage on plain names (`PlainLaws`).
--   Compress     crates/openvault-core/src/compress.rs: `detect_format`, the compressors, and the storage
--                that compresses, which keeps `StorageLaws` over an inner storage that does.
--   RestoreEngine crates/openvault-core/src/restore.rs: `restore` with its conflict strategies, `verify`,
--                and the versions of a file.
--   Strategy     crates/openvault-core/src/strategy.rs, engine.rs: full, incremental and differential
--                backup to any storage.
--   Incremental  crates/openvault-core/src/incremental.rs. `Chunker` cuts bytes with a rolling hash,
--                `ChunkStore` stores the chunks once, `Manifest` lists the files of a backup, `Backup`
--                walks a tree, and `Restore` puts the files together again.
--   Policy       crates/openvault-core/src/policy.rs: `check_health` and `remediate` over storages.
--   Healing      crates/openvault-core/src/healing.rs: `scan`, `heal` and `heal_from_sources`.
--   Audit        crates/openvault-core/src/audit.rs: `append`, rotation, `verify_chain` and `query`.
--   Tenant       crates/openvault-core/src/tenant.rs: quotas, the manager, and access control.
--   Notification crates/openvault-core/src/notification.rs: rules, `send` with its deduplication, history.
--   Replicator   crates/openvault-core/src/replicator.rs: `replicate_snapshot`, `auto_remediate`,
--                `maintain_321` and `check_health` (here coordinator_check: the policy has a function of
--                this name).
--   Devices      crates/openvault-server/src/device_manager.rs: the registry with its heartbeats; `Sync`
--                chooses devices, `Mapper` joins policies with their overrides.
--   Compliance   crates/openvault-core/src/compliance.rs: the rules and `check`; `Globs` has the patterns,
--                `Retention` the manager with `is_expired` and `sweep`.
--   Scheduler    crates/openvault-intel/src/scheduler.rs: the window, the heap of tasks, `schedule_next`.
--   Common       texts, lists, maps and tests that the parts share.
--   Examples     a storage in memory, a digest without collisions, and concrete runs.
--
-- How the code corresponds: a struct is a record and an enum a data type with the source's names; a
-- method that changes `&mut self`, or a storage behind a lock, takes the state and returns the next one
-- with its result; `VaultResult` is the sum of a value and an error, and an early return by `?` is a
-- case of it. The functions of the source have their names. A loop is a function on the list that it
-- walks, named for what a round does; its header says which loop it is.
--
-- Numbers are natural. The 32-bit hash and the 8-bit shift of the chunker, the counters that are u32,
-- the u64 subtraction of the collection, the u64 product of `is_storage_low`, the u64 sum of the bytes
-- that a sweep frees and the usize sums of the chunker with its parameters wrap as in a release build.
-- The other sums of u64 and usize do not: they count bytes and entries that are held in memory or on
-- disk. Where the wrapped sum or chrono's range makes the program panic (the slice of a chunk, the
-- years of a rule), the result is `none`. `chunk_data` runs on as much fuel as there are bytes,
-- which is enough where its parameters are sensible; `none` stands for a run that does not end, also
-- of the walk to the parents in `Strategy`. `schedule_next` runs on one round more than it has tasks,
-- which is enough.
--
-- Parameters: SHA-256 in hexadecimal, the JSON coding of metadata and manifests, the printing of times,
-- fresh identifiers, the clock, and the last instant that chrono represents. A hash map is an association list; the order in which it is walked
-- is the order of the list. Messages are kept as the fragments that `format!` joins.
--
-- Not modelled: floating-point figures for display, the exports of the audit log, the summaries of
-- healing and replication, and the parts of the repository beside these files: the other modules of
-- the core (among them search.rs, pipeline.rs, crypto.rs), the remote backends, the rest of the server,
-- the transports and the command line.
mod Common
pub mod Vault
pub mod Fs
pub mod Local
pub mod Compress
pub mod Strategy
pub mod Devices
pub mod Compliance
pub mod Scheduler
pub mod RestoreEngine
pub mod Incremental
pub mod Policy
pub mod Healing
pub mod Audit
pub mod Tenant
pub mod Notification
pub mod Replicator
pub mod Examples
