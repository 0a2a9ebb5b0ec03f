-- ===== src/Lib.antt =====
-- swarmstate: a state store for agent systems, with a checkpointer for LangGraph.
--
-- The program has a store core, backends with one interface, and integrations over that interface.
-- A store keeps values under a namespace and a key. The saver of the LangGraph integration turns
-- checkpoints, pending writes and channel blobs into entries of a store; a dump or a copy moves
-- entries between stores.
--
-- Which file models which part:
--   Prefix         python/swarmstate/backends/_prefix.py: `prefix_upper_bound`.
--   Snapshot       python/swarmstate/backends/_snapshot.py: `SnapshotMeta`, `CopySnapshot`, `diff`.
--   Store          python/swarmstate/protocols.py: `StoreLike` is the record of the same name. What a
--                  client may rely on is the record `IsStore`; the saver and the copy take both as
--                  parameters, and the Contract modules of the backends fill them.
--   Disk           python/swarmstate/backends/disk.py: the methods of `DiskStore`, one definition each
--                  with the method's name. A method that writes takes the table and returns its
--                  result, or the exception, with the table that it leaves.
--   Postgres       python/swarmstate/backends/postgres.py: the methods of `PostgresStore` over the
--                  statements of Postgres/Statements; Postgres/Async has the async methods, and
--                  Postgres/Table the check of the table name. Postgres/Pools has
--                  `_aconnection` and `aclose` as tasks that take turns.
--   Redis          python/swarmstate/backends/redis.py: the methods of `RedisStore` over the commands
--                  of Redis/Commands; Redis/Async has the async methods.
--   Portability    python/swarmstate/portability.py: `_entries` and `copy_store`; Portability/Dump
--                  has `_write` and `_read`, and Portability/Dump/ToPath `dump_store` to a path, over
--                  the steps on files of Portability/Dump/Files.
--   Saver          python/swarmstate/integrations/langgraph.py: `SwarmStateSaver`. Its attributes
--                  `store`, `_max_seen` and `_prune_floor` are the fields of the record `Saver`.
--     Saver/Names      the namespaces and keys, `_write_order`
--     Saver/Access     `_get_many`, `_set_many`, `_delete_many`, `_thread_namespaces`
--     Saver/Put        `put`, `_put_impl`, `_put_rows`
--     Saver/Writes     `put_writes` and `aput_writes`
--     Saver/Resolve    `_resolve`, `get_tuple`
--     Saver/Tuple      `_build_tuple`, `_channel_values`, `_pending_writes`, `_decode_writes`
--     Saver/Trim       `_prune_thread`, `_trim`, `_delta_ancestors`
--     Saver/Retention  `_drop_checkpoints`, `_referenced_blobs`, `_bounded_set`
--     Saver/Threads    `delete_thread`; Saver/Threads/Manage has `copy_thread`, `prune` and
--                      `delete_for_runs`
--     Saver/Listing    `list`, `_list_targets`, `_metadata_if_matching`
--     Saver/History    `get_delta_channel_history`
--     Saver/Async      `aput`, `aget_tuple`, `_aresolve`, `_abuild_tuple`; Saver/Async/Listing
--                      has `alist`
--     Saver/Measured   `_measure`, `_run`, `_mark_span_error`, the attributes of the spans, and the guards
--                      of `put`, `put_writes`, `get_tuple` and their async methods
--   Observability  python/swarmstate/observability.py: the metrics sinks. `MetricsSink` is the record of
--                  the same name; the saver takes one, and a tracer, as parameters.
--   Crewai         python/swarmstate/integrations/crewai.py: `SwarmStateStorage`, over any store.
--   Prelude, Text  what the others share: Python's comparisons, dicts, texts and decimal numbers, and
--                  results with exceptions as values.
--   Examples       a table in memory and a concrete byte format, and the theorems at them.
--
-- Conventions. A text is the list of its code points, in Python's order. A stored value is an
-- `Option`, whose `none` is Python's `None`, so that an entry with `None` differs from no entry. An
-- exception is a value of `Result`, and what a method changed before it raised stays changed. The
-- saver is taken over a store with the batch methods and the prefix arguments, which every bundled
-- backend has; the fallbacks for other stores are left out. One method runs at a time: the locks and
-- the thread pools are not modelled, and an async method is the sequence of its store calls. Only
-- Postgres/Pools has tasks that take turns at their awaits.
--
-- What stands outside the repository is a parameter: SQLite (`Disk.Statements.Sqlite`, with the
-- documented behaviour of the statements as `IsSqlite`, and `Reliable` for a disk on which no
-- BEGIN, COMMIT or statement but an insert fails), PostgreSQL (`Postgres.Statements.Postgresql`, `IsPostgres`,
-- `Reliable`), Redis (`Redis.Commands.Redis`, `IsRedis`, `Reliable`), the byte codec (`Codec`), LangGraph's
-- serializer and its maps of channels (`Saver.Langgraph`), OpenTelemetry's meter and tracer
-- (`Observability.Meter`, `Saver.Measured.Tracer`), the file system (`Portability.Dump.Files.Os`,
-- `IsOs`, `Works`), and Python's floats, `int` and `str.lower`
-- (`Observability.Floats`, `Crewai.Python`); the time that a call takes and the random suffix of a key
-- are arguments.
--
-- Bounds. `_MAX_PARAMS` is 900, `_MAX_HINTS` 4096 and `_BATCH` 1000, as in the code. The fuel is
-- that of `chunks`, the length of the list that is cut, as a round takes at least one element, and that
-- of `read_frames`, one more than the number of bytes, as a round reads at least four. The walks up the
-- parents have one more than the number of checkpoints in the namespace, as ids fall along them.
--
-- Not modelled: the core in rust/ (store, codec, graph, conditions), the handoff router over its
-- conditions, connections, sync pools and clients, the creation of OpenTelemetry's instruments, file
-- objects, and of the saver the fallbacks for stores without batch
-- methods or prefixes. A serializer that fails is
-- modelled for the values of pending writes; what a put stores is taken to serialize. A generator is
-- taken as consumed at once.
mod Prelude
pub mod Text
pub mod Prefix
pub mod Snapshot
pub mod Store
pub mod Disk
pub mod Postgres
pub mod Redis
pub mod Portability
pub mod Observability
pub mod Crewai
pub mod Saver
mod Examples
