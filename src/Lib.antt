-- ===== src/Lib.antt =====
-- A model of the memory write-ahead VFS: a virtual file system for SQLite in the browser that keeps
-- a database and its write-ahead files in shared memory, segment by segment, with locks and leases
-- in `Int32Array` slots that several workers touch with atomic operations.
--
-- Parts, and how they interact:
--   * Base: numbers, integers (the content of a slot), lists and calls that may throw.
--   * Counter (src/memoryWriteAheadSharedRuntime.ts): addSaturatingAtomicCounter and
--     updateAtomicMaxCounter, compare-and-swap loops on one slot. What the compare-exchanges of the
--     rounds find is a finite list; when it ends nobody interferes any more.
--   * Clock (the same file): the clock of heartbeats, modulo 2^31 - 1, and the age of a heartbeat.
--   * Options (the same file): resolveMemoryWriteAheadRuntimeOptions and the checks it makes.
--   * SharedFile (the same file): the segmented file. The record SharedFile has the segments and a
--     field for each slot of MEMORY_WRITE_AHEAD_FILE_META. SharedFile/Capacity has the
--     segment count and ensureFileCapacity, SharedFile/Create createSharedFile, SharedFile/Transfer
--     readMemoryWriteAheadFile, writeMemoryWriteAheadFile, truncateMemoryWriteAheadFile and
--     clearMemoryWriteAheadFile, SharedFile/Records the statistics. A call returns or throws, and
--     what it has changed by then stays changed; onProgress, which refreshes the heartbeat of the
--     file lock, is a function on the lock's slots. The invariant is SharedFile/Invariant.
--   * FileLock (src/MemoryWriteAheadVFS.ts): acquireMemoryWriteAheadFileLock, the refresh of the
--     heartbeat, releaseMemoryWriteAheadFileLock, recoverAbandonedMemoryWriteAheadFileLock and
--     waitForUnlock as programs of any number of threads. A step is one atomic access; the steps
--     interleave in any order and at any times. A write to a SharedFile runs under this lock.
--   * AccessHandle (src/MemoryWriteAheadVFS.ts): SABMemoryAccessHandle, whose writes and truncations
--     acquire the file lock, run the operation of SharedFile with a refresh of the heartbeat as its
--     onProgress, and release the lock in the end.
--   * Lease (src/memoryWriteAheadSharedRuntime.ts): the slots in which each context counts its
--     open handles, claimed, retained, released, recovered and reset. Calls run one after the
--     other, but for the second load of a heartbeat in a recovery, whose value is an argument.
--     Both recoveries quarantine the transaction locks of the owner that is gone.
--   * AttachedLock (src/MemoryWriteAheadVFS.ts): the transaction lock of an attached database, with
--     what other contexts do between two accesses as arguments.
--   * Registry (src/memoryWriteAheadSharedRuntime.ts): the runtimes by their database's path, created
--     from options with three files each, given out again or refused, and files registered with them.
--     Registry/Reset has resetMemoryWriteAheadSharedRuntime, of one runtime or of all, with the leases
--     of a context beside the registry, and Registry/Diagnostics getMemoryWriteAheadRuntimeDiagnostics.
--   * LocalFile (src/MemoryWriteAheadVFS.ts): growBuffer and LocalMemoryAccessHandle.
--   * Vfs (src/MemoryWriteAheadVFS.ts): the handlers of the class MemoryWriteAheadVFS. OpenFile is
--     MemoryWriteAheadOpenFile. A handler acts on a Session, the open file and the files it can reach;
--     Vfs/Files has the maps from ids and paths to files, whose values are indices of a list of
--     objects, so that two maps can refer to one. A handler returns its code, and an error that its
--     catch block takes becomes lastError.
--       - Vfs/Locking: jLock and jUnlock. Vfs/Retry: the operations that jLock queues in retryOps, with
--         the undoing that their catch blocks do in the opposite order. Vfs/Outcomes, Granted, Retried,
--         Requests, Unlocking, Rejections, AttachedFiles and GivenBack prove what they come to.
--       - Vfs/Protocol: SQLite's calls of jLock and jUnlock and the queued operations as steps of a
--         session, and the invariant that each step keeps.
--       - Vfs/Io: jRead, jWrite, jTruncate, jSync and jFileSize.
--       - Vfs/Opening: jOpen. Vfs/OpenRetry: #retryOpen and the handles it opens. Vfs/Closing: jClose,
--         jDelete and jAccess. PrimaryOpen, OneConnection, OpenLeak and TemporaryLife prove about them.
--       - Vfs/PragmaText and Vfs/Control: jFileControl with its pragmas. Vfs/Checkpoint:
--         #pendingCheckpoint.
--       - Vfs/Handlers: the handlers by file id, and run_operation, which runs one queued operation.
--     The queued operations are promises in the source; here each runs as one step, and what other
--     contexts do between the accesses of a transaction lock is an argument.
--
-- Bounds and fuel: the slots of counters wrap at 2^31 where the source uses Atomics.add and
-- Atomics.sub, and saturate at 2^31 - 1 where it uses its own loops. The loops of a read and a
-- write run on one round for each byte of the caller's buffer and one more: a round copies a byte
-- at least, and running out of fuel is an error of its own. SharedFile's loop over
-- segments and the loops of Lease recur on lists and counts.
--
-- Numbers of pragmas: parseInt is exact here, where the source rounds to a double beyond 2^53, and
-- a text without digits is an option where the source has NaN; page_size tests at most 16 bits, since
-- its bound is tested first.
--
-- Parameters: the engine's support for growable buffers, the URL parser, the system time and the
-- random owner ids (Host and System). WriteAhead, of which src/vendor has a copy, and LazyLock, of
-- the package @journeyapps/wa-sqlite, are third-party code: the record Platform has a function for
-- each of their members that the handlers use, on states of any type, and Vfs/Outcomes.IsDocumented
-- says what the theorems on locks rely on: an isolation or an upgrade that succeeds gives the
-- isolation asked for, and rejoining ends it. Vfs/Protocol.IsSteady says that an upgrade that does
-- not succeed leaves the isolation.
-- SQLite's codes, lock levels and flags are its documented numbers.
--
-- Not modelled: the text that jGetLastError writes, tracing with its pragma vfs_trace, the
-- constructor of the VFS, the vendored code itself, logging, the heartbeat timer, benchmarks
-- and tests.
pub mod Base
pub mod Counter
pub mod Clock
pub mod Options
pub mod SharedFile
pub mod FileLock
pub mod Lease
pub mod AttachedLock
pub mod LocalFile
pub mod Registry
pub mod AccessHandle
pub mod Vfs
