-- ===== src/Lib.antt =====
-- Hermes, a distributed key-value store written in Go: the parts that decide what the cluster agrees
-- on and what it keeps, modelled function by function.
--
-- Parts and files.
-- * Raft (hermes/pkg/raft). Raft/Types has the messages, entries and records of raft.go and state.go.
--   Raft/Log is log.go: `RaftLog` and its methods, `append_entries` for `Append`, `slice` for
--   `Entries`, the others under their own names. Raft/Progress has the methods of `Progress`.
--   Raft/Node is the node of raft.go with its role changes and what it sends; Raft/Node/Handlers has
--   the handlers of messages, Raft/Node/Step has `Step`, its three roles and `TakeReady`. A node
--   calls its log and the progress of its peers, and talks to other nodes only by the messages it
--   queues in `msgs`.
-- * Clocks (hermes/pkg/clock). Clock/Lamport is lamport.go, Clock/Vector is vector_clock.go, and
--   Clock/Hybrid is hlc.go. The write-ahead log and the timestamp oracle take their time from it.
-- * Locks, leases and replicated data (hermes/pkg/consistency). Consistency/Locks is distlock.go,
--   Consistency/Lease is lease.go and Consistency/ReadIndex is readindex.go. Consistency/Counters,
--   Consistency/Register and Consistency/Sets are the types of crdt.go.
-- * Storage (hermes/pkg/storage). Storage/Command is command.go, the bytes that Raft replicates.
--   Storage/Wal is the write-ahead log of wal: Storage/Wal/Record is record.go with the errors,
--   Storage/Wal/Segment is segment.go, `read_all` for `ReadAll`, and Storage/Wal/Log is wal.go. The
--   log writes records into its active segment, and rotates, recovers and reads segments.
--   Storage/SkipList is memtable/skiplist.go, the table in memory: nodes at addresses, their forward
--   pointers and the search down the levels, with `put`, `delete`, `get` and `scan`. Storage/Bloom is
--   bloom/bloom.go. Storage/SsTable is sstable/sstable.go: the entries of a block, the index and the
--   writer, which adds the keys to a filter; Storage/SsTable/Files has the footer, `Finish`,
--   `OpenReader`, and the reader with its iterator. Storage/Engine is engine.go, which writes to the
--   log and to a table in memory, rotates and flushes it, reads through all tables and replays what
--   the opened log reads; Storage/Engine/Compaction has `Scan`, `kWayMerge` and `compact`.
-- * Transactions (hermes/pkg/txn). Txn/Oracle is tso.go, Txn/LockManager is the lock manager of
--   types.go, Txn/TwoPc is the coordinator of twopc.go, Txn/TwoPhase is that of two_phase_commit.go,
--   Txn/Saga is saga.go, and Txn/Ssi is ssi.go.
-- * Membership (hermes/pkg/membership/memberlist.go): Membership/MemberList.
-- * Partitions (hermes/pkg/partition/consistent_hash.go): Partition/Ring.
-- * Rate limits (hermes/pkg/ratelimit/limiter.go): Ratelimit/Breaker is the circuit breaker.
-- * Base has what the parts share: Boolean tests, 64-bit words, lists, Go strings as bytes, Go maps as
--   association lists, and code that may panic.
-- The children of a module hold its proofs; the modules called Examples and the like apply the
-- theorems at concrete inputs.
--
-- Conventions. A `uint64` is a natural number, and sums that the source lets wrap are taken modulo
-- 2^64. An `int64` is kept as its bit pattern. Go's `int` is a natural number where it counts
-- something. A panic is `none`, an error is a value. State is passed from one function to the next;
-- a mutex makes a method one step. Readings of the clock and random numbers are arguments. A map is
-- visited in the order of its list. Printing is left out. Calls of the operating system and of
-- libraries are arguments: whether a write, a sync or an open succeeds, the checksum of the log, the
-- hash and the search of the ring, the decimal format of numbers.
--
-- Bounds. Most loops go down a list or a number. These run on fuel: the reading of a segment, whose
-- every round takes four bytes or more, has one round for each byte and one more; the walk along the
-- ring has two more rounds than twice the length of the ring, and the source leaves the loop by
-- itself before they are spent; a walk along a level of a skip list has one more round than the list
-- has entries; the search for a table of a level, which halves its range, has a round for each table;
-- the decoding of a block has a round for each byte. `IsWellFormed` of a log asks that
-- its indices stay below 2^64, and hypotheses on terms, tokens, timestamps and the sizes of tables
-- ask for the same room.
--
-- Not modelled: the goroutines and channels of raft/node.go, the linearizability checker, network
-- transports, the loading and the closing of the storage engine, percolator transactions, failure
-- detectors, shards and their routing, token buckets, the change feed, the query planner, servers,
-- command lines, generated code and demonstrations. Some of these are input and output or use
-- floating point; the others are left for later work.
pub mod Base
pub mod Raft
pub mod Clock
pub mod Consistency
pub mod Storage
pub mod Txn
pub mod Membership
pub mod Partition
pub mod Ratelimit
