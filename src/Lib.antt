-- ===== src/Lib.antt =====
-- f4kvs-ffi: a Go key-value store over the LSM engine f4kvs-lsm, through a C interface in Rust.
--
-- The program's parts and how they interact. `F4KVS` (go/f4kvs.go) holds a handle to an engine.
-- Its methods take a read lock, turn Go strings and slices into C memory, call a function of
-- crates/f4kvs-ffi/src/lib.rs, and turn the result code and the thread's last message into a Go
-- error. Those functions check the pointers, lengths, texts and counts and drive f4kvs-lsm, which
-- is not in this repository. `Transaction` (go/transaction.go) stages writes in a Go map, reads
-- through it, and on `Commit` sends all puts and then all deletes as two batches. The program in
-- bench/embed_vs_sqlite loads an engine, reads it back, beside a SQLite
-- database, writes the measured rows to files, and fails if a restarted engine lost rows.
--
-- Which file models which part.
--   Prelude: Boolean tests, lists, maps as lists of entries, calls with a state and errors, ints.
--     Prelude.After states what holds after a call that succeeds; Prelude.Members and Decimal are
--     on lists without repetition and on decimal numerals.
--   Ffi.Text: C strings, `CStr::from_ptr` and UTF-8. Ffi.Lsm: f4kvs-lsm as a parameter, the
--     record `Lsm` of its operations and the record `LsmLaws` of what the proofs rely on (a map
--     `view` of what is stored that reads tell and writes change; a failed write promises
--     nothing). Ffi.Memory: an engine in memory that meets the laws, for runs.
--   Ffi.Calls: the functions of crates/f4kvs-ffi/src/lib.rs that Go calls, under their names
--     without the prefix f4kvs_; `CSide` is the engine behind the handle and the message slot.
--   Ffi.Options, Ffi.Open: the options in memory, what they change in a configuration, and the
--     functions that open an engine; the record `Opening` is what they use of f4kvs-lsm.
--     Ffi.Options.Layout and Ffi.Options.Applied are theorems.
--   Engine: the methods of `F4KVS`, in the order of go/f4kvs.go. Engine.Stored, Engine.Batch,
--     Engine.Loops, Scan, Closed, Limits and BatchLimits are theorems on them;
--     Engine.Refinement states the contract as a map. Engine.Options, Engine.Open: `OpenOptions`
--     and the functions that open an engine; Engine.Asked and
--     Engine.Opened are theorems on them.
--   Transaction: the methods of `Transaction`; Transaction.Split, Visible and Lifecycle are
--     theorems.
--   Lock: the RWMutex of `F4KVS` with any number of goroutines, those that wait for it
--     among them, as a step relation;
--     Lock.Invariant, Safety and Progress are theorems.
--   The rest is the program in bench/embed_vs_sqlite, main.go and de_out.go.
--   Bench.Batching: batch sizes and the loop over slices; Bench.Slices, Loaded and Limit are
--     theorems. Bench.Profiles: the choice of profiles.
--   Bench.Keys, Payload: the keys and the payloads that a run loads.
--   Bench.Run: the disk and the clock under a run, and the calls of the engine. Bench.Phases and
--     EnginePhases: `benchF4KVS` and the four functions it calls. Bench.Sqlite: `benchSQLite` and
--     `benchSQLiteChunkBatched`. Bench.Restart: `benchF4KVSPostRestart` and
--     `benchSQLitePostRestart`; Restart.Held, Loading, Counting, Kept, Integrity and DbIntegrity are
--     theorems on what is on disk between the load and the count.
--   Bench.Phase, Report, Compare: measured rows, result lines, the integrity gate, and the
--     comparisons of two profiles. Bench.Manifest: what is written of a run. Bench.Writer:
--     `RunWriter` from `NewRunWriter` to `Finalize`; Writer.Laws, Staged and Published are theorems.
--   Bench.Texts, Repo: `FindRepoRoot`, `CollectGitInfo`, `CollectHostInfo`, `FormatHarnessCommand`.
--   Bench.Plan, Runs, Main: the flags, the runs they choose, and `main` up to the exit status;
--     Runs.Selected and Main.Passed are theorems. Bench.Rows are theorems on which rows each phase
--     gives. Bench.Machine: a disk, a database and files in memory, for runs.
--   Bench.ReadTax: bench/ffi_read_tax/main.go; ReadTax.Found, Calls and Ends are theorems.
--   Files whose name ends in Tests run the definitions and apply the theorems to concrete inputs.
--
-- Conventions. A Go string or slice of bytes is the list of its bytes; a nil slice is the empty
-- one. A map is a list of entries whose order is the order of a `range` loop, and the theorems
-- hold for every order. Engine and Transaction are the
-- calls of one goroutine that stays on its thread (the message slot belongs to the thread); Lock
-- has the interleavings. A panic is an outcome. Sizes of C memory are not bounded, but `GoBytes`
-- casts a length to 32 bits, which is written out. Messages are data with the arguments of their
-- formats. The pointers to non-empty Go slices are not null, so that the tests for null arrays
-- are left out, as is the test of the result of `C.malloc`, which cgo never lets be nil. The
-- names of profiles, phases and metrics are texts, and `float64` is a parameter with the
-- operations that the program uses.
--
-- Parameters. `Disk` are the directories with how an engine opens on one and what a closed engine
-- leaves there; `Sql` is database/sql with its SQLite driver; `Files` the calls of package os on
-- the files of a run; `Host` git, sysctl, the environment and the files of the repository. The
-- clock is the sequence of the microseconds that the measurements give, the entropy source a
-- sequence of bytes. `fatal` and `os.Exit` are an error that ends the program, without its deferred
-- calls.
--
-- Bounds and fuel. The loop over slices has as much fuel as there are keys; each pass takes at
-- least one. The loop of `FindRepoRoot` has as much fuel as the path has components, and one more:
-- each pass drops one component. Every other loop is structural recursion.
--
-- Not modelled: f4kvs-lsm itself (its configuration has the fields that the options change); C
-- functions that Go does not call, and the registry of allocations; printing (`printTable` and the
-- progress on the standard error), the parsing of flags, `filepath.Clean` (paths are taken as they
-- are put together); the text of a time and of JSON; the two probes of
-- bench/embed_vs_sqlite, which its build leaves out; the build without cgo.
pub mod Prelude
pub mod Ffi
pub mod Engine
pub mod Transaction
pub mod Lock
pub mod Bench
