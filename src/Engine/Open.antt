-- ===== src/Engine/Open.antt =====
-- go/f4kvs.go: `NewMemoryEngine`, `NewPersistentEngine` and `NewPersistentEngineWithOptions`. The
-- state is the message slot of the thread.
use f4kvs_ffi.Prelude.{Bytes, false, Option, none, some, if◌then◌else◌}
use f4kvs_ffi.Prelude.Exec.{Exec, ok, err, ◌>>=◌}
use f4kvs_ffi.Ffi.Text.{c_string}
use f4kvs_ffi.Ffi.Options.{F4KvsOpenOptions, size_of_options, to_memory}
use f4kvs_ffi.Ffi.Open.{Opening, Slot, engine_new, engine_open, engine_open_ex}
use f4kvs_ffi.Engine.{
  F4kvs, GoError, ErrorText, unknown_error, message, memory_engine_failed, open_engine_failed,
}
use f4kvs_ffi.Engine.Options.{OpenOptions}

unfoldable pub to_c_options : OpenOptions → F4KvsOpenOptions
to_c_options opts = record {
  struct_size = size_of_options;
  group_commit_enabled = (if opts.group_commit_enabled then 1 else 0);
  group_commit_max_wait_ms = opts.group_commit_max_wait_ms;
  group_commit_max_batch_size = opts.group_commit_max_batch_sz;
  group_commit_wait_durable = (if opts.group_commit_wait_durable then 1 else 0);
  wal_engine = opts.wal_engine;
  wal_durability = opts.wal_durability;
  group_commit_idle_flush_ms = opts.group_commit_idle_flush_ms;
  max_batch_size = opts.max_batch_size;
  compaction_background = opts.compaction_background;
  max_sstables_per_level = opts.max_sstables_per_level;
  memtable_max_size = opts.memtable_max_size;
  sstable_target_size = opts.sstable_target_size;
  sstable_max_size = opts.sstable_max_size;
}

abbrev slot_text : Slot → ErrorText
slot_text none = unknown_error
slot_text (some msg) = message msg

-- `if handle == nil { return nil, fmt.Errorf(…, lastError()) }; return &F4KVS{handle: handle}, nil`
abbrev pub wrap : {S : Type 0} → (ErrorText → GoError) → Option S → Exec Slot GoError (F4kvs S)
wrap describe none slot = (err (describe (slot_text slot)), slot)
wrap describe (some s) slot =
    (ok (record { c_side = record { handle = some s; last_error = slot }; closed = false }), slot)

module _ {S : Type 0} ⦃opening : Opening S⦄ where
  unfoldable pub new_memory_engine : Bytes → Exec Slot GoError (F4kvs S)
  unfolding engine_new
  new_memory_engine unique_data_dir = do
    handle ← engine_new unique_data_dir
    wrap memory_engine_failed handle

  -- The call that opens the handle.
  unfoldable pub open_handle : Bytes → Option OpenOptions → Exec Slot GoError (Option S)
  unfolding engine_open engine_open_ex to_c_options
  open_handle cpath none = engine_open cpath
  open_handle cpath (some opts) = engine_open_ex cpath (some (to_memory (to_c_options opts)))

  unfoldable pub new_persistent_engine_with_options :
      Bytes → Option OpenOptions → Exec Slot GoError (F4kvs S)
  unfolding open_handle
  new_persistent_engine_with_options path opts = do
    handle ← open_handle (c_string path) opts
    wrap (open_engine_failed path) handle

  unfoldable pub new_persistent_engine : Bytes → Exec Slot GoError (F4kvs S)
  unfolding new_persistent_engine_with_options
  new_persistent_engine path = new_persistent_engine_with_options path none
