-- ===== src/Bench/OpenTests.antt =====
-- Opening an engine in memory, at concrete options.
use f4kvs_ffi.Prelude.{
  ◌≤◌, Bytes, false, true, none, some, [], ◌∷◌, ◌≡◌, ◌⊎◌, ◌≢◌, refl, arith, negsuc,
}
use f4kvs_ffi.Prelude.Exec.{ok}
use f4kvs_ffi.Ffi.Text.{c_string, from_ptr, is_utf8}
use f4kvs_ffi.Ffi.Memory.{Memory}
use f4kvs_ffi.Ffi.Options.{
  F4KvsOpenOptions, LsmConfig, WalConfig, segment, to_memory, read_open_options, apply_open_options,
  WalDurability,
}
use f4kvs_ffi.Ffi.Options.Layout.{IsSized, read_open_options-to_memory}
use f4kvs_ffi.Ffi.Options.Applied.{
  IsDefault, IsFlushed, zero_options, apply_open_options-zero, apply_open_options_sound,
}
use f4kvs_ffi.Ffi.Open.{Opening}
use f4kvs_ffi.Engine.Stored.{engine}
use f4kvs_ffi.Engine.Options.{OpenOptions, no_options}
use f4kvs_ffi.Engine.Open.{new_persistent_engine_with_options, to_c_options}
use f4kvs_ffi.Engine.Opened.{
  MadeWith, Asked, configured, new_persistent_engine_with_options-MadeWith,
}
use f4kvs_ffi.Bench.Batching.{resolve_batch_put_size, open_opts_for_profile}
use f4kvs_ffi.Bench.Limit.{resolve_batch_put_size-configured}

abbrev default_wal : WalConfig
default_wal = record {
  group_commit_enabled = false;
  group_commit_max_wait = 10;
  group_commit_max_batch_size = 100;
  group_commit_wait_durable = true;
  group_commit_idle_flush = none;
  engine = segment;
}

abbrev default_lsm : LsmConfig
default_lsm = record {
  wal = default_wal;
  max_batch_size = 10000;
  background_enabled = true;
  max_sstables_per_level = 10;
  memtable_max_size = 67108864;
  sstable_target_size = 67108864;
  sstable_max_size = 134217728;
}

abbrev keep_wal : WalDurability → WalConfig → WalConfig
keep_wal durability wal = wal

instance abbrev memory_opening : Opening Memory
memory_opening = record {
  default_config = default_lsm;
  apply_to = keep_wal;
  new_engine =
      λ path config. ok (record { table = []; faults = []; limit = config.max_batch_size });
}

default_lsm-IsDefault : IsDefault keep_wal default_lsm
default_lsm-IsDefault = record { strict_wal = refl; engine_segment = refl; sizes = omega arith }

abbrev large_batches : OpenOptions
large_batches = record no_options { max_batch_size = 50000; wal_durability = 1 }

large_batches-IsSized : IsSized (to_c_options large_batches)
unfolding to_c_options
large_batches-IsSized = record {
  struct_size = omega arith;
  max_wait = omega arith;
  max_batch = omega arith;
  idle = omega arith;
  batch = omega arith;
  levels = omega arith;
  memtable = omega arith;
  target = omega arith;
  max = omega arith;
}

abbrev data_dir : Bytes
data_dir = b'd' ∷ []

open_run :
    (new_persistent_engine_with_options {S = Memory} data_dir (some large_batches) none).0
    ≡ ok (engine false (some (record { table = []; faults = []; limit = 50000 })) none)
unfolding new_persistent_engine_with_options c_string from_ptr is_utf8
open_run = refl

new_persistent_engine_with_options-MadeWith_example :
    (config : LsmConfig) × Asked memory_opening (some large_batches) config
    × MadeWith {S = Memory} data_dir config none
        (engine false (some (record { table = []; faults = []; limit = 50000 })) none)
new_persistent_engine_with_options-MadeWith_example =
    new_persistent_engine_with_options-MadeWith data_dir (some large_batches) none _
      large_batches-IsSized open_run

read_open_options-to_memory_example :
    read_open_options (some (to_memory (to_c_options large_batches)))
    ≡ some (to_c_options large_batches)
unfolding to_c_options
read_open_options-to_memory_example =
    read_open_options-to_memory (to_c_options large_batches) large_batches-IsSized refl

-- A caller's struct of eight bytes: what stands after it does not matter.
abbrev short : Bytes
short = 8 ∷ 0 ∷ 0 ∷ 0 ∷ 1 ∷ 0 ∷ 0 ∷ 0 ∷ 9 ∷ 9 ∷ []

apply_open_options-zero_example :
    apply_open_options keep_wal default_lsm (some (zero_options 48)) ≡ default_lsm
apply_open_options-zero_example =
    apply_open_options-zero keep_wal default_lsm 48 default_lsm-IsDefault

abbrev amortized_options : F4KvsOpenOptions
amortized_options = record (zero_options 48) { wal_durability = 1; sstable_target_size = 200000000 }

abbrev amortized_lsm : LsmConfig
amortized_lsm = apply_open_options keep_wal default_lsm (some amortized_options)

apply_open_options_sound_example :
    (amortized_lsm.sstable_target_size ≤ amortized_lsm.sstable_max_size)
    × ((amortized_options.wal_durability ≢ 1) ⊎ IsFlushed keep_wal amortized_lsm)
apply_open_options_sound_example = apply_open_options_sound keep_wal default_lsm amortized_options

resolve_batch_put_size-configured_example :
    resolve_batch_put_size 60000 (negsuc 0)
    ≤ (configured memory_opening (open_opts_for_profile none 60000 (negsuc 0))).max_batch_size
resolve_batch_put_size-configured_example =
    resolve_batch_put_size-configured memory_opening none 60000 (negsuc 0) refl (omega arith)
