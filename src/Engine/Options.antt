-- ===== src/Engine/Options.antt =====
-- `OpenOptions` of go/f4kvs.go. A `uint8` or `uint32` field is a number below 2 ^ 8 or 2 ^ 32.
use f4kvs_ffi.Prelude.{ℕ, Bool, false}

pub record OpenOptions : Type 0 where
  pub group_commit_enabled : Bool
  pub group_commit_max_wait_ms : ℕ
  pub group_commit_max_batch_sz : ℕ
  pub group_commit_wait_durable : Bool
  pub wal_engine : ℕ
  pub wal_durability : ℕ
  pub group_commit_idle_flush_ms : ℕ
  pub max_batch_size : ℕ
  pub compaction_background : ℕ
  pub max_sstables_per_level : ℕ
  pub memtable_max_size : ℕ
  pub sstable_target_size : ℕ
  pub sstable_max_size : ℕ

-- `OpenOptions{}`
abbrev pub no_options : OpenOptions
no_options = record {
  group_commit_enabled = false;
  group_commit_max_wait_ms = 0;
  group_commit_max_batch_sz = 0;
  group_commit_wait_durable = false;
  wal_engine = 0;
  wal_durability = 0;
  group_commit_idle_flush_ms = 0;
  max_batch_size = 0;
  compaction_background = 0;
  max_sstables_per_level = 0;
  memtable_max_size = 0;
  sstable_target_size = 0;
  sstable_max_size = 0;
}

abbrev pub wal_durability_amortized : ℕ
wal_durability_amortized = 1
