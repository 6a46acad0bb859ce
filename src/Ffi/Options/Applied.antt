-- ===== src/Ffi/Options/Applied.antt =====
-- `apply_open_options` of crates/f4kvs-ffi/src/lib.rs: what the options make of a configuration.
use f4kvs_ffi.Prelude.{
  ℕ, zero, suc, if◌then◌else◌, ◌≤◌, ◌<◌, Option, some, none, true, false, ◌≡◌, ◌≢◌, ◌⊎◌, inl, inr,
  refl, ltb, ◌==◌, nat_eq, Bool-cases, arith,
}
use f4kvs_ffi.Ffi.Options.{
  F4KvsOpenOptions, WalDurability, strict, amortized, WalConfig, segment, LsmConfig, or_idle,
  apply_wal, apply_open_options,
}

-- What f4kvs-lsm documents of its default configuration: its durability is strict, its log is of
-- segments, and compaction's target size is at most the maximum.
pub record IsDefault (apply_to : WalDurability → WalConfig → WalConfig) (config : LsmConfig)
    : Type 0 where
  pub strict_wal : apply_to strict config.wal ≡ config.wal
  pub engine_segment : config.wal.engine ≡ segment
  pub sizes : config.sstable_target_size ≤ config.sstable_max_size

abbrev pub zero_options : ℕ → F4KvsOpenOptions
zero_options size = record {
  struct_size = size;
  group_commit_enabled = 0;
  group_commit_max_wait_ms = 0;
  group_commit_max_batch_size = 0;
  group_commit_wait_durable = 0;
  wal_engine = 0;
  wal_durability = 0;
  group_commit_idle_flush_ms = 0;
  max_batch_size = 0;
  compaction_background = 0;
  max_sstables_per_level = 0;
  memtable_max_size = 0;
  sstable_target_size = 0;
  sstable_max_size = 0;
}

or_idle-false : (o : Option ℕ) → or_idle o false ≡ o
or_idle-false none = refl
or_idle-false (some ms) = refl

idle-some :
    (o : Option ℕ) (n : ℕ) → (ms : ℕ) × ((if ltb 0 n then some n else or_idle o true) ≡ some ms)
idle-some none zero = (100, refl)
idle-some (some ms) zero = (ms, refl)
idle-some o (suc n) = (suc n, ground arith)

module _ (apply_to : WalDurability → WalConfig → WalConfig) where
  apply_wal-zero :
      (wal : WalConfig) (size : ℕ)
      → apply_to strict wal ≡ wal
      → wal.engine ≡ segment
      → apply_wal apply_to (zero_options size) wal ≡ wal
  unfolding apply_wal
  apply_wal-zero wal size e s = cc (or_idle-false (apply_to strict wal).group_commit_idle_flush)

  -- Options that are all zero keep the default configuration.
  pub apply_open_options-zero :
      (config : LsmConfig) (size : ℕ)
      → IsDefault apply_to config
      → apply_open_options apply_to config (some (zero_options size)) ≡ config
  unfolding apply_open_options
  apply_open_options-zero config size d =
      ground (arith, apply_wal-zero config.wal size d.strict_wal d.engine_segment, d.sizes)

  -- An amortized log has a flush after a quiet period, and a wait that is not zero.
  abbrev pub IsFlushed : LsmConfig → Type 0
  IsFlushed c =
      ((ms : ℕ) × (c.wal.group_commit_idle_flush ≡ some ms)) × (0 < c.wal.group_commit_max_wait)

  -- Whatever the options, the target size of compaction is at most its maximum; with an amortized
  -- log there is a flush after a quiet period, and the wait of a group is not zero.
  pub apply_open_options_sound :
      (config : LsmConfig) (options : F4KvsOpenOptions)
      → ((apply_open_options apply_to config (some options)).sstable_target_size
          ≤ (apply_open_options apply_to config (some options)).sstable_max_size)
        × ((options.wal_durability ≢ 1)
            ⊎ IsFlushed (apply_open_options apply_to config (some options)))
  unfolding apply_open_options
  apply_open_options_sound config options = (
    ground arith,
    elim (Bool-cases (options.wal_durability == 1)) [
      | inl one ↦
          let wal = apply_to amortized config.wal in
          let (ms, p) = idle-some wal.group_commit_idle_flush options.group_commit_idle_flush_ms in
          inr ((ms, ground (arith, p)), ground arith)
      | inr other ↦ inl (λ e. ground arith)
    ],
  )
