-- ===== src/Bench/EnginePhases.antt =====
-- bench/embed_vs_sqlite/main.go: `benchF4KVS`, part by part.
use Prim.Native.String.{◌++◌ as ◌++ₛ◌}
use f4kvs_ffi.Prelude.{
  ℕ, Bytes, String, Bool, true, false, Option, List, not, if◌then◌else◌, length, ℤ,
}
use f4kvs_ffi.Prelude.Decimal.{decimal_text}
use f4kvs_ffi.Prelude.Exec.{◌>>=◌, ◌>>◌}
use f4kvs_ffi.Ffi.Lsm.{Lsm}
use f4kvs_ffi.Engine.{set_bulk_import, flush_wal, scan_prefix_keys}
use f4kvs_ffi.Engine.Options.{OpenOptions}
use f4kvs_ffi.Bench.Phase.{Float, PhaseResult, result}
use f4kvs_ffi.Bench.Batching.{open_opts_for_profile, uses_group_commit, batch_put_bytes_chunked}
use f4kvs_ffi.Bench.Keys.{legal_prefix}
use f4kvs_ffi.Bench.Run.{
  Disk, Program, WithEngine, engine_call, scan_call, beside, put_keys, random_gets, with_engine,
}
use f4kvs_ffi.Bench.Phases.{
  Load, join, batched_name, bulk_name, is_one_shot, int_text, keys_found, timed_row, and_rows,
  no_rows, if_so, bench_f4kvs_chunk_durable, bench_f4kvs_chunk_batched,
  bench_f4kvs_chunk_bulk_import,
}

module _ {D S F : Type 0} ⦃lsm : Lsm S⦄ ⦃float : Float F⦄ (profile durability : String) where
  -- A loop of single puts and its row.
  abbrev pub put_phase :
      String → String → Bytes → List Bytes → WithEngine D S (List (PhaseResult F))
  put_phase phase note payload keys =
      engine_call (put_keys payload keys)
      >> beside (timed_row phase profile (length keys) durability note)

  -- A loop of reads and its row.
  abbrev pub get_phase : String → ℕ → List Bytes → WithEngine D S (List (PhaseResult F))
  get_phase phase n keys =
      engine_call (random_gets n 0 keys) >> beside (timed_row phase profile n durability "")

  abbrev pub scan_phase : WithEngine D S (List (PhaseResult F))
  scan_phase = scan_call (scan_prefix_keys legal_prefix) >>= λ keys. beside (
      timed_row "chunk_prefix_scan" profile (keys_found keys) durability
        ("keys=" ++ₛ decimal_text (keys_found keys)))

module _ {D S : Type 0} ⦃lsm : Lsm S⦄ (load : Load) where
  -- The timed parts of the two branches for large loads.
  abbrev pub stream_work : WithEngine D S (Unit {0})
  stream_work =
      engine_call (set_bulk_import true)
      >> engine_call (put_keys load.chunk_payload load.chunk_keys)
      >> engine_call flush_wal
      >> engine_call (set_bulk_import false)

  abbrev pub batched_work : ℤ → WithEngine D S (Unit {0})
  batched_work size =
      engine_call (set_bulk_import true)
      >> engine_call (batch_put_bytes_chunked size load.chunk_keys load.chunk_payload)
      >> engine_call (set_bulk_import false)
      >> if_so (is_one_shot size) (engine_call flush_wal)

module _ {D S F : Type 0} (on : Disk D S) ⦃lsm : Lsm S⦄ ⦃float : Float F⦄ (size : ℤ) (dir : Bytes)
    (profile durability : String) (opts : Option OpenOptions) (load : Load) where
  -- `if usesGroupCommit(opts)` in the branch of single puts
  unfoldable pub flush_phases : WithEngine D S (List (PhaseResult F))
  unfolding flush_wal result bench_f4kvs_chunk_durable
  flush_phases =
      and_rows
        (engine_call flush_wal
          >> beside (
              timed_row "chunk_batch_put_flush" profile (length load.chunk_keys) durability
                "FlushWAL; durable within window, memtable not flushed"))
        (beside (bench_f4kvs_chunk_durable on dir profile durability opts load))

  -- `if !skipPerCommitChunks`
  unfoldable pub per_commit_chunks : WithEngine D S (List (PhaseResult F))
  unfolding put_keys result uses_group_commit flush_phases
  per_commit_chunks =
      and_rows
        (put_phase profile durability "chunk_batch_put" "per-commit" load.chunk_payload
          load.chunk_keys)
        (if uses_group_commit opts then flush_phases else no_rows)

  -- `else if usesGroupCommit(opts)`
  unfoldable pub group_commit_stream : WithEngine D S (List (PhaseResult F))
  unfolding put_keys set_bulk_import flush_wal result bench_f4kvs_chunk_batched
  group_commit_stream =
      and_rows
        (stream_work load
          >> beside (
              timed_row "chunk_put_group_commit" profile (length load.chunk_keys) durability
                "PutBytes stream + FlushWAL (group-commit window; scale path)"))
        (beside (bench_f4kvs_chunk_batched on size (join dir batched_name) profile load))

  -- the last branch
  unfoldable pub batched_chunks : WithEngine D S (List (PhaseResult F))
  unfolding batch_put_bytes_chunked set_bulk_import flush_wal result bench_f4kvs_chunk_bulk_import
  batched_chunks =
      let n = length load.chunk_keys in
      let note =
        (if is_one_shot size
          then "BatchPutBytes one-shot n="
            ++ₛ decimal_text n
            ++ₛ " + FlushWAL (fair vs SQLite COMMIT)"
          else "BatchPutBytes slice="
            ++ₛ int_text size
            ++ₛ " SetBulkImport (scale; 0=one-shot fair)") in
      and_rows
        (batched_work load size
          >> beside (timed_row "chunk_batch_put_batched" profile n durability note))
        (if is_one_shot size
          then no_rows
          else beside (bench_f4kvs_chunk_bulk_import on size (join dir bulk_name) profile load))

  -- `if !skipPerCommitChunks`, the loads in directories of their own
  unfoldable pub side_loads : WithEngine D S (List (PhaseResult F))
  unfolding bench_f4kvs_chunk_batched bench_f4kvs_chunk_bulk_import
  side_loads =
      and_rows (beside (bench_f4kvs_chunk_batched on size (join dir batched_name) profile load))
        (beside (bench_f4kvs_chunk_bulk_import on size (join dir bulk_name) profile load))

  unfoldable pub chunk_phases : Bool → WithEngine D S (List (PhaseResult F))
  unfolding uses_group_commit per_commit_chunks group_commit_stream batched_chunks side_loads
  chunk_phases skip_per_commit_chunks =
      and_rows
        (if not skip_per_commit_chunks
          then per_commit_chunks
          else if uses_group_commit opts
          then group_commit_stream
          else batched_chunks)
        (if not skip_per_commit_chunks then side_loads else no_rows)

  -- What is done with the open engine.
  unfoldable pub engine_phases : Bool → WithEngine D S (List (PhaseResult F))
  unfolding put_keys random_gets scan_prefix_keys result chunk_phases
  engine_phases skip_per_commit_chunks =
      and_rows
        (put_phase profile durability "memoir_batch_put" "per-commit" load.memoir_payload
          load.memoir_keys)
        (and_rows
          (get_phase profile durability "memoir_random_get" load.random_gets load.memoir_keys)
          (and_rows (chunk_phases skip_per_commit_chunks) (
            and_rows (scan_phase profile durability)
              (get_phase profile durability "chunk_random_get" load.random_gets load.chunk_keys))))

module _ {D S F : Type 0} (on : Disk D S) ⦃lsm : Lsm S⦄ ⦃float : Float F⦄ (size : ℤ) where
  unfoldable pub bench_f4kvs :
      Bytes → String → String → Option OpenOptions → Load → Bool → Program D (List (PhaseResult F))
  unfolding open_opts_for_profile engine_phases
  bench_f4kvs dir profile durability opts load skip_per_commit_chunks =
      let opts = open_opts_for_profile opts (length load.chunk_keys) size in
      with_engine on dir opts
        (engine_phases on size dir profile durability opts load skip_per_commit_chunks)
