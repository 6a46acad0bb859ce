-- ===== src/Bench/Phases.antt =====
-- bench/embed_vs_sqlite/main.go: the timed phases of an engine, `benchF4KVS` and the functions that
-- it calls. What a phase prints is left out. `globalBatchPutSize` is the argument `size`.
use Prim.Native.String.{◌++◌ as ◌++ₛ◌}
use f4kvs_ffi.Prelude.{
  ℕ, suc, Bytes, String, Bool, true, false, Option, none, some, List, [], ◌∷◌, ◌++◌, if◌then◌else◌,
  leb, length, ℤ, pos, negsuc,
}
use f4kvs_ffi.Prelude.Decimal.{decimal_text}
use f4kvs_ffi.Prelude.Exec.{Exec, pure, ◌>>=◌, ◌>>◌}
use f4kvs_ffi.Ffi.Lsm.{Lsm}
use f4kvs_ffi.Engine.{set_bulk_import, flush_wal}
use f4kvs_ffi.Engine.Options.{OpenOptions}
use f4kvs_ffi.Bench.Phase.{Float, PhaseResult, result}
use f4kvs_ffi.Bench.Batching.{open_opts_for_profile, batch_put_bytes_chunked}
use f4kvs_ffi.Bench.Run.{
  Disk, Program, WithEngine, measure, engine_call, beside, put_keys, with_engine,
}

-- What a run loads and reads; the counts of the flags are not negative.
pub record Load : Type 0 where
  pub memoir_keys : List Bytes
  pub chunk_keys : List Bytes
  pub memoir_payload : Bytes
  pub chunk_payload : Bytes
  pub random_gets : ℕ

-- `filepath.Join(dir, name)`
abbrev pub join : Bytes → Bytes → Bytes
join dir name = dir ++ (b'/' ∷ name)

-- "chunk_durable"
abbrev pub durable_name : Bytes
durable_name =
    b'c' ∷ b'h' ∷ b'u' ∷ b'n' ∷ b'k' ∷ b'_' ∷ b'd' ∷ b'u' ∷ b'r' ∷ b'a' ∷ b'b' ∷ b'l' ∷ b'e' ∷ []

-- "chunk_batched"
abbrev pub batched_name : Bytes
batched_name =
    b'c' ∷ b'h' ∷ b'u' ∷ b'n' ∷ b'k' ∷ b'_' ∷ b'b' ∷ b'a' ∷ b't' ∷ b'c' ∷ b'h' ∷ b'e' ∷ b'd' ∷ []

-- "chunk_bulk_import"
abbrev pub bulk_name : Bytes
bulk_name =
    b'c' ∷ b'h' ∷ b'u' ∷ b'n' ∷ b'k' ∷ b'_' ∷ b'b' ∷ b'u' ∷ b'l' ∷ b'k' ∷ b'_' ∷ b'i' ∷ b'm' ∷ b'p'
    ∷ b'o' ∷ b'r' ∷ b't' ∷ []

-- `size <= 0`
abbrev pub is_one_shot : ℤ → Bool
is_one_shot (negsuc n) = true
is_one_shot (pos n) = leb n 0

-- "%d"
abbrev pub int_text : ℤ → String
int_text (pos n) = decimal_text n
int_text (negsuc n) = "-" ++ₛ decimal_text (suc n)

abbrev pub keys_found : Option (List Bytes) → ℕ
keys_found none = 0
keys_found (some keys) = length keys

module _ {D F : Type 0} ⦃float : Float F⦄ where
  -- `out = append(out, result(…, time.Since(t0), …))`
  abbrev pub timed_row : String → String → ℕ → String → String → Program D (List (PhaseResult F))
  timed_row phase profile ops durability extra =
      measure >>= λ us. pure (result phase profile ops us durability extra ∷ [])

module _ {F : Type 0} where
  -- The rows of one part before those of the next.
  abbrev pub and_rows :
      {W E : Type 0}
      → Exec W E (List (PhaseResult F))
      → Exec W E (List (PhaseResult F))
      → Exec W E (List (PhaseResult F))
  and_rows first next = first >>= λ rows. next >>= λ others. pure (rows ++ others)

abbrev pub no_rows : {W E F : Type 0} → Exec W E (List (PhaseResult F))
no_rows = pure []

abbrev pub if_so : {W E : Type 0} → Bool → Exec W E (Unit {0}) → Exec W E (Unit {0})
if_so test m = if test then m else pure tt

module _ {D S : Type 0} ⦃lsm : Lsm S⦄ where
  -- The timed parts of the next two functions.
  abbrev pub durable_work : Load → WithEngine D S (Unit {0})
  durable_work load =
      engine_call (put_keys load.chunk_payload load.chunk_keys) >> engine_call flush_wal

  abbrev pub batch_put_work : ℤ → Load → Bool → WithEngine D S (Unit {0})
  batch_put_work size load bulk_import =
      if_so bulk_import (engine_call (set_bulk_import true))
      >> engine_call (batch_put_bytes_chunked size load.chunk_keys load.chunk_payload)
      >> if_so (is_one_shot size) (engine_call flush_wal)

module _ {D S F : Type 0} (on : Disk D S) ⦃lsm : Lsm S⦄ ⦃float : Float F⦄ where
  unfoldable pub bench_f4kvs_chunk_durable :
      Bytes → String → String → Option OpenOptions → Load → Program D (List (PhaseResult F))
  unfolding put_keys flush_wal result
  bench_f4kvs_chunk_durable dir profile durability opts load w =
      let durable_dir = join dir durable_name in
      with_engine on durable_dir opts
        (durable_work load
          >> beside (
              timed_row "chunk_batch_put_durable" profile (length load.chunk_keys) durability
                "puts + FlushWAL end-to-end"))
        (record w { disk = (on.remove_all durable_dir w.disk).1 })

module _ {D S F : Type 0} (on : Disk D S) ⦃lsm : Lsm S⦄ ⦃float : Float F⦄ (size : ℤ) where
  unfoldable pub bench_f4kvs_chunk_batch_put :
      Bytes → String → Load → Bool → String → String → Program D (List (PhaseResult F))
  unfolding batch_put_bytes_chunked open_opts_for_profile set_bulk_import flush_wal result
  bench_f4kvs_chunk_batch_put dir profile load bulk_import phase note =
      let n = length load.chunk_keys in
      with_engine on dir (open_opts_for_profile none n size) (
        batch_put_work size load bulk_import
        >> beside (
            timed_row phase profile n "WAL (one durable unit per BatchPut slice; fair=one slice)"
              (note ++ₛ " batch-put-size=" ++ₛ int_text size)))

  unfoldable pub bench_f4kvs_chunk_batched :
      Bytes → String → Load → Program D (List (PhaseResult F))
  unfolding bench_f4kvs_chunk_batch_put
  bench_f4kvs_chunk_batched dir profile load =
      bench_f4kvs_chunk_batch_put dir profile load false "chunk_batch_put_batched" "BatchPutBytes"

  unfoldable pub bench_f4kvs_chunk_bulk_import :
      Bytes → String → Load → Program D (List (PhaseResult F))
  unfolding bench_f4kvs_chunk_batch_put
  bench_f4kvs_chunk_bulk_import dir profile load =
      bench_f4kvs_chunk_batch_put dir profile load true "chunk_batch_put_bulk_import"
        "BatchPutBytes + SetBulkImport(true)"
