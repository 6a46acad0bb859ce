-- ===== src/Engine/Tests.antt =====
-- The engine's theorems at a concrete engine in memory, and runs.
use mathlib.Core.Path.{subst}
use f4kvs_ffi.Prelude.{
  map, ◌⊎◌, ◌≤◌, Bytes, false, none, some, List, [], ◌∷◌, ◌≡◌, refl, sym, ◌↔◌, ◌≢◌, ◌≤◌, All,
  bytes_beq, arith,
}
use f4kvs_ffi.Prelude.Exec.{ok, err}
use f4kvs_ffi.Ffi.Text.{c_string, from_ptr, is_utf8, has_nul}
use f4kvs_ffi.Ffi.Lsm.{bytes, string}
use f4kvs_ffi.Ffi.Calls.{
  engine_batch_put_bytes, error_invalid_argument, max_value_length, batch_too_large, batch_items,
  batch_keys, value_to_bytes, validate_c_string, value_from_raw,
}
use f4kvs_ffi.Ffi.Memory.{Memory, memory, memory_laws}
use f4kvs_ffi.Engine.{
  F4kvs, get_bytes, put_bytes, delete, batch_put_bytes, batch_delete, close, batch_put_failed,
  message, to_item, go_bytes, sync,
}
use f4kvs_ffi.Engine.Stored.{
  c_key, stored, engine, Fits, Reads, get_bytes-Reads, put_bytes-stored, delete-stored,
}
use f4kvs_ffi.Engine.Batch.{
  to_pair, c_state, AllOrNothing, batch_put_bytes-AllOrNothing, batch_put_bytes-stored,
  batch_delete-stored,
}
use f4kvs_ffi.Engine.Closed.{RefusesAll, close-RefusesAll}
use f4kvs_ffi.Engine.BatchLimits.{AreEntries, batch_put_bytes-accepts}
use f4kvs_ffi.Engine.Limits.{IsKey, put_bytes-accepts, batch_put_bytes-too_large, put_bytes-nul}
use f4kvs_ffi.Engine.Refinement.{
  Request, get_request, put_request, delete_request, batch_put_request, sync_request, Reply, value,
  missing, done, failed, replies, final, spec_replies, spec_final, replies-refine,
}

abbrev key_a : Bytes
key_a = b'a' ∷ []

abbrev key_b : Bytes
key_b = b'b' ∷ []

-- "a\x00b"
abbrev key_nul : Bytes
key_nul = b'a' ∷ 0 ∷ b'b' ∷ []

abbrev store : Memory
store = record { table = (key_a, string (b'1' ∷ [])) ∷ []; faults = []; limit = 2 }

abbrev open_engine : F4kvs Memory
open_engine = engine false (some store) none

get_bytes-Reads_example :
    Reads (stored memory_laws open_engine key_a) (get_bytes key_a open_engine).0
unfolding value_to_bytes from_ptr c_string bytes_beq
get_bytes-Reads_example = get_bytes-Reads memory_laws key_a open_engine (omega arith)

-- The value was stored as a string by another writer.
get_bytes_run : (get_bytes key_a open_engine).0 ≡ ok (b'1' ∷ [])
unfolding get_bytes from_ptr c_string go_bytes is_utf8 bytes_beq
get_bytes_run = refl

put_ok : (put_bytes key_b (7 ∷ []) open_engine).0 ≡ ok tt
unfolding put_bytes from_ptr c_string is_utf8
put_ok = refl

put_bytes-stored_example :
    stored memory_laws (put_bytes key_b (7 ∷ []) open_engine).1 key_b ≡ some (7 ∷ [])
unfolding from_ptr c_string bytes_beq
put_bytes-stored_example = put_bytes-stored memory_laws key_b (7 ∷ []) key_b open_engine put_ok

delete_ok : (delete key_a open_engine).0 ≡ ok tt
unfolding delete from_ptr c_string is_utf8
delete_ok = refl

delete-stored_example : stored memory_laws (delete key_a open_engine).1 key_a ≡ none
unfolding from_ptr c_string bytes_beq
delete-stored_example = delete-stored memory_laws key_a key_a open_engine delete_ok

abbrev entries : List (Bytes × Bytes)
entries = (key_b, 1 ∷ 2 ∷ []) ∷ (key_a, []) ∷ []

batch_put_bytes-AllOrNothing_example :
    AllOrNothing
      (λ s. (memory.batch_put ((key_b, bytes (1 ∷ 2 ∷ [])) ∷ (key_a, bytes []) ∷ []) s).1)
      (some store)
      (batch_put_bytes entries open_engine).1.handle
unfolding from_ptr c_string
batch_put_bytes-AllOrNothing_example = batch_put_bytes-AllOrNothing entries open_engine

batch_put_ok : (batch_put_bytes entries open_engine).0 ≡ ok tt
unfolding batch_put_bytes batch_items to_item from_ptr c_string is_utf8 validate_c_string
    value_from_raw
batch_put_ok = refl

batch_put_bytes-stored_example :
    stored memory_laws (batch_put_bytes entries open_engine).1 key_b ≡ some (1 ∷ 2 ∷ [])
unfolding bytes_beq has_nul
batch_put_bytes-stored_example =
    batch_put_bytes-stored memory_laws entries key_b open_engine (refl, (refl, tt))
      (refl, (refl, tt)) refl batch_put_ok

batch_delete_ok : (batch_delete (key_a ∷ []) open_engine).0 ≡ ok tt
unfolding batch_delete batch_keys from_ptr c_string is_utf8 validate_c_string
batch_delete_ok = refl

batch_delete-stored_example :
    stored memory_laws (batch_delete (key_a ∷ []) open_engine).1 key_a ≡ none
unfolding bytes_beq has_nul
batch_delete-stored_example =
    batch_delete-stored memory_laws (key_a ∷ []) key_a open_engine (refl, tt) refl batch_delete_ok

close-RefusesAll_example :
    RefusesAll (close open_engine) × (close (close open_engine) ≡ close open_engine)
close-RefusesAll_example = close-RefusesAll open_engine

put_bytes-accepts_example : ((put_bytes key_b (7 ∷ []) open_engine).0 ≡ ok tt) ↔ (
    IsKey key_b
    × (1 ≤ max_value_length)
    × ((memory.put (c_key key_b) (bytes (7 ∷ [])) store).0 ≡ ok tt))
put_bytes-accepts_example = put_bytes-accepts key_b (7 ∷ []) store none

three_refused : batch_put_bytes ((key_nul, []) ∷ entries) open_engine ≡ (
  err (batch_put_failed (message (batch_too_large 3 2))),
  engine false (some store) (some (batch_too_large 3 2)),
)
three_refused = batch_put_bytes-too_large (key_nul, []) entries store none (omega arith)

batch_put_bytes-accepts_example :
    (((batch_put_bytes ((key_nul, []) ∷ entries) open_engine).0 ≡ ok tt) ↔ (
      (3 ≤ 2)
      × AreEntries ((key_nul, []) ∷ entries)
      × ((memory.batch_put (map to_pair ((key_nul, []) ∷ entries)) store).0 ≡ ok tt)))
    × (((3 ≤ 2) × AreEntries ((key_nul, []) ∷ entries))
        ⊎ (((engine_batch_put_bytes (map to_item ((key_nul, []) ∷ entries)) (c_state store none)).0
              ≡ err error_invalid_argument)
            × ((engine_batch_put_bytes
                  (map to_item ((key_nul, []) ∷ entries))
                  (c_state store none)).1.handle
                ≡ some store)))
batch_put_bytes-accepts_example = batch_put_bytes-accepts (key_nul, []) entries store none

put_nul_ok : (put_bytes key_nul (9 ∷ []) open_engine).0 ≡ ok tt
unfolding put_bytes from_ptr c_string is_utf8
put_nul_ok = refl

put_bytes-nul_example :
    stored memory_laws (put_bytes key_nul (9 ∷ []) open_engine).1 key_a ≡ some (9 ∷ [])
put_bytes-nul_example = put_bytes-nul memory_laws key_a key_b (9 ∷ []) open_engine put_nul_ok

abbrev requests : List Request
requests =
    put_request key_b (7 ∷ [])
    ∷ get_request key_nul
    ∷ delete_request key_nul
    ∷ get_request key_a
    ∷ batch_put_request entries
    ∷ sync_request
    ∷ []

open_engine-Fits : (j : Bytes) → Fits (stored memory_laws open_engine j)
unfolding value_to_bytes
open_engine-Fits j = ground arith

-- A NUL hides the rest of a key, so the read and the delete of "a\x00b" are those of "a".
requests_run :
    replies requests open_engine ≡ done ∷ value (b'1' ∷ []) ∷ done ∷ missing ∷ done ∷ done ∷ []
unfolding put_bytes get_bytes delete batch_put_bytes sync batch_items to_item from_ptr c_string
    is_utf8 validate_c_string value_from_raw go_bytes bytes_beq
requests_run = refl

none_failed : All (λ r. r ≢ failed) (replies requests open_engine)
none_failed = subst (All (λ (r : Reply). r ≢ failed)) (sym requests_run) (ground arith)

replies-refine_example :
    (replies requests open_engine ≡ spec_replies requests (stored memory_laws open_engine))
    × ((j : Bytes)
        → stored memory_laws (final requests open_engine) j
          ≡ spec_final requests (stored memory_laws open_engine) j)
replies-refine_example =
    replies-refine memory_laws requests open_engine (omega arith) open_engine-Fits none_failed
