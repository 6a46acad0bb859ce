-- ===== src/Engine/LoopTests.antt =====
-- Scans and loops over keys at a concrete engine in memory.
use f4kvs_ffi.Prelude.{
  Bytes, false, none, some, List, [], ◌∷◌, ◌≡◌, refl, lookup, bytes_beq, bytes_eq, contains, arith,
}
use f4kvs_ffi.Prelude.Exec.{ok}
use f4kvs_ffi.Ffi.Text.{c_string, from_ptr, is_utf8, has_nul}
use f4kvs_ffi.Ffi.Lsm.{bytes}
use f4kvs_ffi.Ffi.Calls.{value_to_bytes}
use f4kvs_ffi.Ffi.Memory.{Memory, memory, memory_laws}
use f4kvs_ffi.Engine.{
  F4kvs, batch_get_bytes, batch_get_values, batch_put, scan_prefix_keys, go_bytes,
}
use f4kvs_ffi.Engine.Stored.{stored, engine, Fits}
use f4kvs_ffi.Engine.Scan.{scan_prefix_keys-lists}
use f4kvs_ffi.Engine.Loops.{batch_get_bytes-stored, batch_put-after_puts}

abbrev loaded : F4kvs Memory
loaded =
    engine false
      (some (record {
        table = (b'a' ∷ b'1' ∷ [], bytes (1 ∷ [])) ∷ (b'b' ∷ [], bytes (2 ∷ [])) ∷ [];
        faults = [];
        limit = 2;
      }))
      none

abbrev found : List Bytes
found = (b'a' ∷ b'1' ∷ []) ∷ []

scan_run : (scan_prefix_keys (b'a' ∷ []) loaded).0 ≡ some found
unfolding scan_prefix_keys c_string from_ptr is_utf8 has_nul
scan_run = refl

scan_prefix_keys-lists_example : contains found (b'b' ∷ []) ≡ false
unfolding c_string from_ptr has_nul bytes_beq
scan_prefix_keys-lists_example =
    scan_prefix_keys-lists memory_laws (b'a' ∷ []) (b'b' ∷ []) found loaded refl scan_run

get_run : (batch_get_bytes ((b'b' ∷ []) ∷ []) loaded).0 ≡ ok ((b'b' ∷ [], 2 ∷ []) ∷ [])
unfolding batch_get_bytes c_string from_ptr is_utf8 bytes_beq go_bytes
get_run = refl

loaded-Fits : (i : Bytes) → Fits (stored memory_laws loaded i)
unfolding value_to_bytes
loaded-Fits i = ground arith

batch_get_bytes-stored_example :
    (lookup {K = Bytes} {V = Bytes} (b'b' ∷ []) ((b'b' ∷ [], 2 ∷ []) ∷ []) ≡ some (2 ∷ []))
    × (batch_get_values ((b'b' ∷ []) ∷ []) loaded ≡ batch_get_bytes ((b'b' ∷ []) ∷ []) loaded)
unfolding c_string from_ptr bytes_beq value_to_bytes
batch_get_bytes-stored_example =
    batch_get_bytes-stored memory_laws ((b'b' ∷ []) ∷ []) _ (b'b' ∷ []) loaded loaded-Fits get_run

put_run : (batch_put ((b'c' ∷ [], 3 ∷ []) ∷ []) loaded).0 ≡ ok tt
unfolding batch_put c_string from_ptr is_utf8
put_run = refl

batch_put-after_puts_example :
    stored memory_laws (batch_put ((b'c' ∷ [], 3 ∷ []) ∷ []) loaded).1 (b'c' ∷ []) ≡ some (3 ∷ [])
unfolding c_string from_ptr bytes_beq
batch_put-after_puts_example =
    batch_put-after_puts memory_laws ((b'c' ∷ [], 3 ∷ []) ∷ []) (b'c' ∷ []) loaded put_run
