-- ===== src/Engine/Refinement.antt =====
-- The engine against its specification: a map from keys to byte strings.
use mathlib.Core.Path.{fun_ext, ap₂}
use f4kvs_ffi.Prelude.{
  ◌^◌, ◌<◌, Bytes, Bool, true, false, Option, none, some, List, [], ◌∷◌, ◌≡◌, refl, ◌≢◌, ap, ◌∙◌,
  ◌==◌, bytes_eq, if◌then◌else◌, length, Assoc, All, arith,
}
use f4kvs_ffi.Prelude.Exec.{Outcome, ok, err, panic}
use f4kvs_ffi.Ffi.Lsm.{Lsm, LsmLaws}
use f4kvs_ffi.Ffi.Calls.{Message}
use f4kvs_ffi.Engine.{
  F4kvs, GoError, err_not_found, get_bytes, put_bytes, delete, batch_put_bytes, batch_delete, flush,
  flush_wal, sync,
}
use f4kvs_ffi.Engine.Stored.{
  c_key, stored, engine, Fits, Reads, get_bytes-Reads, stored-get_bytes, put_bytes-stored,
  delete-stored,
}
use f4kvs_ffi.Engine.Batch.{
  after_puts, after_deletes, batch_put_bytes-stored_at, batch_delete-stored_at,
}

pub data Request : Type 0 where
  get_request delete_request : Bytes → Request
  put_request : Bytes → Bytes → Request
  batch_put_request : Assoc Bytes Bytes → Request
  batch_delete_request : List Bytes → Request
  flush_request flush_wal_request sync_request : Request

pub data Reply : Type 0 where
  value : Bytes → Reply
  missing done failed : Reply

abbrev pub read_reply : Outcome GoError Bytes → Reply
read_reply (ok b) = value b
read_reply (err err_not_found) = missing
read_reply _ = failed

abbrev pub write_reply : Outcome GoError (Unit {0}) → Reply
write_reply (ok _) = done
write_reply _ = failed

module _ {S : Type 0} ⦃lsm : Lsm S⦄ where
  abbrev pub serve : Request → F4kvs S → Reply × F4kvs S
  serve (get_request k) e = (read_reply (get_bytes k e).0, (get_bytes k e).1)
  serve (put_request k v) e = (write_reply (put_bytes k v e).0, (put_bytes k v e).1)
  serve (delete_request k) e = (write_reply (delete k e).0, (delete k e).1)
  serve (batch_put_request xs) e = (write_reply (batch_put_bytes xs e).0, (batch_put_bytes xs e).1)
  serve (batch_delete_request ks) e = (write_reply (batch_delete ks e).0, (batch_delete ks e).1)
  serve flush_request e = (write_reply (flush e).0, (flush e).1)
  serve flush_wal_request e = (write_reply (flush_wal e).0, (flush_wal e).1)
  serve sync_request e = (write_reply (sync e).0, (sync e).1)

  abbrev pub replies : List Request → F4kvs S → List Reply
  replies [] e = []
  replies (r ∷ rs) e = (serve r e).0 ∷ replies rs (serve r e).1

  abbrev pub final : List Request → F4kvs S → F4kvs S
  final [] e = e
  final (r ∷ rs) e = final rs (serve r e).1

-- The specification. A key is what C reads of it.
abbrev pub Model : Type 0
Model = Bytes → Option Bytes

abbrev pub read_model : Option Bytes → Reply
read_model none = missing
read_model (some b) = value b

abbrev pub spec_reply : Request → Model → Reply
spec_reply (get_request k) m = read_model (m k)
spec_reply _ m = done

abbrev pub spec_step : Request → Model → Model
spec_step (put_request k v) m = λ j. if c_key k == c_key j then some v else m j
spec_step (delete_request k) m = λ j. if c_key k == c_key j then none else m j
spec_step (batch_put_request xs) m = after_puts xs m
spec_step (batch_delete_request ks) m = after_deletes ks m
spec_step _ m = m

abbrev pub spec_replies : List Request → Model → List Reply
spec_replies [] m = []
spec_replies (r ∷ rs) m = spec_reply r m ∷ spec_replies rs (spec_step r m)

abbrev pub spec_final : List Request → Model → Model
spec_final [] m = m
spec_final (r ∷ rs) m = spec_final rs (spec_step r m)

-- The values of a request are shorter than 2^31 bytes.
abbrev pub RequestFits : Request → Type 0
RequestFits (put_request k v) = length v < 2 ^ 31
RequestFits (batch_put_request xs) = All (λ p. length p.1 < 2 ^ 31) xs
RequestFits _ = Unit

after_puts-Fits :
    (xs : Assoc Bytes Bytes) (m : Model)
    → All (λ (p : Bytes × Bytes). length p.1 < 2 ^ 31) xs
    → ((j : Bytes) → Fits (m j))
    → (j : Bytes) → Fits (after_puts xs m j)
after_puts-Fits [] m h f j = f j
after_puts-Fits ((k, v) ∷ xs) m h f j =
    after_puts-Fits xs (λ i. if c_key k == c_key i then some v else m i) h.1
      (λ i. ground (arith, f i)) j

after_deletes-Fits :
    (ks : List Bytes) (m : Model)
    → ((j : Bytes) → Fits (m j))
    → (j : Bytes) → Fits (after_deletes ks m j)
after_deletes-Fits [] m f j = f j
after_deletes-Fits (k ∷ ks) m f j =
    after_deletes-Fits ks (λ i. if c_key k == c_key i then none else m i) (λ i. ground (arith, f i))
      j

spec_step-Fits :
    (r : Request) (m : Model)
    → RequestFits r
    → ((j : Bytes) → Fits (m j))
    → (j : Bytes) → Fits (spec_step r m j)
spec_step-Fits (put_request k v) m h f j = ground (arith, f j)
spec_step-Fits (delete_request k) m h f j = ground (arith, f j)
spec_step-Fits (batch_put_request xs) m h f j = after_puts-Fits xs m h f j
spec_step-Fits (batch_delete_request ks) m h f j = after_deletes-Fits ks m f j
spec_step-Fits (get_request k) m h f j = f j
spec_step-Fits flush_request m h f j = f j
spec_step-Fits flush_wal_request m h f j = f j
spec_step-Fits sync_request m h f j = f j

write_reply-ok : (o : Outcome GoError (Unit {0})) → write_reply o ≢ failed → o ≡ ok tt
write_reply-ok (ok tt) h = refl
write_reply-ok (err x) h = absurd (h refl)
write_reply-ok panic h = absurd (h refl)

write_reply-done : (o : Outcome GoError (Unit {0})) → write_reply o ≢ failed → write_reply o ≡ done
write_reply-done o h = ap write_reply (write_reply-ok o h)

read_reply-model :
    (o : Outcome GoError Bytes) (b : Option Bytes)
    → Reads b o
    → read_reply o ≢ failed
    → read_reply o ≡ read_model b
read_reply-model o b r h = ground arith

module _ {S : Type 0} ⦃lsm : Lsm S⦄ (laws : LsmLaws S lsm) where
  -- Nothing that is stored changes.
  abbrev Keeps : F4kvs S → F4kvs S → Type 0
  Keeps e e' = (j : Bytes) → stored laws e' j ≡ stored laws e j

  stored-flush_at :
      (c : Bool) (h : Option S) (m : Option Message) → Keeps (engine c h m) (flush (engine c h m)).1
  unfolding flush
  stored-flush_at true h m j = refl
  stored-flush_at false none m j = refl
  stored-flush_at false (some s) m j = ground (arith, laws.flush_view (c_key j) s)

  stored-flush_wal_at :
      (c : Bool) (h : Option S) (m : Option Message)
      → Keeps (engine c h m) (flush_wal (engine c h m)).1
  unfolding flush_wal
  stored-flush_wal_at true h m j = refl
  stored-flush_wal_at false none m j = refl
  stored-flush_wal_at false (some s) m j = ground (arith, laws.flush_wal_view (c_key j) s)

  stored-sync_at :
      (c : Bool) (h : Option S) (m : Option Message) → Keeps (engine c h m) (sync (engine c h m)).1
  unfolding sync
  stored-sync_at true h m j = refl
  stored-sync_at false none m j = refl
  stored-sync_at false (some s) m j = ground (arith, laws.compact_view (c_key j) s)

  serve-stored :
      (r : Request) (e : F4kvs S)
      → (serve r e).0 ≢ failed
      → (j : Bytes) → stored laws (serve r e).1 j ≡ spec_step r (stored laws e) j
  serve-stored (get_request k) e h j = stored-get_bytes laws k j e
  serve-stored (put_request k v) e h j = put_bytes-stored laws k v j e (write_reply-ok _ h)
  serve-stored (delete_request k) e h j = delete-stored laws k j e (write_reply-ok _ h)
  serve-stored (batch_put_request xs) e h j =
      batch_put_bytes-stored_at laws xs j e.closed e.handle e.last_error (write_reply-ok _ h)
  serve-stored (batch_delete_request ks) e h j =
      batch_delete-stored_at laws ks j e.closed e.handle e.last_error (write_reply-ok _ h)
  serve-stored flush_request e h j = stored-flush_at e.closed e.handle e.last_error j
  serve-stored flush_wal_request e h j = stored-flush_wal_at e.closed e.handle e.last_error j
  serve-stored sync_request e h j = stored-sync_at e.closed e.handle e.last_error j

  serve-reply :
      (r : Request) (e : F4kvs S)
      → ((j : Bytes) → Fits (stored laws e j))
      → (serve r e).0 ≢ failed
      → (serve r e).0 ≡ spec_reply r (stored laws e)
  serve-reply (get_request k) e f h =
      read_reply-model (get_bytes k e).0 (stored laws e k) (get_bytes-Reads laws k e (f k)) h
  serve-reply (put_request k v) e f h = write_reply-done _ h
  serve-reply (delete_request k) e f h = write_reply-done _ h
  serve-reply (batch_put_request xs) e f h = write_reply-done _ h
  serve-reply (batch_delete_request ks) e f h = write_reply-done _ h
  serve-reply flush_request e f h = write_reply-done _ h
  serve-reply flush_wal_request e f h = write_reply-done _ h
  serve-reply sync_request e f h = write_reply-done _ h

  -- Along any sequence of requests of which none fails, the engine answers as a map from keys to
  -- values does, and ends up holding what that map holds. Values are shorter than 2^31 bytes.
  pub replies-refine :
      (rs : List Request) (e : F4kvs S)
      → All RequestFits rs
      → ((j : Bytes) → Fits (stored laws e j))
      → All (λ r. r ≢ failed) (replies rs e)
      → (replies rs e ≡ spec_replies rs (stored laws e))
        × ((j : Bytes) → stored laws (final rs e) j ≡ spec_final rs (stored laws e) j)
  replies-refine [] e q f h = (refl, λ j. refl)
  replies-refine (r ∷ rs) e q f h =
      let step : stored laws (serve r e).1 ≡ spec_step r (stored laws e) =
        fun_ext (serve-stored r e h.0) in
      let rest =
        replies-refine rs (serve r e).1 q.1
          (λ j. rw (serve-stored r e h.0) (spec_step-Fits r (stored laws e) q.0 f j)) h.1 in
      (
        ap₂ ◌∷◌ (serve-reply r e f h.0) (rest.0 ∙ ap (spec_replies rs) step),
        λ j. rest.1 j ∙ ap (λ (m : Model). spec_final rs m j) step,
      )
