-- ===== src/Transaction/Split.antt =====
-- What the first loop of `Commit` makes of the staged operations.
use f4kvs_ffi.Prelude.{
  Bytes, Bool, true, false, Option, none, some, List, [], ◌∷◌, ◌++◌, ◌≡◌, refl, ◌||◌, ◌&&◌, ◌==◌,
  if◌then◌else◌, bytes_eq, Assoc, Distinct, lookup, insert, contains, lookup-insert,
  insert-Distinct, All, arith,
}
use f4kvs_ffi.Ffi.Text.{has_nul}
use f4kvs_ffi.Engine.Batch.{KeysClean}
use f4kvs_ffi.Transaction.{TxnOp, TxnOpKind, op_put, op_delete, split_ops, add_put, add_delete}

-- The value that a staged operation leaves, if it is a put.
abbrev pub put_of : TxnOpKind → Bytes → Option Bytes → Option Bytes
put_of op_put value old = some value
put_of op_delete value old = old

abbrev pub put_value : Option TxnOp → Option Bytes → Option Bytes
put_value none old = old
put_value (some op) old = put_of op.kind op.value old

abbrev pub kind_deletes : TxnOpKind → Bool
kind_deletes op_put = false
kind_deletes op_delete = true

abbrev pub deletes : Option TxnOp → Bool
deletes none = false
deletes (some op) = kind_deletes op.kind

contains-append :
    (ks : List Bytes) (k j : Bytes) → contains (ks ++ k ∷ []) j ≡ (contains ks j || k == j)
contains-append [] k j = ground arith
contains-append (i ∷ ks) k j = ground (arith, contains-append ks k j)

lookup-add_put :
    (kd : TxnOpKind) (k j v : Bytes) (m : Assoc Bytes Bytes)
    → lookup j (add_put kd k v m) ≡ (if k == j then put_of kd v (lookup j m) else lookup j m)
lookup-add_put op_put k j v m = lookup-insert k j v m
lookup-add_put op_delete k j v m = ground arith

contains-add_delete :
    (kd : TxnOpKind) (k j : Bytes) (ks : List Bytes)
    → contains (add_delete kd k ks) j ≡ (contains ks j || (kind_deletes kd && k == j))
contains-add_delete op_put k j ks = ground arith
contains-add_delete op_delete k j ks = contains-append ks k j

pub lookup-split_ops :
    (ops : Assoc Bytes TxnOp) (puts : Assoc Bytes Bytes) (ks : List Bytes) (j : Bytes)
    → Distinct ops
    → lookup j (split_ops ops puts ks).0 ≡ put_value (lookup j ops) (lookup j puts)
unfolding split_ops
lookup-split_ops [] puts ks j d = refl
lookup-split_ops ((k, op) ∷ ops) puts ks j d = ground (
  arith,
  lookup-split_ops ops (add_put op.kind k op.value puts) (add_delete op.kind k ks) j d.1,
  lookup-add_put op.kind k j op.value puts,
  bytes_eq.beq_iff k j,
)

pub contains-split_ops :
    (ops : Assoc Bytes TxnOp) (puts : Assoc Bytes Bytes) (ks : List Bytes) (j : Bytes)
    → Distinct ops
    → contains (split_ops ops puts ks).1 j ≡ (contains ks j || deletes (lookup j ops))
unfolding split_ops
contains-split_ops [] puts ks j d = ground arith
contains-split_ops ((k, op) ∷ ops) puts ks j d = ground (
  arith,
  contains-split_ops ops (add_put op.kind k op.value puts) (add_delete op.kind k ks) j d.1,
  contains-add_delete op.kind k j ks,
  bytes_eq.beq_iff k j,
)

add_put-Distinct :
    (kd : TxnOpKind) (k v : Bytes) (m : Assoc Bytes Bytes)
    → Distinct m
    → Distinct (add_put kd k v m)
add_put-Distinct op_put k v m h = insert-Distinct k v m h
add_put-Distinct op_delete k v m h = h

pub split_ops-Distinct :
    (ops : Assoc Bytes TxnOp) (puts : Assoc Bytes Bytes) (ks : List Bytes)
    → Distinct puts
    → Distinct (split_ops ops puts ks).0
unfolding split_ops
split_ops-Distinct [] puts ks h = h
split_ops-Distinct ((k, op) ∷ ops) puts ks h =
    split_ops-Distinct ops (add_put op.kind k op.value puts) (add_delete op.kind k ks)
      (add_put-Distinct op.kind k op.value puts h)

insert-KeysClean :
    (k v : Bytes) (m : Assoc Bytes Bytes)
    → has_nul k ≡ false
    → KeysClean m
    → KeysClean (insert k v m)
insert-KeysClean k v [] n h = (n, tt)
insert-KeysClean k v ((i, w) ∷ m) n h = ground (arith, insert-KeysClean k v m n h.1)

append-All :
    (ks : List Bytes) (k : Bytes)
    → has_nul k ≡ false
    → All (λ i. has_nul i ≡ false) ks
    → All (λ i. has_nul i ≡ false) (ks ++ k ∷ [])
append-All [] k n h = (n, tt)
append-All (i ∷ ks) k n h = (h.0, append-All ks k n h.1)

abbrev pub SplitClean : Assoc Bytes Bytes × List Bytes → Type 0
SplitClean (puts, ks) = KeysClean puts × All (λ i. has_nul i ≡ false) ks

add-Clean :
    (kd : TxnOpKind) (k v : Bytes) (puts : Assoc Bytes Bytes) (ks : List Bytes)
    → has_nul k ≡ false
    → SplitClean (puts, ks)
    → SplitClean (add_put kd k v puts, add_delete kd k ks)
add-Clean op_put k v puts ks n h = (insert-KeysClean k v puts n h.0, h.1)
add-Clean op_delete k v puts ks n h = (h.0, append-All ks k n h.1)

pub split_ops-Clean :
    (ops : Assoc Bytes TxnOp) (puts : Assoc Bytes Bytes) (ks : List Bytes)
    → KeysClean ops
    → SplitClean (puts, ks)
    → SplitClean (split_ops ops puts ks)
unfolding split_ops
split_ops-Clean [] puts ks c h = h
split_ops-Clean ((k, op) ∷ ops) puts ks c h =
    split_ops-Clean ops (add_put op.kind k op.value puts) (add_delete op.kind k ks) c.1
      (add-Clean op.kind k op.value puts ks c.0 h)
