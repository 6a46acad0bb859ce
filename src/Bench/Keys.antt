-- ===== src/Bench/Keys.antt =====
-- bench/embed_vs_sqlite/main.go: the keys of a run.
use f4kvs_ffi.Prelude.{
  ℕ, zero, suc, ◌/◌, ◌<◌, Bytes, true, false, List, [], ◌∷◌, ◌++◌, ◌≡◌, ◌==◌, ==_ne, refl, sym, ap,
  ◌∙◌, bytes_eq, ◌||◌, length, contains, All, arith,
}
use f4kvs_ffi.Prelude.Decimal.{
  padded, last_number, last_number-append, last_number-padded, IsDigit, padded-IsDigit,
}
use f4kvs_ffi.Prelude.Members.{Unrepeated}
use f4kvs_ffi.Ffi.Text.{has_nul}
use f4kvs_ffi.Ffi.Lsm.{starts_with}

abbrev pub memoir_prefix : Bytes
memoir_prefix = b'm' ∷ b'e' ∷ b'm' ∷ b'o' ∷ b'i' ∷ b'r' ∷ b':' ∷ []

abbrev pub chunk_prefix : Bytes
chunk_prefix = b'c' ∷ b'h' ∷ b'u' ∷ b'n' ∷ b'k' ∷ b':' ∷ []

-- "legal:"
abbrev legal : Bytes
legal = b'l' ∷ b'e' ∷ b'g' ∷ b'a' ∷ b'l' ∷ b':' ∷ []

-- "doc-"
abbrev doc : Bytes
doc = b'd' ∷ b'o' ∷ b'c' ∷ b'-' ∷ []

-- ":chunk-"
abbrev chunk_infix : Bytes
chunk_infix = b':' ∷ b'c' ∷ b'h' ∷ b'u' ∷ b'n' ∷ b'k' ∷ b'-' ∷ []

-- "chunk:legal:"
abbrev pub legal_prefix : Bytes
legal_prefix = chunk_prefix ++ legal

-- `fmt.Sprintf("memoir:%04d", i)`
unfoldable pub memoir_key : ℕ → Bytes
unfolding padded
memoir_key i = memoir_prefix ++ padded 4 i

-- `fmt.Sprintf("chunk:legal:doc-%04d:chunk-%06d", i/10, i)`
unfoldable pub chunk_key : ℕ → Bytes
unfolding padded
chunk_key i = legal_prefix ++ (doc ++ (padded 4 (i / 10) ++ (chunk_infix ++ padded 6 i)))

-- The keys at `i` and the `n - 1` places after it.
unfoldable pub keys_from : (ℕ → Bytes) → ℕ → ℕ → List Bytes
keys_from key i zero = []
keys_from key i (suc n) = key i ∷ keys_from key (suc i) n

unfoldable pub memoir_keys : ℕ → List Bytes
unfolding keys_from memoir_key
memoir_keys memoirs = keys_from memoir_key 0 memoirs

unfoldable pub chunk_keys : ℕ → List Bytes
unfolding keys_from chunk_key
chunk_keys chunks = keys_from chunk_key 0 chunks

-- The text before a number does not count.
memoir_prefix-resets : (xs : Bytes) → last_number (memoir_prefix ++ xs) 0 ≡ last_number xs 0
unfolding last_number
memoir_prefix-resets xs = refl

legal_prefix-resets : (xs : Bytes) → last_number (legal_prefix ++ (doc ++ xs)) 0 ≡ last_number xs 0
unfolding last_number
legal_prefix-resets xs = refl

chunk_infix-resets :
    (xs : Bytes) (found : ℕ) → last_number (chunk_infix ++ xs) found ≡ last_number xs 0
unfolding last_number
chunk_infix-resets xs found = refl

last_number-memoir_key : (i : ℕ) → last_number (memoir_key i) 0 ≡ i
unfolding memoir_key
last_number-memoir_key i = memoir_prefix-resets (padded 4 i) ∙ last_number-padded 4 i

last_number-chunk_key : (i : ℕ) → last_number (chunk_key i) 0 ≡ i
unfolding chunk_key
last_number-chunk_key i =
    legal_prefix-resets (padded 4 (i / 10) ++ (chunk_infix ++ padded 6 i))
    ∙ last_number-append (padded 4 (i / 10)) (chunk_infix ++ padded 6 i) 0
    ∙ chunk_infix-resets (padded 6 i) _
    ∙ last_number-padded 6 i

-- A key, its prefix, and no NUL in it.
abbrev pub IsKey : Bytes → Bytes → Type 0
IsKey prefix k = (starts_with prefix k ≡ true) × (has_nul k ≡ false)

module _ (key : ℕ → Bytes) (named : (i : ℕ) → last_number (key i) 0 ≡ i) where
  apart : (i j : ℕ) → j < i → (key i == key j) ≡ false
  apart i j h =
      ==_ne (key i) (key j)
        λ same. absurd (omega (arith, sym (named i) ∙ ap (λ k. last_number k 0) same ∙ named j))

  contains-keys_from : (i j n : ℕ) → j < i → contains (keys_from key i n) (key j) ≡ false
  unfolding keys_from
  contains-keys_from i j zero h = refl
  contains-keys_from i j (suc n) h = ground (arith, contains-keys_from (suc i) j n, apart i j)

  keys_from-Unrepeated : (i n : ℕ) → Unrepeated (keys_from key i n)
  unfolding keys_from
  keys_from-Unrepeated i zero = tt
  keys_from-Unrepeated i (suc n) =
      (contains-keys_from (suc i) i n (omega arith), keys_from-Unrepeated (suc i) n)

  length-keys_from : (i n : ℕ) → length (keys_from key i n) ≡ n
  unfolding keys_from
  length-keys_from i zero = refl
  length-keys_from i (suc n) = ap suc (length-keys_from (suc i) n)

  keys_from-All : (P : Bytes → Type 0) (i n : ℕ) → ((j : ℕ) → P (key j)) → All P (keys_from key i n)
  unfolding keys_from
  keys_from-All P i zero h = tt
  keys_from-All P i (suc n) h = (h i, keys_from-All P (suc i) n h)

has_nul-append : (xs ys : Bytes) → has_nul (xs ++ ys) ≡ (has_nul xs || has_nul ys)
unfolding has_nul
has_nul-append [] ys = refl
has_nul-append (x ∷ xs) ys = ground (arith, has_nul-append xs ys)

IsDigit-has_nul : (xs : Bytes) → All IsDigit xs → has_nul xs ≡ false
unfolding has_nul
IsDigit-has_nul [] h = refl
IsDigit-has_nul (x ∷ xs) h = ground (arith, IsDigit-has_nul xs h.1, h.0)

memoir_key-IsKey : (i : ℕ) → IsKey memoir_prefix (memoir_key i)
unfolding memoir_key has_nul
memoir_key-IsKey i = (refl, IsDigit-has_nul (padded 4 i) (padded-IsDigit 4 i))

chunk_tail :
    (xs ys : Bytes) → All IsDigit xs → All IsDigit ys → has_nul (xs ++ (chunk_infix ++ ys)) ≡ false
unfolding has_nul
chunk_tail xs ys h g =
    ground
      (arith, has_nul-append xs (chunk_infix ++ ys), IsDigit-has_nul xs h, IsDigit-has_nul ys g)

chunk_key-IsKey : (i : ℕ) → IsKey chunk_prefix (chunk_key i)
unfolding chunk_key has_nul
chunk_key-IsKey i = (
  refl,
  chunk_tail (padded 4 (i / 10)) (padded 6 i) (padded-IsDigit 4 (i / 10)) (padded-IsDigit 6 i),
)

-- The keys of a run: as many as asked for, no two of them the same, each with the prefix that the
-- scans look for, and none with a NUL.
pub memoir_keys-Unrepeated :
    (n : ℕ)
    → (length (memoir_keys n) ≡ n)
      × Unrepeated (memoir_keys n)
      × All (IsKey memoir_prefix) (memoir_keys n)
      × (length (chunk_keys n) ≡ n)
      × Unrepeated (chunk_keys n)
      × All (IsKey chunk_prefix) (chunk_keys n)
unfolding memoir_keys chunk_keys
memoir_keys-Unrepeated n = (
  length-keys_from memoir_key last_number-memoir_key 0 n,
  keys_from-Unrepeated memoir_key last_number-memoir_key 0 n,
  keys_from-All memoir_key last_number-memoir_key (IsKey memoir_prefix) 0 n memoir_key-IsKey,
  length-keys_from chunk_key last_number-chunk_key 0 n,
  keys_from-Unrepeated chunk_key last_number-chunk_key 0 n,
  keys_from-All chunk_key last_number-chunk_key (IsKey chunk_prefix) 0 n chunk_key-IsKey,
)
