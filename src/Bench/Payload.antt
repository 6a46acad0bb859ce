-- ===== src/Bench/Payload.antt =====
-- bench/embed_vs_sqlite/main.go: the payloads, `samplePayloadSeeded`.
use Prim.Native.Nat.{bit_xor}
use f4kvs_ffi.Prelude.{
  ℕ, zero, suc, ◌+◌, ◌-◌, ◌*◌, ◌/◌, ◌%◌, ◌^◌, ◌≤◌, Bytes, Bool, false, [], ◌∷◌, ◌++◌, ◌≡◌, refl, ap,
  ◌∙◌, ltb, ◌==◌, nat_eq, if◌then◌else◌, if_cases, length, take, length-append, All, ℤ, pos, negsuc,
  arith,
}

-- `{"v":1,"title":"bench","body":"`
abbrev pub head : Bytes
head =
    b'{' ∷ b'"' ∷ b'v' ∷ b'"' ∷ b':' ∷ b'1' ∷ b',' ∷ b'"' ∷ b't' ∷ b'i' ∷ b't' ∷ b'l' ∷ b'e' ∷ b'"'
    ∷ b':' ∷ b'"' ∷ b'b' ∷ b'e' ∷ b'n' ∷ b'c' ∷ b'h' ∷ b'"' ∷ b',' ∷ b'"' ∷ b'b' ∷ b'o' ∷ b'd'
    ∷ b'y' ∷ b'"' ∷ b':' ∷ b'"' ∷ []

-- `"}`
abbrev pub tail : Bytes
tail = b'"' ∷ b'}' ∷ []

-- `uint64(seed)`
abbrev pub to_uint64 : ℤ → ℕ
to_uint64 (pos n) = n % 2 ^ 64
to_uint64 (negsuc n) = 2 ^ 64 - 1 - n % 2 ^ 64

abbrev pub is_zero : ℤ → Bool
is_zero (pos n) = n == 0
is_zero (negsuc n) = false

abbrev pub shifted : ℕ → ℕ → ℕ
shifted state bits = state * 2 ^ bits % 2 ^ 64

-- `state ^= state << 13; state ^= state >> 7; state ^= state << 17`
unfoldable pub xorshift : ℕ → ℕ
xorshift s0 =
    let s1 = bit_xor s0 (shifted s0 13) in
    let s2 = bit_xor s1 (s1 / 2 ^ 7) in bit_xor s2 (shifted s2 17)

-- The loop with a seed, from a state.
unfoldable pub seeded_letters : ℕ → ℕ → Bytes
unfolding xorshift
seeded_letters zero state = []
seeded_letters (suc fill) state =
    let next = xorshift state in (b'a' + next % 26) ∷ seeded_letters fill next

-- The loop without one: `random i` is the byte that the `i`-th `rand.Read` gives.
unfoldable pub random_letters : (ℕ → ℕ) → ℕ → ℕ → Bytes
random_letters random i zero = []
random_letters random i (suc fill) = (b'a' + random i % 26) ∷ random_letters random (suc i) fill

abbrev pub blank : ℕ → Bytes
blank zero = []
blank (suc n) = 0 ∷ blank n

unfoldable pub sample_payload_seeded : (ℕ → ℕ) → ℤ → ℤ → Bytes
unfolding seeded_letters random_letters
sample_payload_seeded random (negsuc n) seed = []
sample_payload_seeded random (pos n) seed =
    if ltb n (length head + length tail)
    then take n (head ++ blank n)
    else (let fill = n - length head - length tail in
        let letters =
          (if is_zero seed
            then random_letters random 0 fill
            else seeded_letters fill (to_uint64 seed)) in
        head ++ (letters ++ tail))

-- `samplePayload`
unfoldable pub sample_payload : (ℕ → ℕ) → ℤ → Bytes
unfolding sample_payload_seeded
sample_payload random n = sample_payload_seeded random n (pos 0)

abbrev pub IsLetter : ℕ → Type 0
IsLetter b = (b'a' ≤ b) × (b ≤ b'z')

abbrev Letters : ℕ → Bytes → Type 0
Letters n bs = (length bs ≡ n) × All IsLetter bs

seeded_letters-Letters : (n state : ℕ) → Letters n (seeded_letters n state)
unfolding seeded_letters
seeded_letters-Letters zero state = (refl, tt)
seeded_letters-Letters (suc n) state =
    let (count, all) = seeded_letters-Letters n (xorshift state) in
    (ap suc count, ((omega arith, omega arith), all))

random_letters-Letters : (random : ℕ → ℕ) (i n : ℕ) → Letters n (random_letters random i n)
unfolding random_letters
random_letters-Letters random i zero = (refl, tt)
random_letters-Letters random i (suc n) =
    let (count, all) = random_letters-Letters random (suc i) n in
    (ap suc count, ((omega arith, omega arith), all))

abbrev body_of : (ℕ → ℕ) → ℕ → ℤ → Bytes
body_of random n seed =
    let fill = n - length head - length tail in
    if is_zero seed then random_letters random 0 fill else seeded_letters fill (to_uint64 seed)

body_of-Letters :
    (random : ℕ → ℕ) (n : ℕ) (seed : ℤ)
    → Letters (n - length head - length tail) (body_of random n seed)
body_of-Letters random n seed =
    let fill = n - length head - length tail in
    if_cases (Letters fill) (is_zero seed) _ _ (λ _. random_letters-Letters random 0 fill)
      λ _. seeded_letters-Letters fill (to_uint64 seed)

sample_payload_seeded-body :
    (random : ℕ → ℕ) (n : ℕ) (seed : ℤ)
    → 33 ≤ n
    → sample_payload_seeded random (pos n) seed ≡ head ++ (body_of random n seed ++ tail)
unfolding sample_payload_seeded
sample_payload_seeded-body random n seed h =
    if_cases (λ bs. bs ≡ head ++ (body_of random n seed ++ tail))
      (ltb n (length head + length tail)) _ _ (λ small. absurd (ground arith)) (λ _. refl)

length-framed : (body : Bytes) → length (head ++ (body ++ tail)) ≡ 33 + length body
length-framed body = omega (arith, length-append body tail)

-- A payload of at least 33 bytes is the head, letters from 'a' to 'z', and the tail, and it is as
-- long as asked for, with a seed and without one.
pub sample_payload_seeded-letters :
    (random : ℕ → ℕ) (n : ℕ) (seed : ℤ)
    → 33 ≤ n
    → (body : Bytes) × (sample_payload_seeded random (pos n) seed ≡ head ++ (body ++ tail))
      × (length (sample_payload_seeded random (pos n) seed) ≡ n)
      × All IsLetter body
sample_payload_seeded-letters random n seed h =
    let (count, all) = body_of-Letters random n seed in
    let same = sample_payload_seeded-body random n seed h in
    (
      body_of random n seed,
      same,
      ap length same ∙ omega (arith, length-framed (body_of random n seed), count),
      all,
    )

payload_tests :
    (seeded_letters 7 42 ≡ b's' ∷ b'h' ∷ b'o' ∷ b'y' ∷ b'a' ∷ b'd' ∷ b'v' ∷ [])
    × (sample_payload_seeded (λ i. 0) (pos 3) (pos 1) ≡ take 3 head)
    × (length (sample_payload_seeded (λ i. 0) (pos 32) (pos 1)) ≡ 32)
unfolding seeded_letters sample_payload_seeded
payload_tests = (refl, refl, refl)
