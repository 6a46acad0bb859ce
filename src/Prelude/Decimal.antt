-- ===== src/Prelude/Decimal.antt =====
-- Decimal digits, as `strconv.Itoa` and the verbs %d and %0nd of `fmt` write them.
use Prim.Native.Nat.{ℕ, zero, suc, ◌+◌, ◌-◌, ◌*◌, ◌/◌, ◌%◌, ◌≤◌, ◌<◌}
use Prim.Native.String.{String, [] as end, ◌∷◌ as ◌∷ₛ◌, char_at}
use mathlib.Core.Path.{◌≡◌, refl, ap, ◌∙◌}
use mathlib.Core.Bool.{◌&&◌}
use mathlib.Core.List.{List, [], ◌∷◌, ◌++◌}
use native.Mathlib.Omega.{arith}
use f4kvs_ffi.Prelude.Tests.{ltb, leb, if◌then◌else◌, if_cases}
use f4kvs_ffi.Prelude.Lists.{length, All, All-append_intro}

-- A pass takes a digit; a number has at most as many digits as it is large, and one.
unfoldable pub digits : ℕ → ℕ → List ℕ
digits zero n = []
digits (suc fuel) n =
    let front = digits fuel (n / 10) in (if ltb n 10 then [] else front) ++ (b'0' + n % 10) ∷ []

unfoldable pub decimal : ℕ → List ℕ
unfolding digits
decimal n = digits (suc n) n

abbrev pub zeros : ℕ → List ℕ
zeros zero = []
zeros (suc n) = b'0' ∷ zeros n

-- "%0nd", with the width `width`
unfoldable pub padded : ℕ → ℕ → List ℕ
unfolding decimal
padded width n = zeros (width - length (decimal n)) ++ decimal n

abbrev pub digits_text : List ℕ → String
digits_text [] = end
digits_text (d ∷ ds) = char_at "0123456789" (d - b'0') ∷ₛ digits_text ds

unfoldable pub decimal_text : ℕ → String
unfolding decimal
decimal_text n = digits_text (decimal n)

-- The number that a text ends with, after the digits before it gave `found`.
unfoldable pub last_number : List ℕ → ℕ → ℕ
last_number [] found = found
last_number (b ∷ bs) found =
    last_number bs (if leb b'0' b && leb b b'9' then found * 10 + (b - b'0') else 0)

pub last_number-append :
    (xs ys : List ℕ) (found : ℕ)
    → last_number (xs ++ ys) found ≡ last_number ys (last_number xs found)
unfolding last_number
last_number-append [] ys found = refl
last_number-append (x ∷ xs) ys found = last_number-append xs ys _

last_number-zeros : (n : ℕ) → last_number (zeros n) 0 ≡ 0
unfolding last_number
last_number-zeros zero = refl
last_number-zeros (suc n) = last_number-zeros n

last_number-digit : (d found : ℕ) → d < 10 → last_number ((b'0' + d) ∷ []) found ≡ found * 10 + d
unfolding last_number
last_number-digit d found h = ground arith

last_number-digits : (fuel n : ℕ) → n < fuel → last_number (digits fuel n) 0 ≡ n
unfolding digits last_number
last_number-digits zero n h = absurd (omega arith)
last_number-digits (suc fuel) n h =
    let front = (if ltb n 10 then [] else digits fuel (n / 10)) in
    let before =
      if_cases (λ ds. last_number ds 0 ≡ n / 10) (ltb n 10) [] (digits fuel (n / 10))
        (λ small. ground arith) (λ large. last_number-digits fuel (n / 10) (ground arith)) in
    last_number-append front ((b'0' + n % 10) ∷ []) 0
    ∙ last_number-digit (n % 10) (last_number front 0) (omega arith)
    ∙ omega (arith, before)

-- Reading a number from behind a text that ends before it gives the number.
pub last_number-padded : (width n : ℕ) → last_number (padded width n) 0 ≡ n
unfolding padded decimal
last_number-padded width n =
    last_number-append (zeros (width - length (decimal n))) (decimal n) 0
    ∙ ap (last_number (decimal n)) (last_number-zeros _)
    ∙ last_number-digits (suc n) n (omega arith)

-- A digit is a byte from '0' to '9'.
abbrev pub IsDigit : ℕ → Type 0
IsDigit b = (b'0' ≤ b) × (b ≤ b'9')

digits-IsDigit : (fuel n : ℕ) → All IsDigit (digits fuel n)
unfolding digits
digits-IsDigit zero n = tt
digits-IsDigit (suc fuel) n =
    All-append_intro IsDigit (if ltb n 10 then [] else digits fuel (n / 10)) _
      (if_cases (All IsDigit) (ltb n 10) _ _ (λ _. tt) λ _. digits-IsDigit fuel (n / 10))
      ((omega arith, omega arith), tt)

zeros-IsDigit : (n : ℕ) → All IsDigit (zeros n)
zeros-IsDigit zero = tt
zeros-IsDigit (suc n) = ((omega arith, omega arith), zeros-IsDigit n)

pub padded-IsDigit : (width n : ℕ) → All IsDigit (padded width n)
unfolding padded decimal
padded-IsDigit width n =
    All-append_intro IsDigit (zeros (width - length (decimal n))) (decimal n) (zeros-IsDigit _)
      (digits-IsDigit (suc n) n)

decimal_tests :
    (decimal 0 ≡ b'0' ∷ [])
    × (decimal 407 ≡ b'4' ∷ b'0' ∷ b'7' ∷ [])
    × (padded 4 12 ≡ b'0' ∷ b'0' ∷ b'1' ∷ b'2' ∷ [])
    × (decimal_text 2000 ≡ "2000")
unfolding decimal padded decimal_text
decimal_tests = (refl, refl, refl, refl)
