-- ===== src/Ffi/Text.antt =====
-- C strings and UTF-8, as crates/f4kvs-ffi/src/lib.rs and the cgo helpers of go/f4kvs.go use them.
use f4kvs_ffi.Prelude.{
  ℕ, zero, suc, Bytes, Bool, true, false, Option, none, some, [], ◌∷◌, ◌++◌, ◌≡◌, refl, ◌&&◌, leb,
  ◌==◌, nat_eq, if◌then◌else◌, arith,
}

-- `C.CString`: the bytes, and a terminator.
unfoldable pub c_string : Bytes → Bytes
c_string s = s ++ 0 ∷ []

-- `CStr::from_ptr(ptr).to_bytes()`, `C.GoString`: what stands before the first NUL.
unfoldable pub from_ptr : Bytes → Bytes
from_ptr [] = []
from_ptr (b ∷ bs) = if b == 0 then [] else b ∷ from_ptr bs

unfoldable pub has_nul : Bytes → Bool
has_nul [] = false
has_nul (b ∷ bs) = if b == 0 then true else has_nul bs

-- The lead byte of a character: how many bytes follow, and the range of the first of them.
unfoldable pub lead : ℕ → Option (ℕ × ℕ × ℕ)
lead b =
    if leb b 0x7F
    then some (0, 0, 0)
    else if leb 0xC2 b && leb b 0xDF
    then some (1, 0x80, 0xBF)
    else if b == 0xE0
    then some (2, 0xA0, 0xBF)
    else if b == 0xED
    then some (2, 0x80, 0x9F)
    else if leb 0xE1 b && leb b 0xEF
    then some (2, 0x80, 0xBF)
    else if b == 0xF0
    then some (3, 0x90, 0xBF)
    else if leb 0xF1 b && leb b 0xF3
    then some (3, 0x80, 0xBF)
    else if b == 0xF4
    then some (3, 0x80, 0x8F)
    else none

utf8_from : ℕ → ℕ → ℕ → Bytes → Bool
unfolding lead
utf8_from zero lo hi [] = true
utf8_from (suc n) lo hi [] = false
utf8_from zero lo hi (b ∷ bs) = elim (lead b) [ none ↦ false | some (n, l, h) ↦ utf8_from n l h bs ]
utf8_from (suc n) lo hi (b ∷ bs) =
    let rest = utf8_from n 0x80 0xBF bs in if leb lo b && leb b hi then rest else false

-- `std::str::from_utf8(bytes).is_ok()`
unfoldable pub is_utf8 : Bytes → Bool
unfolding utf8_from
is_utf8 = utf8_from 0 0 0

-- A text without a NUL reaches C unchanged.
pub from_ptr-c_string : (s : Bytes) → has_nul s ≡ false → from_ptr (c_string s) ≡ s
unfolding from_ptr c_string has_nul
from_ptr-c_string [] h = refl
from_ptr-c_string (b ∷ bs) h = ground (arith, from_ptr-c_string bs)

-- C sees nothing that stands behind a NUL.
pub from_ptr-nul : (s t : Bytes) → from_ptr (c_string (s ++ 0 ∷ t)) ≡ from_ptr (c_string s)
unfolding from_ptr c_string
from_ptr-nul [] t = refl
from_ptr-nul (b ∷ bs) t = ground (arith, from_ptr-nul bs t)

utf8_tests :
    (is_utf8 (b'a' ∷ 0xC3 ∷ 0xA9 ∷ 0xE2 ∷ 0x82 ∷ 0xAC ∷ []) ≡ true)
    × (is_utf8 (0xC0 ∷ 0x80 ∷ []) ≡ false)
    × (is_utf8 (0xED ∷ 0xA0 ∷ 0x80 ∷ []) ≡ false)
    × (is_utf8 (0xE2 ∷ 0x82 ∷ []) ≡ false)
unfolding is_utf8
utf8_tests = (refl, refl, refl, refl)
