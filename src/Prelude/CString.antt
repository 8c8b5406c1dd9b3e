-- ===== src/Prelude/CString.antt =====
-- Byte strings: what the C library's string functions compute over lists of bytes.
use Prim.Native.Nat.{ℕ, suc, ◌-◌, ◌<◌}
use mathlib.Core.Path.{◌≡◌, refl}
use mathlib.Core.Logic.{◌↔◌, ◌≢◌}
use mathlib.Core.Option.{Option, none, some}
use mathlib.Core.Bool.{Bool, true, false, ◌&&◌}
use mathlib.Core.List.{List, [], ◌∷◌, ◌++◌}
use native.Mathlib.Omega.{arith}
use adfilter.Prelude.Tests.{◌==◌, if◌then◌else◌}
use adfilter.Prelude.Lists.{length, take, replicate}

abbrev pub Bytes : Type 0
Bytes = List ℕ

-- The bytes before the first NUL: what a `char *` denotes as a string.
unfoldable pub c_string : Bytes → Bytes
c_string [] = []
c_string (c ∷ cs) = if c == 0 then [] else c ∷ c_string cs

abbrev pub onto : ℕ → Option Bytes → Option Bytes
onto c none = none
onto c (some s) = some (c ∷ s)

-- The string in a buffer that need not hold a NUL: without one, reading it leaves the buffer.
unfoldable pub c_text : Bytes → Option Bytes
c_text [] = none
c_text (c ∷ cs) = if c == 0 then some [] else onto c (c_text cs)

-- `strnlen`: the length of the string, at most `n`.
unfoldable pub strnlen : Bytes → ℕ → ℕ
unfolding c_string
strnlen s n = length (take n (c_string s))

-- Equality of byte strings, as `memcmp(...) == 0` over their common length tests it.
unfoldable pub bytes_eq : Bytes → Bytes → Bool
bytes_eq [] [] = true
bytes_eq [] (y ∷ ys) = false
bytes_eq (x ∷ xs) [] = false
bytes_eq (x ∷ xs) (y ∷ ys) = x == y && bytes_eq xs ys

-- No NUL among the bytes.
abbrev pub NoNul : Bytes → Type 0
NoNul [] = Unit {0}
NoNul (c ∷ cs) = (c ≢ 0) × NoNul cs

pub bytes_eq_iff : (xs ys : Bytes) → (bytes_eq xs ys ≡ true) ↔ (xs ≡ ys)
unfolding bytes_eq
bytes_eq_iff [] [] = (λ _. refl, λ _. refl)
bytes_eq_iff [] (y ∷ ys) = (λ h. cc, λ h. cc)
bytes_eq_iff (x ∷ xs) [] = (λ h. cc, λ h. cc)
bytes_eq_iff (x ∷ xs) (y ∷ ys) =
    (λ h. ground (arith, bytes_eq_iff xs ys), λ h. ground (arith, bytes_eq_iff xs ys))

pub bytes_eq_refl : (xs : Bytes) → bytes_eq xs xs ≡ true
bytes_eq_refl xs = (bytes_eq_iff xs xs).1 refl

pub c_string_terminated : (xs ys : Bytes) → NoNul xs → c_string (xs ++ 0 ∷ ys) ≡ xs
unfolding c_string
c_string_terminated [] ys h = refl
c_string_terminated (x ∷ xs) ys h = ground (arith, c_string_terminated xs ys h.1)

pub c_string_of_NoNul : (xs : Bytes) → NoNul xs → c_string xs ≡ xs
unfolding c_string
c_string_of_NoNul [] h = refl
c_string_of_NoNul (x ∷ xs) h = ground (arith, c_string_of_NoNul xs h.1)

c_text-suc : (xs : Bytes) (n : ℕ) → NoNul xs → c_text (xs ++ replicate (suc n) 0) ≡ some xs
unfolding c_text
c_text-suc [] n h = refl
c_text-suc (x ∷ xs) n h = ground (arith, c_text-suc xs n h.1)

-- A string in a zeroed buffer that is longer.
pub c_text-replicate :
    (xs : Bytes) (n : ℕ) → NoNul xs → 0 < n → c_text (xs ++ replicate n 0) ≡ some xs
c_text-replicate xs n h r = let e : n ≡ suc (n - 1) = omega arith in rw e (c_text-suc xs (n - 1) h)
