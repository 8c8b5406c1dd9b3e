-- ===== src/Config/Lines.antt =====
-- What the inner loop of load_file finds in a buffer.
use native.Mathlib.Nat.{suc-add}
use adfilter.Prelude.{
  ℕ, zero, suc, ◌+◌, ◌≤◌, ◌≡◌, refl, ap, ◌≢◌, [], ◌∷◌, ◌++◌, arith, length, take, drop, Bytes,
}
use adfilter.Config.{line, partial, len_size, scan_line}

-- The bytes of a host: no NUL and no carriage return.
abbrev pub IsLine : Bytes → Type 0
IsLine [] = Unit {0}
IsLine (c ∷ cs) = (c ≢ 0) × (c ≢ 0x0d) × IsLine cs

pub scan_line-line :
    (l rest : Bytes) (j : ℕ)
    → IsLine l
    → j + length l ≤ len_size
    → scan_line j (l ++ 0x0d ∷ rest) ≡ line l
unfolding scan_line
scan_line-line [] rest j w r = refl
scan_line-line (c ∷ l) rest j w r =
    let ih = scan_line-line l rest (j + 1) w.2 (omega arith) in ground (arith, ih)

pub scan_line-partial :
    (l rest : Bytes) (j : ℕ)
    → IsLine l
    → j + length l ≤ len_size
    → scan_line j (l ++ 0 ∷ rest) ≡ partial l
unfolding scan_line
scan_line-partial [] rest j w r = refl
scan_line-partial (c ∷ l) rest j w r =
    let ih = scan_line-partial l rest (j + 1) w.2 (omega arith) in ground (arith, ih)

pub take-IsLine : (k : ℕ) (l : Bytes) → IsLine l → IsLine (take k l)
take-IsLine zero l w = tt
take-IsLine (suc k) [] w = tt
take-IsLine (suc k) (c ∷ l) w = (w.0, w.1, take-IsLine k l w.2)

-- The first bytes of a text that begins with `l`.
pub take-append_short : (k : ℕ) (l t : Bytes) → k ≤ length l → take k (l ++ t) ≡ take k l
take-append_short zero l t h = refl
take-append_short (suc k) [] t h = absurd (omega arith)
take-append_short (suc k) (c ∷ l) t h = ap (◌∷◌ c) (take-append_short k l t (omega arith))

pub take-append_long : (k : ℕ) (l t : Bytes) → take (length l + k) (l ++ t) ≡ l ++ take k t
take-append_long k [] t = ap (λ n. take n t) (omega arith)
take-append_long k (c ∷ l) t = rw suc-add (ap (◌∷◌ c) (take-append_long k l t))

pub drop-append : (l t : Bytes) (n : ℕ) → drop (length l + n) (l ++ t) ≡ drop n t
drop-append [] t n = ap (λ n. drop n t) (omega arith)
drop-append (c ∷ l) t n = rw suc-add (drop-append l t n)
