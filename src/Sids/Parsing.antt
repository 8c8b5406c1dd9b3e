-- ===== src/Sids/Parsing.antt =====
-- How a buffer of well-formed SIDs is laid out and parsed.
use adfilter.Prelude.{
  ℕ, zero, suc, ◌+◌, ◌*◌, ◌/◌, ◌%◌, ◌^◌, ◌≤◌, ◌<◌, ◌≡◌, refl, ap, sym, ◌∙◌, List, [], ◌∷◌, ◌++◌,
  some, arith, All, length, drop, length-append, Bytes,
}
use mathlib.Core.List.{append_assoc}
use adfilter.Ipc.{read_ulong}
use adfilter.Sids.{found_at, parse, se_length_sid}

-- A ULONG in little-endian order.
abbrev pub ulong_bytes : ℕ → Bytes
ulong_bytes n = n % 256 ∷ n / 2 ^ 8 % 256 ∷ n / 2 ^ 16 % 256 ∷ n / 2 ^ 24 % 256 ∷ []

-- The entries, each a length and the SID.
abbrev pub encode : List Bytes → Bytes
encode [] = []
encode (s ∷ ss) = ulong_bytes (length s) ++ (s ++ encode ss)

-- The offsets of the entries.
abbrev pub offsets : ℕ → List Bytes → List ℕ
offsets pos [] = []
offsets pos (s ∷ ss) = pos ∷ offsets (pos + 4 + length s) ss

-- A SID that has the length that it says.
abbrev pub IsSid : Bytes → Type 0
IsSid s = se_length_sid s ≡ some (length s)

read-ulong_bytes : (n : ℕ) (t : Bytes) → n < 2 ^ 32 → read_ulong (ulong_bytes n ++ t) ≡ some n
unfolding read_ulong
read-ulong_bytes n t h =
    let e : n % 256
          + n / 2 ^ 8 % 256 * 2 ^ 8
          + n / 2 ^ 16 % 256 * 2 ^ 16
          + n / 2 ^ 24 % 256 * 2 ^ 24
        ≡ n =
      omega arith in
    ap some e

IsSid-length : (s : Bytes) → IsSid s → 8 ≤ length s
unfolding se_length_sid
IsSid-length [] w = ground (arith, w)
IsSid-length (a ∷ []) w = ground (arith, w)
IsSid-length (a ∷ b ∷ s) w = ground (arith, w)

pub drop_all : (a b : Bytes) → drop (length a) (a ++ b) ≡ b
drop_all [] b = refl
drop_all (x ∷ a) b = drop_all a b

pub parse_end :
    (n pos size : ℕ) (b : Bytes)
    → size ≤ pos + 4
    → pos + 4 < 2 ^ 32
    → parse n pos size b ≡ some ([], pos)
unfolding parse
parse_end zero pos size b h f = refl
parse_end (suc n) pos size b h f =
    let e : (pos + 4) % 2 ^ 32 ≡ pos + 4 = omega arith in ground (arith, e)

pub parse_step :
    (n pos size len : ℕ) (b : Bytes)
    → pos + 4 < size
    → size < 2 ^ 32
    → read_ulong (drop pos b) ≡ some len
    → pos + 4 + len ≤ size
    → parse (suc n) pos size b ≡ found_at pos (parse n (pos + 4 + len) size b)
unfolding parse
parse_step n pos size len b h f r g =
    let e : (pos + 4) % 2 ^ 32 ≡ pos + 4 = omega arith in
    let k : (pos + 4 + len) % 2 ^ 32 ≡ pos + 4 + len = omega arith in ground (arith, e, k, r)

pub parse-encode :
    (ss : List Bytes) (n pos : ℕ) (before b : Bytes)
    → b ≡ before ++ encode ss
    → length before ≡ pos
    → All IsSid ss
    → length ss ≤ n
    → length b + 4 < 2 ^ 32
    → parse n pos (length b) b ≡ some (offsets pos ss, length b)
parse-encode [] n pos before b e k w c f =
    let same : length b ≡ pos = omega (arith, ap length e, length-append before []) in
    parse_end n pos (length b) b (omega arith) (omega arith) ∙ ap (λ m. some ([], m)) (sym same)
parse-encode (s ∷ ss) zero pos before b e k w c f = absurd (omega arith)
parse-encode (s ∷ ss) (suc n) pos before b e k w c f =
    let size : length b ≡ pos + 4 + length s + length (encode ss) = omega (
      arith,
      ap length e,
      k,
      length-append before (encode (s ∷ ss)),
      length-append s (encode ss),
    ) in
    let some_sid = IsSid-length s w.0 in
    let here : drop pos b ≡ encode (s ∷ ss) =
      ap (λ i. drop i b) (sym k)
      ∙ ap (drop (length before)) e
      ∙ drop_all before (encode (s ∷ ss)) in
    let r = ap read_ulong here ∙ read-ulong_bytes (length s) (s ++ encode ss) (omega arith) in
    let split : b ≡ (before ++ (ulong_bytes (length s) ++ s)) ++ encode ss =
      e ∙ sym (append_assoc before (ulong_bytes (length s) ++ s) (encode ss)) in
    let behind : length (before ++ (ulong_bytes (length s) ++ s)) ≡ pos + 4 + length s =
      omega (arith, k, length-append before (ulong_bytes (length s) ++ s)) in
    parse_step n pos (length b) (length s) b (omega arith) (omega arith) r (omega arith)
    ∙ ap (found_at pos) (
        parse-encode ss n (pos + 4 + length s) (before ++ (ulong_bytes (length s) ++ s)) b split
          behind w.1 (omega arith) f)
