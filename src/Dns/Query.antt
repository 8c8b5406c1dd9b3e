-- ===== src/Dns/Query.antt =====
-- The text that fmt_dns_msg makes of a well-formed query: a name is a list of labels, each sent
-- behind its length, up to an empty label.
use adfilter.Prelude.{
  All, ℕ, zero, suc, ◌+◌, ◌-◌, ◌≤◌, ◌<◌, ◌≡◌, refl, ap, sym, ◌∙◌, List, [], ◌∷◌, ◌++◌, map, Option,
  none, some, arith, length, length-append, drop, Bytes, c_text, c_text-replicate, NoNul,
}
use mathlib.Core.List.{map-append, append_assoc}
use adfilter.Dns.{dns_buffer_size, fmt_char, fmt_loop, fmt_dns_msg}

-- The labels of a name as DNS sends them, without the first length byte and the last empty label.
abbrev pub wire : Bytes → List Bytes → Bytes
wire l [] = l
wire l (m ∷ ms) = l ++ length m ∷ wire m ms

-- The labels of a name, joined with dots.
abbrev pub dotted : Bytes → List Bytes → Bytes
dotted l [] = l
dotted l (m ∷ ms) = l ++ b'.' ∷ dotted m ms

-- A query: the header of 12 bytes, the name, and what follows it.
abbrev pub query : Bytes → Bytes → List Bytes → Bytes → Bytes
query header l ms tail = header ++ length l ∷ (wire l ms ++ 0 ∷ tail)

-- No zero byte, and a length from 1 to 47, which is a byte below '0'.
pub record IsLabel (l : Bytes) : Type 0 where
  pub no_nul : NoNul l
  pub nonempty : 0 < length l
  pub short : length l < 48

fmt_loop_lem :
    (s tail : Bytes) (n i : ℕ)
    → NoNul s
    → length s < n
    → i + length s ≤ dns_buffer_size
    → fmt_loop n i (s ++ 0 ∷ tail) ≡ some (map fmt_char s)
unfolding fmt_loop
fmt_loop_lem [] tail zero i nz r b = absurd (omega arith)
fmt_loop_lem [] tail (suc n) i nz r b = refl
fmt_loop_lem (c ∷ s) tail zero i nz r b = absurd (omega arith)
fmt_loop_lem (c ∷ s) tail (suc n) i nz r b =
    let ih = fmt_loop_lem s tail n (i + 1) nz.1 (omega arith) (omega arith) in ground (arith, ih)

NoNul-append : (xs ys : Bytes) → NoNul xs → NoNul ys → NoNul (xs ++ ys)
NoNul-append [] ys h k = k
NoNul-append (x ∷ xs) ys h k = (h.0, NoNul-append xs ys h.1 k)

wire-NoNul : (l : Bytes) (ms : List Bytes) → IsLabel l → All IsLabel ms → NoNul (wire l ms)
wire-NoNul l [] w ws = w.no_nul
wire-NoNul l (m ∷ ms) w ws =
    NoNul-append l _ w.no_nul ((λ e. omega (arith, e, ws.0.nonempty)), wire-NoNul m ms ws.0 ws.1)

fmt_char-length : (l : Bytes) → IsLabel l → fmt_char (length l) ≡ b'.'
unfolding fmt_char
fmt_char-length l w = ground (arith, w.short)

-- Each byte of the labels goes through fmt_char; each length byte becomes a dot.
map-wire :
    (l : Bytes) (ms : List Bytes)
    → All IsLabel ms
    → map fmt_char (wire l ms) ≡ dotted (map fmt_char l) (map (map fmt_char) ms)
map-wire l [] ws = refl
map-wire l (m ∷ ms) ws =
    map-append fmt_char l (length m ∷ wire m ms)
    ∙ ap (◌++◌ (map fmt_char l)) (λ i. fmt_char-length m ws.0 i ∷ map-wire m ms ws.1 i)

length-map : (f : ℕ → ℕ) (xs : Bytes) → length (map f xs) ≡ length xs
length-map f [] = refl
length-map f (x ∷ xs) = ap suc (length-map f xs)

drop-header :
    (header rest : Bytes) (x : ℕ) → length header ≡ 12 → drop 13 (header ++ x ∷ rest) ≡ rest
drop-header header rest x h = go 12 header h
  where
    go : (n : ℕ) (xs : Bytes) → length xs ≡ n → drop (suc n) (xs ++ x ∷ rest) ≡ rest
    go zero [] h = refl
    go zero (y ∷ ys) h = absurd (omega arith)
    go (suc n) [] h = absurd (omega arith)
    go (suc n) (y ∷ ys) h = go n ys (omega arith)

fmt_char-ne : (c : ℕ) → fmt_char c ≡ 0 → c ≡ 0
unfolding fmt_char
fmt_char-ne c h = ground arith

map-NoNul : (s : Bytes) → NoNul s → NoNul (map fmt_char s)
map-NoNul [] h = tt
map-NoNul (c ∷ s) h = ((λ e. h.0 (fmt_char-ne c e)), map-NoNul s h.1)

length-query :
    (header l : Bytes) (ms : List Bytes) (tail : Bytes)
    → length header ≡ 12
    → length (query header l ms tail) ≡ 14 + length (wire l ms) + length tail
length-query header l ms tail h = omega (
  arith,
  length-append header (length l ∷ (wire l ms ++ 0 ∷ tail)),
  length-append (wire l ms) (0 ∷ tail),
)

-- The text of dns_buffer as a C string, if the call does not fault.
abbrev pub dns_text : Option Bytes → Option Bytes
dns_text none = none
dns_text (some b) = c_text b

-- For a query of a name whose labels have from 1 to 47 bytes, none of them zero, and which is
-- shorter than dns_buffer, the call stays inside its buffers and leaves there the labels joined
-- with dots, each byte below '0' or from 128 on replaced by a dot.
pub fmt_dns_msg-query :
    (header l : Bytes) (ms : List Bytes) (tail : Bytes)
    → length header ≡ 12
    → IsLabel l
    → All IsLabel ms
    → length (wire l ms) < dns_buffer_size
    → dns_text (fmt_dns_msg (query header l ms tail) (length (query header l ms tail) - 1))
      ≡ some (dotted (map fmt_char l) (map (map fmt_char) ms))
unfolding fmt_dns_msg
fmt_dns_msg-query header l ms tail h w ws r =
    let s = wire l ms in
    let nz : NoNul s = wire-NoNul l ms w ws in
    let rounds : length s < length (query header l ms tail) - 1 =
      omega (arith, length-query header l ms tail h) in
    let run = fmt_loop_lem s tail _ 0 nz rounds (omega arith) in
    rw (drop-header header (s ++ 0 ∷ tail) (length l) h, run)
      (c_text-replicate _ _ (map-NoNul s nz) (omega (arith, length-map fmt_char s))
        ∙ ap some (map-wire l ms ws))

-- The bytes from '0' on that ASCII has: letters, digits and underscores are among them.
abbrev pub IsPlain : Bytes → Type 0
IsPlain [] = Unit {0}
IsPlain (c ∷ cs) = (48 ≤ c) × (c < 128) × IsPlain cs

fmt_char-IsPlain : (l : Bytes) → IsPlain l → map fmt_char l ≡ l
unfolding fmt_char
fmt_char-IsPlain [] w = refl
fmt_char-IsPlain (c ∷ l) w = ground (arith, fmt_char-IsPlain l w.2)

fmt_char-IsPlain-All : (ms : List Bytes) → All IsPlain ms → map (map fmt_char) ms ≡ ms
fmt_char-IsPlain-All [] w = refl
fmt_char-IsPlain-All (m ∷ ms) w = λ i. fmt_char-IsPlain m w.0 i ∷ fmt_char-IsPlain-All ms w.1 i

-- A query whose labels have from 1 to 47 bytes, all in ASCII from '0' on, gives exactly the host
-- name with dots.
pub fmt_dns_msg-plain :
    (header l : Bytes) (ms : List Bytes) (tail : Bytes)
    → length header ≡ 12
    → IsLabel l
    → All IsLabel ms
    → length (wire l ms) < dns_buffer_size
    → IsPlain l
    → All IsPlain ms
    → dns_text (fmt_dns_msg (query header l ms tail) (length (query header l ms tail) - 1))
      ≡ some (dotted l ms)
fmt_dns_msg-plain header l ms tail h w ws r a b =
    fmt_dns_msg-query header l ms tail h w ws r
    ∙ (λ i. some (dotted (fmt_char-IsPlain l a i) (fmt_char-IsPlain-All ms b i)))

dotted-append :
    (a b : Bytes) (ms : List Bytes) → dotted (a ++ b'.' ∷ b) ms ≡ a ++ b'.' ∷ dotted b ms
dotted-append a b [] = refl
dotted-append a b (m ∷ ms) = append_assoc a (b'.' ∷ b) (b'.' ∷ dotted m ms)

hyphen_lem : (l m : Bytes) → map fmt_char (l ++ b'-' ∷ m) ≡ map fmt_char l ++ b'.' ∷ map fmt_char m
unfolding fmt_char
hyphen_lem l m = map-append fmt_char l (b'-' ∷ m)

-- A hyphen is taken for a label's end: the query for a name that starts with the label `l-m` gives
-- the same text as the query for the name that starts with the labels `l` and `m`.
pub fmt_dns_msg-hyphen :
    (header l m : Bytes) (ms : List Bytes) (tail : Bytes)
    → length header ≡ 12
    → IsLabel l
    → IsLabel m
    → IsLabel (l ++ b'-' ∷ m)
    → All IsLabel ms
    → length (wire l (m ∷ ms)) < dns_buffer_size
    → length (wire (l ++ b'-' ∷ m) ms) < dns_buffer_size
    → (let one = query header (l ++ b'-' ∷ m) ms tail in
        let two = query header l (m ∷ ms) tail in
        dns_text (fmt_dns_msg one (length one - 1)) ≡ dns_text (fmt_dns_msg two (length two - 1)))
fmt_dns_msg-hyphen header l m ms tail h wl wm w ws r s =
    fmt_dns_msg-query header (l ++ b'-' ∷ m) ms tail h w ws s
    ∙ ap some (
        ap (λ t. dotted t (map (map fmt_char) ms)) (hyphen_lem l m)
        ∙ dotted-append (map fmt_char l) (map fmt_char m) (map (map fmt_char) ms))
    ∙ sym (fmt_dns_msg-query header l (m ∷ ms) tail h wl (wm, ws) r)
