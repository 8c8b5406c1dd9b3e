-- ===== src/IpcRequest/Reads.antt =====
-- Reads that stay in a buffer of the caller's length.
use adfilter.Prelude.{
  ℕ, zero, suc, ◌+◌, ◌*◌, ◌-◌, ◌%◌, ◌^◌, ◌≤◌, ◌<◌, ◌≡◌, refl, ap, sym, ◌∙◌, ◌⊎◌, inl, inr, List, [],
  ◌∷◌, some, true, false, arith, ◌==◌, ltb, length, take, drop, get_elem?, Bytes, c_text,
  Bool-cases,
}
use adfilter.Pool.{Pool}
use adfilter.Ipc.{FltRule, read_ulong, read_ushort}
use adfilter.Sids.{parse}
use adfilter.IpcRequest.{read_rule, rule_size, is_unterminated}

length-drop : (n : ℕ) (b : Bytes) → n ≤ length b → n + length (drop n b) ≡ length b
length-drop zero b h = omega arith
length-drop (suc n) [] h = absurd (omega arith)
length-drop (suc n) (c ∷ b) h = omega (arith, length-drop n b (omega arith))

read_ulong-some : (b : Bytes) → 4 ≤ length b → (n : ℕ) × (read_ulong b ≡ some n)
unfolding read_ulong
read_ulong-some (a ∷ b ∷ c ∷ d ∷ r) h = (a + b * 2 ^ 8 + c * 2 ^ 16 + d * 2 ^ 24, refl)
read_ulong-some [] h = absurd (omega arith)
read_ulong-some (a ∷ []) h = absurd (omega arith)
read_ulong-some (a ∷ b ∷ []) h = absurd (omega arith)
read_ulong-some (a ∷ b ∷ c ∷ []) h = absurd (omega arith)

read_ushort-some : (b : Bytes) → 2 ≤ length b → (n : ℕ) × (read_ushort b ≡ some n)
unfolding read_ushort
read_ushort-some (a ∷ b ∷ r) h = (a + b * 2 ^ 8, refl)
read_ushort-some [] h = absurd (omega arith)
read_ushort-some (a ∷ []) h = absurd (omega arith)

pub word-some : (b : Bytes) (i : ℕ) → i + 4 ≤ length b → (n : ℕ) × (read_ulong (drop i b) ≡ some n)
word-some b i h = read_ulong-some (drop i b) (omega (arith, length-drop i b (omega arith)))

half-some : (b : Bytes) (i : ℕ) → i + 2 ≤ length b → (n : ℕ) × (read_ushort (drop i b) ≡ some n)
half-some b i h = read_ushort-some (drop i b) (omega (arith, length-drop i b (omega arith)))

-- A buffer of the size of a rule can be read as one.
pub read_rule-some :
    (b : Bytes)
    → length b ≡ rule_size
    → (rule : FltRule) × ((p : Pool) → read_rule b p ≡ some (rule, p))
unfolding read_rule
read_rule-some b h =
    let (chain, e0) = word-some b 0 (omega arith) in
    let (result, e1) = word-some b 4 (omega arith) in
    let (proto, e2) = word-some b 8 (omega arith) in
    let (direction, e3) = word-some b 12 (omega arith) in
    let (addr_from, e4) = word-some b 16 (omega arith) in
    let (mask_from, e5) = word-some b 20 (omega arith) in
    let (port_from, e6) = half-some b 24 (omega arith) in
    let (port2_from, e7) = half-some b 26 (omega arith) in
    let (addr_to, e8) = word-some b 28 (omega arith) in
    let (mask_to, e9) = word-some b 32 (omega arith) in
    let (port_to, e10) = half-some b 36 (omega arith) in
    let (port2_to, e11) = half-some b 38 (omega arith) in
    let (log, e12) = word-some b 40 (omega arith) in
    (
      record {
        chain = chain;
        result = result;
        proto = proto;
        direction = direction;
        addr_from = addr_from;
        mask_from = mask_from;
        port_from = port_from;
        port2_from = port2_from;
        addr_to = addr_to;
        mask_to = mask_to;
        port_to = port_to;
        port2_to = port2_to;
        log = log;
        sid_mask = take 16 (drop 44 b);
        rule_id = take 32 (drop 60 b);
      },
      λ p. rw (e0, e1, e2, e3, e4, e5, e6, e7, e8, e9, e10, e11, e12),
    )

get_elem?-some : (b : Bytes) (i : ℕ) → i < length b → (c : ℕ) × (get_elem? b i ≡ some c)
get_elem?-some [] i h = absurd (omega arith)
get_elem?-some (c ∷ b) zero h = (c, refl)
get_elem?-some (c ∷ b) (suc i) h = get_elem?-some b i (omega arith)

get_elem?-drop : (n i : ℕ) (b : Bytes) → get_elem? (drop n b) i ≡ get_elem? b (n + i)
get_elem?-drop zero i b = ap (get_elem? b) (omega arith)
get_elem?-drop (suc n) i [] = refl
get_elem?-drop (suc n) i (c ∷ b) =
    let e : suc n + i ≡ suc (n + i) = omega arith in
    get_elem?-drop n i b ∙ ap (get_elem? (c ∷ b)) (sym e)

c_text-zero : (b : Bytes) (i : ℕ) → get_elem? b i ≡ some 0 → (s : Bytes) × (c_text b ≡ some s)
unfolding c_text
c_text-zero [] i h = ground (arith, h)
c_text-zero (c ∷ b) i h = elim (Bool-cases (c == 0)) [
  | inl z ↦ ([], ground (arith, z))
  | inr n ↦
      elim i as (λ i. get_elem? (c ∷ b) i ≡ some 0 → (s : Bytes) × (c_text (c ∷ b) ≡ some s)) [
        | zero ↦ λ h. ground (arith, h, n)
        | suc i ↦ λ h. let (s, e) = c_text-zero b i h in (c ∷ s, ground (arith, n, e))
      ]
        h
]

-- The text behind the first word of a buffer: it is refused, or it ends in the buffer.
pub terminated_cases :
    (b : Bytes) (len : ℕ)
    → length b ≡ len
    → 5 ≤ len
    → ((p : Pool) → is_unterminated b len p ≡ some (true, p))
      ⊎ (((p : Pool) → is_unterminated b len p ≡ some (false, p))
          × (s : Bytes) × (c_text (drop 4 b) ≡ some s))
unfolding is_unterminated
terminated_cases b len e h =
    let (c, g) = get_elem?-some b (len - 1) (omega arith) in
    elim (Bool-cases (c == 0)) [
      | inr n ↦ inl (λ p. ground (arith, g, n))
      | inl z ↦
          let at : 4 + (len - 5) ≡ len - 1 = omega arith in
          let zero_byte : c ≡ 0 = ground arith in
          let last = get_elem?-drop 4 (len - 5) b ∙ ap (get_elem? b) at ∙ g ∙ ap some zero_byte in
          let (s, k) = c_text-zero (drop 4 b) (len - 5) last in
          inr (λ p. ground (arith, g, z), s, k)
    ]

-- The loop over the SIDs stays in any buffer.
pub parse-some :
    (n pos size : ℕ) (b : Bytes)
    → length b ≡ size
    → pos ≤ size
    → size + 4 < 2 ^ 32
    → (l : List ℕ) × (last : ℕ) × (parse n pos size b ≡ some (l, last))
unfolding parse
parse-some zero pos size b e h f = ([], pos, refl)
parse-some (suc n) pos size b e h f =
    let small : (pos + 4) % 2 ^ 32 ≡ pos + 4 = omega arith in
    elim (Bool-cases (ltb (pos + 4) size)) [
      | inr g ↦ ([], pos, ground (arith, small, g))
      | inl g ↦
          let (len, r) = word-some b pos (ground (arith, e, g)) in
          elim (Bool-cases (ltb size ((pos + 4 + len) % 2 ^ 32))) [
            | inl k ↦ ([], pos, ground (arith, small, g, r, k))
            | inr k ↦
                let (l, last, t) =
                  parse-some n ((pos + 4 + len) % 2 ^ 32) size b e (ground (arith, k)) f in
                (pos ∷ l, last, ground (arith, small, g, r, k, t))
          ]
    ]
