-- ===== src/Config/Chunks.antt =====
-- One buffer of a host file: which of its lines load_file adds.
use mathlib.Core.List.{append_assoc}
use adfilter.Prelude.{
  All, ℕ, zero, suc, ◌+◌, ◌-◌, ◌≤◌, ◌<◌, ◌≡◌, refl, ap, sym, ◌∙◌, subst, ◌⊎◌, inl, inr, List, [],
  ◌∷◌, ◌++◌, Option, some, arith, length, length-append, length-take, take, drop, take_of_length-le,
  Bytes,
}
use native.Mathlib.Decide.{dec_lt}
use adfilter.Pool.{Pool}
use adfilter.HostList.{Host}
use adfilter.Config.{line, partial, Chunk, done, no_memory, scan_line, load_lines}
use adfilter.Config.Lines.{
  scan_line-line, scan_line-partial, take-IsLine, take-append_short, take-append_long, drop-append,
}
use adfilter.Config.Rounds.{
  text, IsHostLine, added, Holds, add_line, step_stop, step_partial, step_line, step_no_memory,
}

-- The outcome on a buffer that begins with the lines `ls`: some first ones are added, and the
-- position is behind them, at least `least` of them; or memory ran out on the way.
abbrev pub Outcome : ℕ → List Bytes → ℕ → ℕ → List Bytes → List ℕ → Option (Chunk × Pool) → Type 0
Outcome least ls i lines ns rest r =
    ((pre : List Bytes) × (post : List Bytes) × (header : List Host) × (q : Pool) × (ls
        ≡ pre ++ post)
      × (r ≡ some (no_memory header, q))
      × Holds (added pre ns) rest header q)
    ⊎ ((pre : List Bytes) × (post : List Bytes) × (len : Bytes) × (header : List Host) × (q : Pool)
        × (ls ≡ pre ++ post)
        × (least ≤ length pre)
        × (r ≡ some (done header (lines + length pre) (i + length (text pre [])) len, q))
        × Holds (added pre ns) rest header q)

after_line :
    (l : Bytes) (ls : List Bytes) (i lines : ℕ) (ns : List Bytes) (rest : List ℕ)
    (r : Option (Chunk × Pool))
    → Outcome 0 ls (i + length l + 2) (lines + 1) (l ∷ ns) rest r
    → Outcome 1 (l ∷ ls) i lines ns rest r
after_line l ls i lines ns rest r (inl (pre, post, h, q, s, e, o)) =
    inl (l ∷ pre, post, h, q, ap (◌∷◌ l) s, e, o)
after_line l ls i lines ns rest r (inr (pre, post, len, h, q, s, _, e, o)) =
    let count : lines + 1 + length pre ≡ lines + length (l ∷ pre) = omega arith in
    let position : i + length l + 2 + length (text pre []) ≡ i + length (text (l ∷ pre) []) =
      omega (arith, length-append l (0x0d ∷ 0x0a ∷ text pre [])) in
    inr (
      l ∷ pre,
      post,
      len,
      h,
      q,
      ap (◌∷◌ l) s,
      omega arith,
      e ∙ (λ j. some (done h (count j) (position j) len, q)),
      o,
    )

-- What a buffer shows of a whole line and of what follows.
pub visible :
    (l t z : Bytes) (m : ℕ)
    → take (length l + suc m) (l ++ 0x0d ∷ t) ++ z ≡ l ++ 0x0d ∷ (take m t ++ z)
visible l t z m =
    ap (λ b. b ++ z) (take-append_long (suc m) l (0x0d ∷ t)) ∙ append_assoc l (0x0d ∷ take m t) z

weaken :
    (ls : List Bytes) (i lines : ℕ) (ns : List Bytes) (rest : List ℕ) (r : Option (Chunk × Pool))
    → Outcome 1 ls i lines ns rest r
    → Outcome 0 ls i lines ns rest r
weaken ls i lines ns rest r (inl o) = inl o
weaken ls i lines ns rest r (inr (pre, post, len, h, q, s, _, e, o)) =
    inr (pre, post, len, h, q, s, omega arith, e, o)

stopped :
    (ls : List Bytes) (i lines : ℕ) (ns : List Bytes) (rest : List ℕ) (header : List Host)
    (p : Pool) (len : Bytes) (r : Option (Chunk × Pool))
    → r ≡ some (done header lines i len, p)
    → Holds ns rest header p
    → Outcome 0 ls i lines ns rest r
stopped ls i lines ns rest header p len r e o =
    let a : lines ≡ lines + 0 = omega arith in
    let b : i ≡ i + 0 = omega arith in
    inr (
      [],
      ls,
      len,
      header,
      p,
      refl,
      omega arith,
      e ∙ (λ j. some (done header (a j) (b j) len, p)),
      o,
    )

module _ (last z : Bytes) (rest : List ℕ) (w : IsHostLine last) where
  -- The buffer from `i` on, where `k` bytes of it can be seen.
  abbrev pub window : ℕ → List Bytes → Bytes
  window k ls = take k (text ls last) ++ 0 ∷ z

  partial_view :
      (k : ℕ) (l t : Bytes)
      → IsHostLine l
      → k ≤ length l
      → scan_line 0 (take k (l ++ t) ++ 0 ∷ z) ≡ partial (take k l)
  partial_view k l t wl h =
      ap (λ b. scan_line 0 (b ++ 0 ∷ z)) (take-append_short k l t h)
      ∙ scan_line-partial (take k l) z 0 (take-IsLine k l wl.0)
          (omega (arith, length-take k l, wl.1))

  -- A round that finds a whole line, and the rounds after it.
  pub line_round :
      (l : Bytes) (ls : List Bytes) (fuel i lines m : ℕ) (len : Bytes) (header : List Host)
      (ns : List Bytes) (p : Pool)
      → IsHostLine l
      → 0 < fuel
      → i < 255
      → Holds ns rest header p
      → (k : ℕ) → i + k ≡ 255
      → k ≡ length l + suc m
      → ((m' : ℕ) (header' : List Host) (q : Pool)
          → Holds (l ∷ ns) rest header' q
          → m ≡ suc m'
          → Outcome 0 ls
              (i + length l + 2)
              (lines + 1)
              (l ∷ ns)
              rest
              (load_lines fuel (i + length l + 2) (lines + 1) l header' (window m' ls) q))
      → Outcome 1
          (l ∷ ls)
          i
          lines
          ns
          rest
          (load_lines (suc fuel) i lines len header (window k (l ∷ ls)) p)
  line_round l ls zero i lines m len header ns p wl f h o k e g ih = absurd (omega arith)
  line_round l ls (suc fuel) i lines m len header ns p wl f h o k e g ih =
      subst
        (λ b.
          Outcome 1 (l ∷ ls) i lines ns rest (load_lines (suc (suc fuel)) i lines len header b p))
        (sym (ap (λ n. window n (l ∷ ls)) g ∙ visible l (0x0a ∷ text ls last) (0 ∷ z) m))
        (elim (add_line header ns l p rest wl.1 o) [
          | inl (q, a, o') ↦ inl (
            [],
            l ∷ ls,
            header,
            q,
            refl,
            step_no_memory (suc fuel) i lines len header _ p h seen a,
            o',
          )
          | inr (header', q, a, o') ↦ after_line l ls i lines ns rest _ (
              subst (Outcome 0 ls (i + length l + 2) (lines + 1) (l ∷ ns) rest)
                (sym (
                  step_line (suc fuel) i lines len header _ p h seen a
                  ∙ ap (λ b. load_lines (suc fuel) (i + length l + 2) (lines + 1) l header' b q)
                      (drop-append l _ 2)))
                (tail m ih header' q o' refl))
        ])
    where
      seen : scan_line 0 (l ++ 0x0d ∷ (take m (0x0a ∷ text ls last) ++ 0 ∷ z)) ≡ line l
      seen = scan_line-line l _ 0 wl.0 (omega (arith, wl.1))

      tail :
          (n : ℕ)
          → ((m' : ℕ) (header' : List Host) (q : Pool)
              → Holds (l ∷ ns) rest header' q
              → n ≡ suc m'
              → Outcome 0 ls
                  (i + length l + 2)
                  (lines + 1)
                  (l ∷ ns)
                  rest
                  (load_lines (suc fuel) (i + length l + 2) (lines + 1) l header' (window m' ls) q))
          → (header' : List Host) (q : Pool) → Holds (l ∷ ns) rest header' q
          → m ≡ n
          → Outcome 0 ls (i + length l + 2) (lines + 1) (l ∷ ns) rest (
              load_lines
                (suc fuel)
                (i + length l + 2)
                (lines + 1)
                l
                header'
                (drop 1 (take n (0x0a ∷ text ls last) ++ 0 ∷ z))
                q)
      tail zero ih header' q o' r =
          stopped ls _ _ (l ∷ ns) rest header' q l _
            (step_stop fuel _ _ l header' _ q (omega arith)) o'
      tail (suc m') ih header' q o' r = ih m' header' q o' refl

  chunk_lem :
      (ls : List Bytes) (fuel i lines k : ℕ) (len : Bytes) (header : List Host) (ns : List Bytes)
      (p : Pool)
      → All IsHostLine ls
      → i + k ≡ 255
      → k < fuel
      → Holds ns rest header p
      → Outcome 0 ls i lines ns rest (load_lines fuel i lines len header (window k ls) p)
  chunk_lem ls zero i lines k len header ns p ws e f o = absurd (omega arith)
  chunk_lem [] (suc fuel) i lines k len header ns p ws e f o = elim (dec_lt i 255) [
    | no h ↦
        stopped [] i lines ns rest header p len _
          (step_stop fuel i lines len header _ p (omega arith)) o
    | yes h ↦
        stopped [] i lines ns rest header p (take k last) _
          (step_partial fuel i lines len header _ p h (
            scan_line-partial (take k last) z 0 (take-IsLine k last w.0)
              (omega (arith, length-take k last, w.1))))
          o
  ]
  chunk_lem (l ∷ ls) (suc fuel) i lines k len header ns p ws e f o = elim (dec_lt i 255) [
    | no h ↦
        stopped (l ∷ ls) i lines ns rest header p len _
          (step_stop fuel i lines len header _ p (omega arith)) o
    | yes h ↦ elim (dec_lt (length l) k) [
      | no g ↦
          stopped (l ∷ ls) i lines ns rest header p (take k l) _
            (step_partial fuel i lines len header _ p h
              (partial_view k l (0x0d ∷ 0x0a ∷ text ls last) ws.0 (omega arith)))
            o
      | yes g ↦ weaken (l ∷ ls) i lines ns rest _ (
          line_round l ls fuel i lines (k - length l - 1) len header ns p ws.0 (omega arith) h o k e
            (omega arith)
            (λ m header' q o' e'.
              chunk_lem ls fuel (i + length l + 2) (lines + 1) m l header' (l ∷ ns) q ws.1
                (omega arith) (omega arith) o'))
    ]
  ]

  -- A buffer that begins with a whole line gives at least that one.
  pub first_lines :
      (l : Bytes) (ls : List Bytes) (fuel : ℕ) (header : List Host) (ns : List Bytes) (p : Pool)
      → IsHostLine l
      → All IsHostLine ls
      → 255 ≤ fuel
      → Holds ns rest header p
      → Outcome 1 (l ∷ ls) 0 0 ns rest (load_lines (suc fuel) 0 0 [] header (window 255 (l ∷ ls)) p)
  first_lines l ls fuel header ns p wl ws f o =
      line_round l ls fuel 0 0 (254 - length l) [] header ns p wl (omega arith) (omega arith) o 255
        (omega arith) (omega (arith, wl.1))
        (λ m header' q o' e.
          chunk_lem ls fuel (0 + length l + 2) (0 + 1) m l header' (l ∷ ns) q ws
            (omega (arith, wl.1)) (omega (arith, wl.1)) o')

  -- A buffer that begins with the last line gives none, and keeps it in `len`.
  pub last_line :
      (fuel : ℕ) (header : List Host) (p : Pool)
      → load_lines (suc fuel) 0 0 [] header (window 255 []) p ≡ some (done header 0 0 last, p)
  last_line fuel header p =
      let whole : take 255 last ≡ last = take_of_length-le 255 last (omega (arith, w.1)) in
      step_partial fuel 0 0 [] header _ p (omega arith) (
        subst (λ b. scan_line 0 (b ++ 0 ∷ z) ≡ partial last) (sym whole)
          (scan_line-partial last z 0 w.0 (omega (arith, w.1))))
