-- ===== src/Config/RoundTrip.antt =====
-- Loading a whole host file, of lines as long as a host may be.
use mathlib.Core.List.{append_assoc}
use native.Mathlib.Nat.{suc-add}
use adfilter.Prelude.{
  All, ℕ, zero, suc, ◌+◌, ◌-◌, ◌%◌, ◌^◌, ◌≤◌, ◌<◌, ◌≡◌, refl, ap, sym, ◌∙◌, subst, ◌⊎◌, inl, inr,
  List, [], ◌∷◌, ◌++◌, Option, none, some, Bool, true, false, arith, length, length-append,
  length-take, take, drop, replicate, Bytes, ltb, if◌then◌else◌, ◌==◌,
}
use adfilter.Pool.{Pool}
use adfilter.HostList.{Host, add_host_list}
use adfilter.Config.{
  done, no_memory, LoadStatus, success, memory_not_allocated, buff_size, filled, load_lines,
  load_chunks, load_file,
}
use adfilter.Config.Rounds.{text, IsHostLine, added, Holds, add_line}
use adfilter.Config.Chunks.{window, first_lines, last_line}

take-take : (n : ℕ) (s : Bytes) → take n (take (suc n) s) ≡ take n s
take-take zero s = refl
take-take (suc n) [] = refl
take-take (suc n) (c ∷ s) = ap (◌∷◌ c) (take-take n s)

-- The buffer after a read: what can be seen of the file, and zeros.
filled_lem : (s : Bytes) → (z : Bytes) × (filled (take buff_size s) ≡ take 255 s ++ 0 ∷ z)
unfolding filled
filled_lem s =
    let n = 255 - length (take 255 s) in
    let e : buff_size - length (take 255 s) ≡ suc n = omega (arith, length-take 255 s) in
    (
      replicate n 0,
      ap (λ b. b ++ replicate (buff_size - length b) 0) (take-take 255 s)
          ∙ ap (λ k. take 255 s ++ replicate k 0) e,
    )

-- ZwReadFile on a file: up to 256 bytes at the offset, or a failure at the end of the file.
abbrev pub read_at : Bytes → ℕ → Option Bytes
read_at file o = if ltb o (length file) then some (take buff_size (drop o file)) else none

-- A last line that is empty is no line.
abbrev pub closing : Bytes → List Bytes
closing [] = []
closing (c ∷ cs) = (c ∷ cs) ∷ []

-- All lines are added, in their order; or memory ran out, with some first ones added.
abbrev pub Loads :
    List Bytes → List Bytes → List ℕ → Option ((LoadStatus × List Host) × Pool) → Type 0
Loads ls ns rest r =
    ((header : List Host) × (q : Pool) × (r ≡ some ((success, header), q))
      × Holds (added ls ns) rest header q)
    ⊎ ((pre : List Bytes) × (post : List Bytes) × (header : List Host) × (q : Pool) × (ls
          ≡ pre ++ post)
        × (r ≡ some ((memory_not_allocated, header), q))
        × Holds (added pre ns) rest header q)

module _ (read : ℕ → Option Bytes) (fuel o : ℕ) (header : List Host) (p : Pool) where
  step_end : read o ≡ none → load_chunks read (suc fuel) o header p ≡ some ((success, header), p)
  unfolding load_chunks
  step_end e = ground arith

  module _ {chunk : Bytes} {header' : List Host} {q : Pool} (e : read o ≡ some chunk) where
    step_no_memory :
        load_lines buff_size 0 0 [] header (filled chunk) p ≡ some (no_memory header', q)
        → load_chunks read (suc fuel) o header p ≡ some ((memory_not_allocated, header'), q)
    unfolding load_chunks
    step_no_memory f = ground arith

    step_more :
        (lines i : ℕ) (len : Bytes)
        → load_lines buff_size 0 0 [] header (filled chunk) p ≡ some (done header' lines i len, q)
        → (lines == 0) ≡ false
        → load_chunks read (suc fuel) o header p
          ≡ load_chunks read fuel ((o + i) % 2 ^ 32) header' q
    unfolding load_chunks
    step_more lines i len f g = ground arith

    step_last :
        (i : ℕ) (len : Bytes) {b : Bool} {header'' : List Host} {t : Pool}
        → load_lines buff_size 0 0 [] header (filled chunk) p ≡ some (done header' 0 i len, q)
        → add_host_list header' len (length len) q ≡ some ((b, header''), t)
        → load_chunks read (suc fuel) o header p
          ≡ some (((if b then success else memory_not_allocated), header''), t)
    unfolding load_chunks
    step_last i len f g = ground arith

text-append :
    (pre post : List Bytes) (last : Bytes) → text (pre ++ post) last ≡ text pre [] ++ text post last
text-append [] post last = refl
text-append (l ∷ pre) post last =
    ap (λ t. l ++ 0x0d ∷ 0x0a ∷ t) (text-append pre post last)
    ∙ sym (append_assoc l (0x0d ∷ 0x0a ∷ text pre []) (text post last))

drop-drop : (a b : ℕ) (xs : Bytes) → drop (a + b) xs ≡ drop b (drop a xs)
drop-drop zero b xs = ap (λ n. drop n xs) (omega arith)
drop-drop (suc a) zero [] = rw suc-add refl
drop-drop (suc a) (suc b) [] = rw suc-add refl
drop-drop (suc a) b (x ∷ xs) = rw suc-add (drop-drop a b xs)

added-append : (pre post ns : List Bytes) → added (pre ++ post) ns ≡ added post (added pre ns)
added-append [] post ns = refl
added-append (l ∷ pre) post ns = added-append pre post (l ∷ ns)

All-append : (pre post : List Bytes) → All IsHostLine (pre ++ post) → All IsHostLine post
All-append [] post h = h
All-append (l ∷ pre) post h = All-append pre post h.1

-- What a later round loads, behind what the first ones have.
Loads-append :
    (pre ls ns : List Bytes) (rest : List ℕ) (r : Option ((LoadStatus × List Host) × Pool))
    → Loads ls (added pre ns) rest r
    → Loads (pre ++ ls) ns rest r
Loads-append pre ls ns rest r (inl (h, q, e, (n, w, v))) =
    inl (h, q, e, (n ∙ sym (added-append pre ls ns), w, v))
Loads-append pre ls ns rest r (inr (a, b, h, q, s, e, (n, w, v))) = inr (
  pre ++ a,
  b,
  h,
  q,
  ap (◌++◌ pre) s ∙ sym (append_assoc pre a b),
  e,
  (n ∙ sym (added-append pre a ns), w, v),
)

module _ (file : Bytes) (read : ℕ → Option Bytes) (rest : List ℕ)
    (reads : (o : ℕ) → read o ≡ read_at file o) (fits : length file < 2 ^ 32) where
  reads_chunk : (o : ℕ) → o < length file → read o ≡ some (take buff_size (drop o file))
  reads_chunk o h = reads o ∙ ground arith

  reads_end : (o : ℕ) → length file ≤ o → read o ≡ none
  reads_end o h = reads o ∙ ground arith

  load_last :
      (fuel o : ℕ) (c : ℕ) (cs : Bytes) (header : List Host) (ns : List Bytes) (p : Pool)
      → IsHostLine (c ∷ cs)
      → drop o file ≡ c ∷ cs
      → o < length file
      → Holds ns rest header p
      → Loads ((c ∷ cs) ∷ []) ns rest (load_chunks read (suc fuel) o header p)
  load_last fuel o c cs header ns p w d h v =
      let (z, f) = filled_lem (drop o file) in
      let e = reads_chunk o h in
      let run : load_lines buff_size 0 0 [] header (filled (take buff_size (drop o file))) p
          ≡ some (done header 0 0 (c ∷ cs), p) =
        ap (λ b. load_lines buff_size 0 0 [] header b p) (f ∙ ap (λ s. take 255 s ++ 0 ∷ z) d)
        ∙ last_line (c ∷ cs) z rest w 255 header p in
      elim (add_line header ns (c ∷ cs) p rest w.1 v) [
        | inl (q, a, v') ↦ inr (
          [],
          (c ∷ cs) ∷ [],
          header,
          q,
          refl,
          step_last read fuel o header p e 0 (c ∷ cs) run a,
          v',
        )
        | inr (h', q, a, v') ↦ inl (h', q, step_last read fuel o header p e 0 (c ∷ cs) run a, v')
      ]

  load_lem :
      (fuel o : ℕ) (ls : List Bytes) (last : Bytes) (header : List Host) (ns : List Bytes)
      (p : Pool)
      → length ls < fuel
      → All IsHostLine ls
      → IsHostLine last
      → drop o file ≡ text ls last
      → o + length (text ls last) ≡ length file
      → Holds ns rest header p
      → Loads (ls ++ closing last) ns rest (load_chunks read fuel o header p)
  load_lem zero o ls last header ns p f ws w d s v = absurd (omega arith)
  load_lem (suc fuel) o [] [] header ns p f ws w d s v =
      inl (header, p, step_end read fuel o header p (reads_end o (omega arith)), v)
  load_lem (suc fuel) o [] (c ∷ cs) header ns p f ws w d s v =
      load_last fuel o c cs header ns p w d (omega arith) v
  load_lem (suc fuel) o (l ∷ ls) last header ns p f ws w d s v =
      let (z, g) = filled_lem (drop o file) in
      let h : o < length file = omega (arith, length-append l (0x0d ∷ 0x0a ∷ text ls last)) in
      let e = reads_chunk o h in
      let run : load_lines buff_size 0 0 [] header (filled (take buff_size (drop o file))) p
          ≡ load_lines (suc 255) 0 0 [] header (window last z rest w 255 (l ∷ ls)) p =
        ap (λ b. load_lines buff_size 0 0 [] header b p) (g ∙ ap (λ t. take 255 t ++ 0 ∷ z) d) in
      elim (first_lines last z rest w l ls 255 header ns p ws.0 ws.1 (omega arith) v) [
        | inl (pre, post, h', q, k, r, v') ↦ inr (
          pre,
          post ++ closing last,
          h',
          q,
          ap (λ t. t ++ closing last) k ∙ append_assoc pre post (closing last),
          step_no_memory read fuel o header p e (run ∙ r),
          v',
        )
        | inr (pre, post, len, h', q, k, least, r, v') ↦
            let size : length (text (l ∷ ls) last)
                ≡ length (text pre []) + length (text post last) =
              ap (λ t. length (text t last)) k
              ∙ ap length (text-append pre post last)
              ∙ length-append (text pre []) (text post last) in
            let small : (o + (0 + length (text pre []))) % 2 ^ 32 ≡ o + length (text pre []) =
              omega (arith, size) in
            let behind : drop (o + length (text pre [])) file ≡ text post last =
              drop-drop o (length (text pre [])) file
              ∙ ap (drop (length (text pre [])))
                  (d ∙ ap (λ t. text t last) k ∙ text-append pre post last)
              ∙ dropped (text pre []) (text post last) in
            subst (λ t. Loads (t ++ closing last) ns rest (load_chunks read (suc fuel) o header p))
              (sym k)
              (subst (λ t. Loads t ns rest (load_chunks read (suc fuel) o header p))
                (sym (append_assoc pre post (closing last)))
                (Loads-append pre (post ++ closing last) ns rest _ (
                  subst (Loads (post ++ closing last) (added pre ns) rest)
                    (sym (
                      step_more read fuel o header p e (0 + length pre) (0 + length (text pre []))
                        len (run ∙ r) (ground (arith, least))
                      ∙ ap (λ n. load_chunks read fuel n h' q) small))
                    (load_lem fuel (o + length (text pre [])) post last h' (added pre ns) q
                      (omega (arith, ap length k, length-append pre post))
                      (All-append pre post (subst (All IsHostLine) k ws)) w behind
                      (omega (arith, size)) v'))))
      ]
    where
      dropped : (a b : Bytes) → drop (length a) (a ++ b) ≡ b
      dropped [] b = refl
      dropped (x ∷ a) b = dropped a b

pub load_file-text :
    (read : ℕ → Option Bytes) (ls : List Bytes) (last : Bytes) (fuel : ℕ) (header : List Host)
    (ns : List Bytes) (rest : List ℕ) (p : Pool)
    → ((o : ℕ) → read o ≡ read_at (text ls last) o)
    → length (text ls last) < 2 ^ 32
    → All IsHostLine ls
    → IsHostLine last
    → length ls < fuel
    → Holds ns rest header p
    → Loads (ls ++ closing last) ns rest (load_file fuel true (some read) header p)
unfolding load_file
load_file-text read ls last fuel header ns rest p reads fits ws w f v =
    load_lem (text ls last) read rest reads fits fuel 0 ls last header ns p f ws w refl
      (omega arith) v
