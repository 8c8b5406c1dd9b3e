-- ===== src/Config/Rounds.antt =====
-- The rounds of the loop over one buffer of a host file.

use adfilter.Prelude.{
  All, ℕ, suc, ◌+◌, ◌≤◌, ◌<◌, ◌≡◌, ◌∙◌, ◌⊎◌, inl, inr, List, [], ◌∷◌, ◌++◌, some, true, false,
  arith, length, drop, take_of_length-le, Bytes,
}
use adfilter.Pool.{Pool, Owns}
use adfilter.HostList.{Host, add_host_list}
use adfilter.HostList.Lookup.{IsHost, names}
use adfilter.HostList.Memory.{blocks}
use adfilter.HostList.Edit.{add_host_list_cases}
use adfilter.Config.{line, partial, done, no_memory, len_size, scan_line, load_lines}
use adfilter.Config.Lines.{IsLine}

-- Lines that end with a carriage return and a line feed, and a last one without an end.
abbrev pub text : List Bytes → Bytes → Bytes
text [] last = last
text (l ∷ ls) last = l ++ 0x0d ∷ 0x0a ∷ text ls last

-- A host of at most 128 bytes.
abbrev pub IsHostLine : Bytes → Type 0
IsHostLine l = IsLine l × (length l ≤ len_size)

-- The lines in front of the names, the last one first.
abbrev pub added : List Bytes → List Bytes → List Bytes
added [] ns = ns
added (l ∷ ls) ns = added ls (l ∷ ns)

-- The list holds well-formed entries with these names, and the pool is what it and `rest` own.
abbrev pub Holds : List Bytes → List ℕ → List Host → Pool → Type 0
Holds ns rest header p = (names header ≡ ns) × All IsHost header × Owns p (blocks header ++ rest)

-- One entry: made in front, or not made for want of memory.
pub add_line :
    (header : List Host) (ns : List Bytes) (l : Bytes) (p : Pool) (rest : List ℕ)
    → length l ≤ len_size
    → Holds ns rest header p
    → ((q : Pool) × (add_host_list header l (length l) p ≡ some ((false, header), q))
        × Holds ns rest header q)
      ⊎ ((header' : List Host) × (q : Pool) × (add_host_list header l (length l) p
            ≡ some ((true, header'), q))
          × Holds (l ∷ ns) rest header' q)
add_line header ns l p rest r (n, ws, o) =
    elim (add_host_list_cases header l (length l) p rest (omega arith) (omega arith) ws o) [
      | inl (q, e, o') ↦ inl (q, e, (n, ws, o'))
      | inr (h, q, e, k, w, o') ↦
          inr (h, q, e, (k ∙ (λ i. take_of_length-le (length l) l (omega arith) i ∷ n i), w, o'))
    ]

module _ (fuel i lines : ℕ) (len : Bytes) (header : List Host) (buff : Bytes) (p : Pool) where
  pub step_stop :
      255 ≤ i → load_lines (suc fuel) i lines len header buff p ≡ some (done header lines i len, p)
  unfolding load_lines
  step_stop h = ground arith

  pub step_partial :
      {l : Bytes}
      → i < 255
      → scan_line 0 buff ≡ partial l
      → load_lines (suc fuel) i lines len header buff p ≡ some (done header lines i l, p)
  unfolding load_lines
  step_partial h e = ground arith

  pub step_line :
      {l : Bytes} {header' : List Host} {q : Pool}
      → i < 255
      → scan_line 0 buff ≡ line l
      → add_host_list header l (length l) p ≡ some ((true, header'), q)
      → load_lines (suc fuel) i lines len header buff p
        ≡ load_lines fuel (i + length l + 2) (lines + 1) l header' (drop (length l + 2) buff) q
  unfolding load_lines
  step_line h e a = ground arith

  pub step_no_memory :
      {l : Bytes} {header' : List Host} {q : Pool}
      → i < 255
      → scan_line 0 buff ≡ line l
      → add_host_list header l (length l) p ≡ some ((false, header'), q)
      → load_lines (suc fuel) i lines len header buff p ≡ some (no_memory header', q)
  unfolding load_lines
  step_no_memory h e a = ground arith
