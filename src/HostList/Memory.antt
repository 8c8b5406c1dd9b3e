-- ===== src/HostList/Memory.antt =====
-- The pool blocks that sys/adfilter/list.c allocates and frees for an entry.
use adfilter.Prelude.{
  ℕ, ◌+◌, ◌%◌, ◌^◌, ◌≤◌, ◌<◌, ◌≡◌, ◌⊎◌, inl, inr, List, [], ◌∷◌, none, some, arith, take, length,
  length-take, length-append, take-append_length, Bytes,
}
use adfilter.Pool.{Pool, Owns, ex_allocate_pool_cases, ex_free_pool_owned}
use adfilter.HostList.{Host, new_host_list, free_host, fill_host}
use adfilter.HostList.Lookup.{IsHost, name_of}

-- The two blocks of each entry.
abbrev pub blocks : List Host → List ℕ
blocks [] = []
blocks (h ∷ hs) = h.buffer_at ∷ h.entry_at ∷ blocks hs

pub free_host_owned :
    (h : Host) (p : Pool) (xs : List ℕ)
    → Owns p (h.buffer_at ∷ h.entry_at ∷ xs)
    → (q : Pool) × (free_host h p ≡ some (tt, q)) × Owns q xs
unfolding free_host
free_host_owned h p xs own =
    let (q, e, o) = ex_free_pool_owned h.buffer_at p (h.entry_at ∷ xs) own in
    let (r, f, o') = ex_free_pool_owned h.entry_at q xs o in (r, ground arith, o')

fill_host_name :
    (a c : ℕ) (src : Bytes) (len : ℕ)
    → len ≤ length src
    → len + 1 < 2 ^ 16
    → IsHost (fill_host a c src len) × (name_of (fill_host a c src len) ≡ take len src)
unfolding fill_host
fill_host_name a c src len r s =
    let fits : len % 2 ^ 16 ≡ len = omega arith in
    let whole : length (take len src) ≡ len = omega (arith, length-take len src) in
    (
      record {
        sized = omega (arith, length-append (take len src) (0 ∷ []), whole);
        capacity = omega arith;
      },
      rw fits (rw whole at (take-append_length (take len src) (0 ∷ []))),
    )

-- What newHostList does: it returns NULL and keeps no block, or it makes an entry of the name, in
-- two blocks of its own.
pub new_host_list_cases :
    (src : Bytes) (len : ℕ) (p : Pool) (xs : List ℕ)
    → len ≤ length src
    → len + 1 < 2 ^ 16
    → Owns p xs
    → ((q : Pool) × (new_host_list src len p ≡ some (none, q)) × Owns q xs)
      ⊎ ((h : Host) × (q : Pool) × (new_host_list src len p ≡ some (some h, q))
          × Owns q (h.buffer_at ∷ h.entry_at ∷ xs)
          × IsHost h
          × (name_of h ≡ take len src))
unfolding new_host_list
new_host_list_cases src len p xs r s own = elim (ex_allocate_pool_cases p xs own) [
  | inl (q, e, o) ↦ inl (q, ground arith, o)
  | inr (a, q, e, o) ↦ elim (ex_allocate_pool_cases q (a ∷ xs) o) [
    | inl (q', e', o') ↦
        let (t, f, o'') = ex_free_pool_owned a q' xs o' in inl (t, ground arith, o'')
    | inr (c, q', e', o') ↦
        let (w, n) = fill_host_name a c src len r s in
        inr (fill_host a c src len, q', ground arith, o', w, n)
  ]
]
