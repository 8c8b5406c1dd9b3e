-- ===== src/HostList/Edit.antt =====
-- What the edits of sys/adfilter/list.c do to the names of a list and to the pool. `rest` are the
-- live blocks that belong to anything else.
use adfilter.Prelude.{
  All, ℕ, ◌+◌, ◌^◌, ◌≤◌, ◌<◌, ◌≡◌, refl, ap, ◌⊎◌, inl, inr, List, [], ◌∷◌, ◌++◌, some, true, false,
  arith, if◌then◌else◌, take, length, Bytes, bytes_eq, bytes_eq_iff, Bool-cases,
}
use adfilter.Pool.{Pool, count-append, Owns}
use adfilter.HostList.{
  Host, is_same_host, is_in_host_list, add_host_list, remove_host_list, clear_host_list,
}
use adfilter.HostList.Lookup.{IsHost, name_of, names, is_same_host_iff}
use adfilter.HostList.Memory.{blocks, free_host_owned, new_host_list_cases}

-- Without the first occurrence of a name.
unfoldable pub erase_name : Bytes → List Bytes → List Bytes
erase_name n [] = []
erase_name n (m ∷ ms) = if bytes_eq m n then ms else m ∷ erase_name n ms

-- addHostList either reports failure and changes neither the list nor the pool's live blocks, or
-- puts an entry of the name in front, in two blocks of its own.
pub add_host_list_cases :
    (hs : List Host) (src : Bytes) (len : ℕ) (p : Pool) (rest : List ℕ)
    → len ≤ length src
    → len + 1 < 2 ^ 16
    → All IsHost hs
    → Owns p (blocks hs ++ rest)
    → ((q : Pool) × (add_host_list hs src len p ≡ some ((false, hs), q))
        × Owns q (blocks hs ++ rest))
      ⊎ ((hs' : List Host) × (q : Pool) × (add_host_list hs src len p ≡ some ((true, hs'), q))
          × (names hs' ≡ take len src ∷ names hs)
          × All IsHost hs'
          × Owns q (blocks hs' ++ rest))
unfolding add_host_list
add_host_list_cases hs src len p rest r s ws own =
    elim (new_host_list_cases src len p (blocks hs ++ rest) r s own) [
      | inl (q, e, o) ↦ inl (q, ground (arith, e), o)
      | inr (h, q, e, o, w, n) ↦
          inr (h ∷ hs, q, ground (arith, e), ap (λ m. m ∷ names hs) n, (w, ws), o)
    ]

is_same_host_name :
    (h : Host) (dst : Bytes) (len : ℕ)
    → IsHost h
    → len ≤ length dst
    → is_same_host h dst len ≡ bytes_eq (name_of h) (take len dst)
is_same_host_name h dst len w r =
    ground (arith, is_same_host_iff h dst len w r, bytes_eq_iff (name_of h) (take len dst))

-- removeHostList answers whether the name is in the list, takes its newest entry out of the list,
-- leaves the other entries in their order, and frees exactly that entry's blocks; no block is freed
-- that is not live.
pub remove_host_list_lem :
    (hs : List Host) (dst : Bytes) (len : ℕ) (p : Pool) (rest : List ℕ)
    → len ≤ length dst
    → All IsHost hs
    → Owns p (blocks hs ++ rest)
    → (hs' : List Host) × (q : Pool) × (remove_host_list hs dst len p
        ≡ some ((is_in_host_list hs dst len, hs'), q))
      × (names hs' ≡ erase_name (take len dst) (names hs))
      × All IsHost hs'
      × Owns q (blocks hs' ++ rest)
unfolding remove_host_list is_in_host_list erase_name
remove_host_list_lem [] dst len p rest r ws own = ([], p, refl, refl, tt, own)
remove_host_list_lem (h ∷ hs) dst len p rest r ws own = elim (Bool-cases (is_same_host h dst len)) [
  | inl hit ↦
      let (q, e, o) = free_host_owned h p (blocks hs ++ rest) own in
      (hs, q, ground (arith, e), ground (arith, is_same_host_name h dst len ws.0 r), ws.1, o)
  | inr miss ↦
      let (hs', q, e, n, w, o) =
        remove_host_list_lem hs dst len p (h.buffer_at ∷ h.entry_at ∷ rest) r ws.1 (moved own) in
      (
        h ∷ hs',
        q,
        ground (arith, e),
        ground (arith, is_same_host_name h dst len ws.0 r, n),
        (ws.0, w),
        back hs' q o,
      )
]
  where
    moved :
        Owns p (h.buffer_at ∷ h.entry_at ∷ blocks hs ++ rest)
        → Owns p (blocks hs ++ (h.buffer_at ∷ h.entry_at ∷ rest))
    moved o b = omega (
      arith,
      o b,
      count-append b (blocks hs) rest,
      count-append b (blocks hs) (h.buffer_at ∷ h.entry_at ∷ rest),
    )

    back :
        (hs' : List Host) (q : Pool)
        → Owns q (blocks hs' ++ (h.buffer_at ∷ h.entry_at ∷ rest))
        → Owns q (h.buffer_at ∷ h.entry_at ∷ blocks hs' ++ rest)
    back hs' q o b = omega (
      arith,
      o b,
      count-append b (blocks hs') rest,
      count-append b (blocks hs') (h.buffer_at ∷ h.entry_at ∷ rest),
    )

-- clearHostList empties the list and gives back all its blocks and no other.
pub clear_host_list_lem :
    (hs : List Host) (p : Pool) (rest : List ℕ)
    → Owns p (blocks hs ++ rest)
    → (q : Pool) × (clear_host_list hs p ≡ some ([], q)) × Owns q rest
unfolding clear_host_list
clear_host_list_lem [] p rest own = (p, refl, own)
clear_host_list_lem (h ∷ hs) p rest own =
    let (q, e, o) = free_host_owned h p (blocks hs ++ rest) own in
    let (t, f, o') = clear_host_list_lem hs q rest o in (t, ground (arith, e, f), o')
