-- ===== src/HostList/Lookup.antt =====
-- What the searches of sys/adfilter/list.c find, against the names that a list holds.
use adfilter.Prelude.{
  Any, All, ℕ, ◌+◌, ◌≤◌, ◌≡◌, ap, ◌↔◌, List, [], ◌∷◌, map, true, arith, take, length, length-take,
  Bytes, bytes_eq_iff, c_string, is_pos,
}
use adfilter.HostList.{
  Host, is_same_host, is_in_host_list, SlreMatch, slre_ignore_case, is_match_host_list,
}

-- A name and its terminator fill the buffer, and the lengths say so.
pub record IsHost (h : Host) : Type 0 where
  pub sized : length h.buffer ≡ h.length + 1
  pub capacity : h.maximum_length ≡ h.length + 1

abbrev pub name_of : Host → Bytes
name_of h = take h.length h.buffer

abbrev pub names : List Host → List Bytes
names = map name_of

-- isSameHost compares whole names: it answers true exactly if the entry's name is the first `len`
-- bytes of the text.
pub is_same_host_iff :
    (h : Host) (dst : Bytes) (len : ℕ)
    → IsHost h
    → len ≤ length dst
    → (is_same_host h dst len ≡ true) ↔ (name_of h ≡ take len dst)
unfolding is_same_host
is_same_host_iff h dst len w r = (there, back)
  where
    there : is_same_host h dst len ≡ true → name_of h ≡ take len dst
    there e =
        let same : h.length ≡ len = ground arith in
        rw (← same) ((bytes_eq_iff _ _).0 (ground arith))

    back : name_of h ≡ take len dst → is_same_host h dst len ≡ true
    back e =
        let same : h.length ≡ len =
          omega (arith, ap length e, length-take h.length h.buffer, length-take len dst, w.sized) in
        ground (arith, (bytes_eq_iff (name_of h) (take h.length dst)).1 (rw same (rw same at e)))

-- isInHostList answers true exactly if one of the entries has that name.
is_in_host_list_iff :
    (hs : List Host) (dst : Bytes) (len : ℕ)
    → All IsHost hs
    → len ≤ length dst
    → (is_in_host_list hs dst len ≡ true) ↔ Any (λ n. n ≡ take len dst) (names hs)
unfolding is_in_host_list
is_in_host_list_iff [] dst len w r = (λ h. cc, λ h. absurd h)
is_in_host_list_iff (h ∷ hs) dst len w r = (
  λ e. ground (arith, is_same_host_iff h dst len w.0 r, is_in_host_list_iff hs dst len w.1 r),
  λ e. ground (arith, is_same_host_iff h dst len w.0 r, is_in_host_list_iff hs dst len w.1 r),
)

module _ (slre_match : SlreMatch) where
  -- The match that slre_match finds for the pattern of an entry ends where the text ends; it may begin
  -- anywhere.
  abbrev pub MatchEnds : Bytes → ℕ → Host → Type 0
  MatchEnds dst len h =
      is_pos (slre_match (c_string h.buffer) dst len 0 slre_ignore_case) len ≡ true

  -- isMatchHostList answers true exactly if the match for the pattern of some entry ends where the
  -- text ends.
  pub is_match_host_list_iff :
      (hs : List Host) (dst : Bytes) (len : ℕ)
      → (is_match_host_list slre_match hs dst len ≡ true) ↔ Any (MatchEnds dst len) hs
  unfolding is_match_host_list
  is_match_host_list_iff [] dst len = (λ h. cc, λ h. absurd h)
  is_match_host_list_iff (h ∷ hs) dst len = (
    λ e. ground (arith, is_match_host_list_iff hs dst len),
    λ e. ground (arith, is_match_host_list_iff hs dst len),
  )
