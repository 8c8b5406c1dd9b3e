-- ===== src/HostList.antt =====
-- sys/adfilter/list.c: the lists of host patterns.
-- A LIST_ENTRY ring is the list of its entries in the order of `Blink`, newest first, which is the
-- order in which every loop of list.c walks; InsertTailList adds at the head of that list.
-- An entry keeps the addresses of its two pool blocks, so that what is allocated and freed shows.
pub mod Lookup
pub mod Edit
pub mod Memory
use adfilter.Prelude.{
  ℕ, ◌+◌, ◌%◌, ◌^◌, List, [], ◌∷◌, ◌++◌, Option, none, some, Bool, true, false, ◌==◌, if◌then◌else◌,
  take, Bytes, bytes_eq, c_string, ℤ, is_pos,
}
use adfilter.Pool.{Pool, M, pure, ◌>>=◌, ◌>>◌, ex_allocate_pool, ex_free_pool}

-- struct _HostList. `buffer` is what `name.Buffer` points to.
pub record Host : Type 0 where
  pub entry_at : ℕ
  pub buffer_at : ℕ
  pub buffer : Bytes
  pub length : ℕ
  pub maximum_length : ℕ

-- USHORT
abbrev pub ushort : ℕ → ℕ
ushort n = n % 2 ^ 16

-- memcmp over the first `hostlen` bytes. A caller passes `len = strnlen(name)`, so both hold them.
unfoldable pub is_same_host : Host → Bytes → ℕ → Bool
is_same_host h name len =
    if h.length == len then bytes_eq (take h.length h.buffer) (take h.length name) else false

unfoldable pub is_in_host_list : List Host → Bytes → ℕ → Bool
is_in_host_list [] dst len = false
is_in_host_list (h ∷ hs) dst len =
    if is_same_host h dst len then true else is_in_host_list hs dst len

fill_host : ℕ → ℕ → Bytes → ℕ → Host
fill_host e b src len = record {
  entry_at = e;
  buffer_at = b;
  buffer = take len src ++ 0 ∷ [];
  length = ushort len;
  maximum_length = ushort (len + 1);
}

-- `none` inside the action is the NULL that the function returns.
unfoldable pub new_host_list : Bytes → ℕ → M (Option Host)
unfolding fill_host
new_host_list src len = do
  e ← ex_allocate_pool
  elim e [
    | none ↦ pure none
    | some a ↦ do
      b ← ex_allocate_pool
      elim b [ none ↦ do ex_free_pool a; pure none | some c ↦ pure (some (fill_host a c src len)) ]
  ]

unfoldable pub add_host_list : List Host → Bytes → ℕ → M (Bool × List Host)
add_host_list header src len = do
  h ← new_host_list src len
  elim h [ none ↦ pure (false, header) | some e ↦ pure (true, e ∷ header) ]

pub free_host : Host → M (Unit {0})
free_host h = do ex_free_pool h.buffer_at; ex_free_pool h.entry_at

unfoldable pub remove_host_list : List Host → Bytes → ℕ → M (Bool × List Host)
unfolding free_host
remove_host_list [] dst len = pure (false, [])
remove_host_list (h ∷ hs) dst len =
    let rest = remove_host_list hs dst len in
    if is_same_host h dst len
    then (do free_host h; pure (true, hs))
    else (do (found, hs') ← rest; pure (found, h ∷ hs'))

-- RemoveTailList takes the newest entry, and gives the header back once the ring is empty.
unfoldable pub clear_host_list : List Host → M (List Host)
unfolding free_host
clear_host_list [] = pure []
clear_host_list (h ∷ hs) = do free_host h; clear_host_list hs

-- slre_match(regexp, buf, buf_len, caps, num_caps, flags), of sys/slre; the pointer `caps` is NULL
-- in every call and left out.
abbrev pub SlreMatch : Type 0
SlreMatch = Bytes → Bytes → ℕ → ℕ → ℕ → ℤ

abbrev pub slre_ignore_case : ℕ
slre_ignore_case = 1

module _ (slre_match : SlreMatch) where
  unfoldable pub is_match_host_list : List Host → Bytes → ℕ → Bool
  is_match_host_list [] dst len = false
  is_match_host_list (h ∷ hs) dst len =
      if is_pos (slre_match (c_string h.buffer) dst len 0 slre_ignore_case) len
      then true
      else is_match_host_list hs dst len
