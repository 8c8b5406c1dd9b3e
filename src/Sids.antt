-- ===== src/Sids.antt =====
-- sys/tdi_fw/src/sids.c: the list of SIDs of the user part, and the number of a SID in it. size_t
-- is taken with 32 bits.
pub mod Parsing
pub mod Encoding
pub mod Current
use adfilter.Prelude.{
  ℕ, zero, suc, ◌+◌, ◌*◌, ◌%◌, ◌^◌, List, [], ◌∷◌, Option, none, some, Bool, true, false, ◌==◌, ltb,
  leb, ◌&&◌, if◌then◌else◌, length, take, drop, get_elem?, Bytes, bytes_eq,
}
use adfilter.Pool.{Block, M, pure, fault, ◌>>=◌, ◌>>◌, ex_allocate_pool, ex_free_pool}
use adfilter.Ipc.{max_sids_count, read_ulong}
use adfilter.Process.{free_name}

-- g_sids: a copy of the user's buffer, and the offsets of its entries there; the count is the length.
pub record Sids : Type 0 where
  pub buf : Option Block
  pub list : List ℕ

pub data Status : Type 0 where
  success insufficient_resources invalid_parameter : Status

abbrev pub found_at : ℕ → Option (List ℕ × ℕ) → Option (List ℕ × ℕ)
found_at pos none = none
found_at pos (some (l, last)) = some (pos ∷ l, last)

-- The loop over the entries, with `n` places left in the array: the offsets, and where it ends.
unfoldable pub parse : ℕ → ℕ → ℕ → Bytes → Option (List ℕ × ℕ)
parse zero pos size b = some ([], pos)
parse (suc n) pos size b =
    if ltb ((pos + 4) % 2 ^ 32) size
    then (elim (read_ulong (drop pos b)) [
      | none ↦ none
      | some sid_len ↦
          let rest = parse n ((pos + 4 + sid_len) % 2 ^ 32) size b in
          if ltb size ((pos + 4 + sid_len) % 2 ^ 32) then some ([], pos) else found_at pos rest
    ])
    else some ([], pos)

abbrev pub no_sids : Sids
no_sids = record { buf = none; list = [] }

-- The old list is freed in any case.
unfoldable pub set_sid_list : Option Bytes → ℕ → Sids → M (Status × Sids)
set_sid_list buf size s = do
  free_name s.buf
  elim (size == 0) [
    | true ↦ pure (success, no_sids)
    | false ↦ do
      new ← ex_allocate_pool
      elim new [
        | none ↦ pure (insufficient_resources, no_sids)
        | some a ↦ elim buf [
          | none ↦ fault
          | some b ↦ elim (parse max_sids_count 0 size (take size b)) [
            | none ↦ fault
            | some (l, pos) ↦ pure (
              (if pos == size then success else invalid_parameter),
              record { buf = some (record { at = a; bytes = take size b }); list = l },
            )
          ]
        ]
      ]
  ]

-- SeLengthSid
unfoldable pub se_length_sid : Bytes → Option ℕ
se_length_sid sid = elim (get_elem? sid 1) [ none ↦ none | some n ↦ some (8 + 4 * n) ]

-- The bytes of a structure; `none` where they reach behind its buffer.
abbrev pub bytes_of : ℕ → Bytes → Option Bytes
bytes_of n b = if leb n (length b) then some (take n b) else none

abbrev pub compare_bytes : Option Bytes → Option Bytes → Option Bool
compare_bytes none b = none
compare_bytes (some a) none = none
compare_bytes (some a) (some b) = some (bytes_eq a b)

-- Equal lengths, and then equal bytes.
unfoldable pub same_sid : Bytes → Bytes → Option Bool
same_sid sid b = elim (se_length_sid sid) [
  | none ↦ none
  | some n ↦ elim (se_length_sid b) [
    | none ↦ none
    | some m ↦ if n == m then compare_bytes (bytes_of n sid) (bytes_of n b) else some false
  ]
]

-- The loop from the entry `i` on.
unfoldable pub find_sid : ℕ → List ℕ → Bytes → Bytes → Option ℕ
find_sid i [] buf sid = some 0
find_sid i (pos ∷ ps) buf sid =
    let rest = find_sid (i + 1) ps buf sid in
    elim (same_sid sid (drop (pos + 4) buf)) [
      | none ↦ none
      | some same ↦ if same then some i else rest
    ]

-- The entry 0 stands for every SID that is not found, and is not looked at.
unfoldable pub get_sid_id : Sids → Bytes → Option ℕ
get_sid_id s sid = elim s.buf [ none ↦ some 0 | some b ↦ find_sid 1 (drop 1 s.list) b.bytes sid ]

-- A copy of the SID of `size` bytes; the pointer inside is kept as an offset.
unfoldable pub copy_sid_a : Option Block → ℕ → M (Option Block)
copy_sid_a none size = pure none
copy_sid_a (some b) size = do
  result ← ex_allocate_pool
  elim result [
    | none ↦ pure none
    | some a ↦ pure (some (record { at = a; bytes = take size b.bytes }))
  ]

-- What ZwQueryInformationToken answers: the bytes it wrote, with their size, or the size it needs.
pub data Query : Type 0 where
  written : Bytes → ℕ → Query
  buffer_too_small : ℕ → Query
  query_failed : Query

-- What ZwOpenThreadToken answers.
pub data Open : Type 0 where
  opened no_token open_failed : Open

abbrev pub default_sid_size : ℕ
default_sid_size = 8 + 100

-- The end after the last query: a failed one frees the buffer.
unfoldable pub end_query : ℕ → Query → M (Option Block × ℕ)
end_query a (written sid size) = pure (some (record { at = a; bytes = sid }), size)
end_query a (buffer_too_small size) = do ex_free_pool a; pure (none, 0)
end_query a query_failed = do ex_free_pool a; pure (none, 0)

unfoldable pub query_again : ℕ → Query → M (Option Block × ℕ)
query_again a second = do
  ex_free_pool a
  sid_a ← ex_allocate_pool
  elim sid_a [ none ↦ pure (none, 0) | some b ↦ end_query b second ]

-- The query of an open token, with the answers to its first and its second call.
unfoldable pub query_token : Query → Query → M (Option Block × ℕ)
query_token first second = do
  sid_a ← ex_allocate_pool
  elim sid_a [
    | none ↦ pure (none, 0)
    | some a ↦ elim first [
      | buffer_too_small size ↦ query_again a second
      | written sid size ↦ end_query a (written sid size)
      | query_failed ↦ end_query a query_failed
    ]
  ]

-- The block of the SID and its size; whether the token of the process opens is asked where the
-- thread has none.
unfoldable pub get_current_sid_a : Open → Bool → Query → Query → M (Option Block × ℕ)
get_current_sid_a opened process first second = query_token first second
get_current_sid_a no_token process first second = elim process [
  | true ↦ query_token first second
  | false ↦ pure (none, 0)
]
get_current_sid_a open_failed process first second = pure (none, 0)
