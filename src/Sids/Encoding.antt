-- ===== src/Sids/Encoding.antt =====
-- A buffer of well-formed SIDs, as the user part makes it, against the numbers of the SIDs.
use adfilter.Prelude.{
  ℕ, ◌+◌, ◌^◌, ◌≤◌, ◌<◌, ◌≡◌, refl, ap, sym, ◌∙◌, ◌⊎◌, inl, inr, List, [], ◌∷◌, ◌++◌, none, some,
  true, false, arith, ◌==◌, leb, if◌then◌else◌, All, length, take, drop, length-append,
  take_of_length-le, take-append_length, Bytes, bytes_eq, bytes_eq_iff, Bool-cases,
}
use mathlib.Core.List.{append_assoc}
use adfilter.Pool.{Pool, Owns, ex_allocate_pool, ex_allocate_pool_cases}
use adfilter.Ipc.{max_sids_count}
use adfilter.Process.{free_name}
use adfilter.Process.Invariant.{name_blocks}
use adfilter.Process.Exit.{free_name_owned}
use adfilter.Sids.{
  Sids, Status, success, insufficient_resources, parse, no_sids, set_sid_list, se_length_sid,
  bytes_of, same_sid, find_sid, get_sid_id,
}
use adfilter.Sids.Parsing.{ulong_bytes, encode, offsets, IsSid, drop_all, parse-encode}

-- The number of a SID among others, from `i` on; 0 if it is not there.
abbrev pub number_of : ℕ → Bytes → List Bytes → ℕ
number_of i sid [] = 0
number_of i sid (s ∷ ss) = if bytes_eq sid s then i else number_of (i + 1) sid ss

se_length_sid-append : (s t : Bytes) → IsSid s → se_length_sid (s ++ t) ≡ some (length s)
unfolding se_length_sid
se_length_sid-append [] t w = ground (arith, w)
se_length_sid-append (a ∷ []) t w = ground (arith, w)
se_length_sid-append (a ∷ b ∷ s) t w = w

same_sid-bytes_eq :
    (sid s t : Bytes) → IsSid sid → IsSid s → same_sid sid (s ++ t) ≡ some (bytes_eq sid s)
unfolding same_sid
same_sid-bytes_eq sid s t v w =
    let k = se_length_sid-append s t w in
    elim (Bool-cases (length sid == length s)) [
      | inl h ↦
          let same : length sid ≡ length s = ground arith in
          let whole : bytes_of (length sid) sid ≡ some sid =
            let e : leb (length sid) (length sid) ≡ true = ground arith in
            ap (λ b. if b then some (take (length sid) sid) else none) e
            ∙ ap some (take_of_length-le (length sid) sid (omega arith)) in
          let long : leb (length s) (length (s ++ t)) ≡ true =
            let g : length s ≤ length (s ++ t) = omega (arith, length-append s t) in ground arith in
          let there : bytes_of (length sid) (s ++ t) ≡ some s =
            ap (λ n. bytes_of n (s ++ t)) same
            ∙ ap (λ b. if b then some (take (length s) (s ++ t)) else none) long
            ∙ ap some (take-append_length s t) in
          ground (arith, v, k, h, whole, there)
      | inr h ↦ elim (Bool-cases (bytes_eq sid s)) [
        | inr n ↦ ground (arith, v, k, h, n)
        | inl y ↦
            let e : length sid ≡ length s = ap length ((bytes_eq_iff sid s).0 y) in
            ground (arith, h, e)
      ]
    ]

find_sid-number_of :
    (ss : List Bytes) (i pos : ℕ) (before b sid : Bytes)
    → b ≡ before ++ encode ss
    → length before ≡ pos
    → IsSid sid
    → All IsSid ss
    → find_sid i (offsets pos ss) b sid ≡ some (number_of i sid ss)
unfolding find_sid
find_sid-number_of [] i pos before b sid e k v w = refl
find_sid-number_of (s ∷ ss) i pos before b sid e k v w =
    let split : b ≡ (before ++ ulong_bytes (length s)) ++ (s ++ encode ss) =
      e ∙ sym (append_assoc before (ulong_bytes (length s)) (s ++ encode ss)) in
    let at : length (before ++ ulong_bytes (length s)) ≡ pos + 4 =
      omega (arith, k, length-append before (ulong_bytes (length s))) in
    let here : drop (pos + 4) b ≡ s ++ encode ss =
      ap (λ i. drop i b) (sym at)
      ∙ ap (drop (length (before ++ ulong_bytes (length s)))) split
      ∙ drop_all (before ++ ulong_bytes (length s)) (s ++ encode ss) in
    let same = ap (same_sid sid) here ∙ same_sid-bytes_eq sid s (encode ss) v w.0 in
    let split' : b ≡ (before ++ (ulong_bytes (length s) ++ s)) ++ encode ss =
      e ∙ sym (append_assoc before (ulong_bytes (length s) ++ s) (encode ss)) in
    let at' : length (before ++ (ulong_bytes (length s) ++ s)) ≡ pos + 4 + length s =
      omega (arith, k, length-append before (ulong_bytes (length s) ++ s)) in
    let ih =
      find_sid-number_of ss (i + 1) (pos + 4 + length s) (before ++ (ulong_bytes (length s) ++ s)) b
        sid split' at' v w.1 in
    elim (Bool-cases (bytes_eq sid s)) [
      | inl y ↦ ground (arith, same, y)
      | inr n ↦ ground (arith, same, n, ih)
    ]

-- What the call leaves: no list for want of memory, or a list in which a SID has its number among
-- those behind the first.
abbrev pub IsSidList : List Bytes → Bytes → Status → Sids → Type 0
IsSidList ss sid st s' =
    ((st ≡ insufficient_resources) × (s' ≡ no_sids))
    ⊎ ((st ≡ success) × (get_sid_id s' sid ≡ some (number_of 1 sid (drop 1 ss))))

get_sid_id_none : (sid : Bytes) → get_sid_id no_sids sid ≡ some 0
unfolding get_sid_id
get_sid_id_none sid = refl

get_sid_id-number_of :
    (ss : List Bytes) (a : ℕ) (sid : Bytes)
    → IsSid sid
    → All IsSid ss
    → get_sid_id
        (record { buf = some (record { at = a; bytes = encode ss }); list = offsets 0 ss })
        sid
      ≡ some (number_of 1 sid (drop 1 ss))
unfolding get_sid_id find_sid
get_sid_id-number_of [] a sid v w = refl
get_sid_id-number_of (s ∷ ss) a sid v w =
    find_sid-number_of ss 1 (4 + length s) (ulong_bytes (length s) ++ s) (encode (s ∷ ss)) sid refl
      (omega arith) v w.1

set_sid_list_run :
    (b : Bytes) (size a : ℕ) (l : List ℕ) (s : Sids) (p q t : Pool)
    → free_name s.buf p ≡ some (tt, q)
    → ex_allocate_pool q ≡ some (some a, t)
    → (size == 0) ≡ false
    → take size b ≡ b
    → parse max_sids_count 0 size b ≡ some (l, size)
    → set_sid_list (some b) size s p
      ≡ some ((success, record { buf = some (record { at = a; bytes = b }); list = l }), t)
unfolding set_sid_list
set_sid_list_run b size a l s p q t e g n all k =
    let k' : parse max_sids_count 0 size (take size b) ≡ some (l, size) =
      ap (parse max_sids_count 0 size) all ∙ k in
    let fits : (size == size) ≡ true = ground arith in
    ground (arith, e, g, n, k', fits)
    ∙ ap (λ x. some ((success, record { buf = some (record { at = a; bytes = x }); list = l }), t))
        all

-- A buffer of at most 128 well-formed SIDs, of fewer than 2^32 - 4 bytes, is taken whole, and after
-- that a well-formed SID gets its number among those behind the first, or 0; only memory can be
-- missing. Neither call leaves the buffer, the old list is freed, and the new one is the only other
-- block.
pub set_sid_list-IsSidList :
    (ss : List Bytes) (sid : Bytes) (s : Sids) (p : Pool) (rest : List ℕ)
    → Owns p (name_blocks s.buf ++ rest)
    → IsSid sid
    → All IsSid ss
    → length ss ≤ max_sids_count
    → length (encode ss) + 4 < 2 ^ 32
    → (st : Status) × (s' : Sids) × (q : Pool) × (set_sid_list
          (some (encode ss))
          (length (encode ss))
          s
          p
        ≡ some ((st, s'), q))
      × IsSidList ss sid st s'
      × Owns q (name_blocks s'.buf ++ rest)
unfolding set_sid_list
set_sid_list-IsSidList [] sid s p rest o v w c f =
    let (q, e, o') = free_name_owned s.buf p rest o in
    (success, no_sids, q, ground (arith, e), inr (refl, get_sid_id_none sid), o')
set_sid_list-IsSidList (x ∷ xs) sid s p rest o v w c f =
    let ss = x ∷ xs in
    let (q, e, o') = free_name_owned s.buf p rest o in
    elim (ex_allocate_pool_cases q rest o') [
      | inl (t, g, o'') ↦
          (insufficient_resources, no_sids, t, ground (arith, e, g), inl (refl, refl), o'')
      | inr (a, t, g, o'') ↦
          let all : take (length (encode ss)) (encode ss) ≡ encode ss =
            take_of_length-le (length (encode ss)) (encode ss) (omega arith) in
          let k = parse-encode ss max_sids_count 0 [] (encode ss) refl refl w c f in
          (
            success,
            record { buf = some (record { at = a; bytes = encode ss }); list = offsets 0 ss },
            t,
            set_sid_list_run (encode ss) (length (encode ss)) a (offsets 0 ss) s p q t e g
                (ground arith) all k,
            inr (refl, get_sid_id-number_of ss a sid v w),
            o'',
          )
    ]
