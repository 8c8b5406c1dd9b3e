-- ===== src/Sids/Current.antt =====
-- The SID of the caller, in a block of its own.
use adfilter.Prelude.{
  ℕ, ◌≡◌, refl, inl, inr, List, ◌∷◌, ◌++◌, Option, none, some, Bool, true, false, arith,
}
use adfilter.Pool.{Pool, Block, Owns, ex_allocate_pool, ex_allocate_pool_cases, ex_free_pool_owned}
use adfilter.Process.Invariant.{name_blocks}
use adfilter.Sids.{
  Query, written, buffer_too_small, query_failed, Open, opened, no_token, open_failed, end_query,
  query_again, query_token, get_current_sid_a,
}

-- The call returned, and the block that it gives is the only new one.
abbrev pub Gives : Option ((Option Block × ℕ) × Pool) → List ℕ → Type 0
Gives r rest =
    (sid_a : Option Block) × (size : ℕ) × (q : Pool) × (r ≡ some ((sid_a, size), q))
    × Owns q (name_blocks sid_a ++ rest)

end_query-Gives :
    (a : ℕ) (x : Query) (p : Pool) (rest : List ℕ)
    → Owns p (a ∷ rest)
    → Gives (end_query a x p) rest
unfolding end_query
end_query-Gives a (written sid size) p rest o =
    (some (record { at = a; bytes = sid }), size, p, refl, o)
end_query-Gives a (buffer_too_small size) p rest o =
    let (q, e, o') = ex_free_pool_owned a p rest o in (none, 0, q, ground (arith, e), o')
end_query-Gives a query_failed p rest o =
    let (q, e, o') = ex_free_pool_owned a p rest o in (none, 0, q, ground (arith, e), o')

query_again-Gives :
    (a : ℕ) (x : Query) (p : Pool) (rest : List ℕ)
    → Owns p (a ∷ rest)
    → Gives (query_again a x p) rest
unfolding query_again
query_again-Gives a x p rest o =
    let (q, e, o') = ex_free_pool_owned a p rest o in
    elim (ex_allocate_pool_cases q rest o') [
      | inl (t, f, o'') ↦ (none, 0, t, ground (arith, e, f), o'')
      | inr (b, t, f, o'') ↦
          (let (sid_a, size, u, g, k) = end_query-Gives b x t rest o'' in
            (sid_a, size, u, ground (arith, e, f, g), k))
    ]

query_token-Gives :
    (first second : Query) (p : Pool) (rest : List ℕ)
    → Owns p rest
    → Gives (query_token first second p) rest
unfolding query_token
query_token-Gives first second p rest o = elim (ex_allocate_pool_cases p rest o) [
  | inl (t, f, o') ↦ (none, 0, t, ground (arith, f), o')
  | inr (a, t, f, o') ↦ go first a t f o'
]
  where
    go :
        (first : Query) (a : ℕ) (t : Pool)
        → ex_allocate_pool p ≡ some (some a, t)
        → Owns t (a ∷ rest)
        → Gives (query_token first second p) rest
    go (written sid size) a t f o =
        let (sid_a, size, u, g, k) = end_query-Gives a (written sid size) t rest o in
        (sid_a, size, u, ground (arith, f, g), k)
    go (buffer_too_small size) a t f o =
        let (sid_a, size, u, g, k) = query_again-Gives a second t rest o in
        (sid_a, size, u, ground (arith, f, g), k)
    go query_failed a t f o =
        let (sid_a, size, u, g, k) = end_query-Gives a query_failed t rest o in
        (sid_a, size, u, ground (arith, f, g), k)

-- Whatever the kernel answers, get_current_sid_a returns, and the block of the SID that it gives, if
-- it gives one, is the only block that it leaves live.
get_current_sid_a-Gives :
    (token : Open) (process : Bool) (first second : Query) (p : Pool) (rest : List ℕ)
    → Owns p rest
    → Gives (get_current_sid_a token process first second p) rest
unfolding get_current_sid_a
get_current_sid_a-Gives opened process first second p rest o =
    query_token-Gives first second p rest o
get_current_sid_a-Gives no_token true first second p rest o =
    query_token-Gives first second p rest o
get_current_sid_a-Gives no_token false first second p rest o = (none, 0, p, refl, o)
get_current_sid_a-Gives open_failed process first second p rest o = (none, 0, p, refl, o)
