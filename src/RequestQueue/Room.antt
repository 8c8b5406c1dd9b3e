-- ===== src/RequestQueue/Room.antt =====
-- Making room in the queue, and the name that goes with a request.
use adfilter.Prelude.{
  ℕ, suc, ◌+◌, ◌-◌, ◌%◌, ◌^◌, ◌<◌, ◌≡◌, ◌≢◌, Bool, false, [], refl, sym, ap, ◌∙◌, ◌⊎◌, inl, inr,
  List, ◌∷◌, ◌++◌, Option, none, some, true, arith, ◌==◌, length, Bool-cases, Option-cases,
}
use adfilter.Pool.{
  Pool, Block, Owns, count, count-append, ex_allocate_pool_cases, ex_allocate_pool, ex_free_pool,
  remove_one,
}
use adfilter.Ipc.{FltRequest, ulong_max}
use adfilter.Process.{Plist, pid_pname_resolve, free_name}
use adfilter.Process.Invariant.{name_blocks}
use adfilter.Process.Exit.{free_name_owned}
use adfilter.RequestQueue.{Queue, request_queue_size, next, resolved, copy_name, make_room}
use adfilter.RequestQueue.Pending.{
  slots, used, pending, request_blocks, blocks, IsQueue, length-slots,
}

-- The blocks of one request are freed.
pub free_request :
    (r : FltRequest) (p : Pool) (rest : List ℕ)
    → Owns p (request_blocks r ++ rest)
    → (q : Pool) × (t : Pool) × (free_name r.pname p ≡ some (tt, q))
      × (free_name r.sid_a q ≡ some (tt, t))
      × Owns t rest
free_request r p rest o =
    let order : Owns p (name_blocks r.pname ++ (name_blocks r.sid_a ++ rest)) = λ b.
      o b
      ∙ omega (
        arith,
        count-append b (request_blocks r) rest,
        count-append b (name_blocks r.pname) (name_blocks r.sid_a),
        count-append b (name_blocks r.pname) (name_blocks r.sid_a ++ rest),
        count-append b (name_blocks r.sid_a) rest,
      ) in
    let (q, e, o') = free_name_owned r.pname p _ order in
    let (t, f, o'') = free_name_owned r.sid_a q rest o' in (q, t, e, f, o'')

-- Whether the next allocation fails.
abbrev pub refuses : Pool → Bool
refuses p = elim p.replies [ [] ↦ true | r ∷ rs ↦ elim r [ none ↦ true | some a ↦ false ] ]

refuses-ex_allocate_pool : (p q : Pool) → ex_allocate_pool p ≡ some (none, q) → refuses p ≡ true
unfolding ex_allocate_pool
refuses-ex_allocate_pool p q e = go p.replies refl
  where
    go : (rs : List (Option ℕ)) → p.replies ≡ rs → refuses p ≡ true
    go [] h = ground (arith, h)
    go (none ∷ rs) h = ground (arith, h)
    go (some a ∷ rs) h = absurd (ground (arith, e, h))

refuses-ex_free_pool :
    (a : ℕ) (p q : Pool) → ex_free_pool a p ≡ some (tt, q) → refuses q ≡ refuses p
unfolding ex_free_pool
refuses-ex_free_pool a p q e = elim (Option-cases (remove_one a p.live)) [
  | inl n ↦ absurd (ground (arith, e, n))
  | inr (xs, n) ↦
      let same : record p { live = xs } ≡ q = ground (arith, e, n) in ap refuses (sym same)
]

refuses-free_name :
    (n : Option Block) (p q : Pool) → free_name n p ≡ some (tt, q) → refuses q ≡ refuses p
unfolding free_name
refuses-free_name none p q e = let same : p ≡ q = ground (arith, e) in ap refuses (sym same)
refuses-free_name (some b) p q e = refuses-ex_free_pool b.at p q e

-- The name that goes with a request: that of its process, and none only where there is no process,
-- the process has no known name, or the pool refuses the block.
abbrev pub IsNameOf : Plist → FltRequest → Pool → Option Block → Type 0
IsNameOf l r p none =
    (r.pid ≡ ulong_max) ⊎ (resolved (pid_pname_resolve r.pid 256 l) ≡ none) ⊎ (refuses p ≡ true)
IsNameOf l r p (some b) =
    (r.pid ≢ ulong_max) × (resolved (pid_pname_resolve r.pid 256 l) ≡ some b.bytes)

pub copy_name_cases :
    (l : Plist) (r : FltRequest) (p : Pool) (rest : List ℕ)
    → Owns p rest
    → (n : Option Block) × (q : Pool) × (copy_name l r.pid p ≡ some (n, q))
      × IsNameOf l r p n
      × Owns q (name_blocks n ++ rest)
unfolding copy_name
copy_name_cases l r p rest o = elim (Bool-cases (r.pid == ulong_max)) [
  | inl h ↦ (none, p, ground (arith, h), inl (ground (arith, h)), o)
  | inr h ↦ elim (Option-cases (resolved (pid_pname_resolve r.pid 256 l))) [
    | inl n ↦ (none, p, ground (arith, h, n), inr (inl n), o)
    | inr (name, n) ↦ elim (ex_allocate_pool_cases p rest o) [
      | inl (q, e, o') ↦
          (none, q, ground (arith, h, n, e), inr (inr (refuses-ex_allocate_pool p q e)), o')
      | inr (a, q, e, o') ↦ (
        some (record { at = a; bytes = name }),
        q,
        ground (arith, h, n, e),
        (λ z. ground (arith, h, z), n),
        o',
      )
    ]
  ]
]

-- What is left of the pending requests, and the number that is reported as skipped.
abbrev pub IsRoom : List FltRequest → List FltRequest → ℕ → Type 0
IsRoom old kept skipped =
    ((kept ≡ old) × (suc (length old) < request_queue_size) × (skipped ≡ 0))
    ⊎ ((oldest : FltRequest) × (old ≡ oldest ∷ kept)
        × (suc (length old) ≡ request_queue_size)
        × (skipped ≡ (oldest.log_skipped + 1) % 2 ^ 32))

pub make_room_full :
    (q : Queue) (p u t : Pool)
    → (next q.head == q.tail) ≡ true
    → free_name (q.slot q.tail).pname p ≡ some (tt, u)
    → free_name (q.slot q.tail).sid_a u ≡ some (tt, t)
    → make_room q p ≡ some ((((q.slot q.tail).log_skipped + 1) % 2 ^ 32, next q.tail), t)
unfolding make_room
make_room_full q p u t h e f = ground (arith, h, e, f)

module _ (q : Queue) (p : Pool) (rest : List ℕ) (w : IsQueue q p rest) where
  pub make_room_cases :
      (skipped tail : ℕ) × (t : Pool) × (make_room q p ≡ some ((skipped, tail), t))
      × (tail < request_queue_size)
      × (n : ℕ) × (n ≡ (q.head + request_queue_size - tail) % request_queue_size)
      × (n < request_queue_size - 1)
      × IsRoom (pending q) (slots q.slot tail n) skipped
      × (refuses t ≡ refuses p)
      × Owns t (blocks (slots q.slot tail n) ++ rest)
  unfolding make_room
  make_room_cases = elim (Bool-cases (next q.head == q.tail)) [
    | inr h ↦
        let a = w.head_in in
        let b = w.tail_in in
        let size = length-slots q.slot q.tail (used q) in
        (
          0,
          q.tail,
          p,
          ground (arith, h),
          w.tail_in,
          used q,
          refl,
          ground (arith, h),
          inl (refl, ground (arith, h, size), refl),
          refl,
          w.owned,
        )
    | inl h ↦
        let a = w.head_in in
        let b = w.tail_in in
        let k : next q.head ≡ q.tail = ground (arith, h) in
        let full : used q ≡ suc 1022 = omega arith in
        let split : pending q ≡ q.slot q.tail ∷ slots q.slot (next q.tail) 1022 =
          ap (slots q.slot q.tail) full in
        let (u, t, e, f, o) =
          free_request (q.slot q.tail) p (blocks (slots q.slot (next q.tail) 1022) ++ rest) (λ b.
            w.owned b
            ∙ ap (λ rs. count b (blocks rs ++ rest)) split
            ∙ omega (
              arith,
              count-append b
                  (request_blocks (q.slot q.tail) ++ blocks (slots q.slot (next q.tail) 1022)) rest,
              count-append b (request_blocks (q.slot q.tail))
                  (blocks (slots q.slot (next q.tail) 1022)),
              count-append b (request_blocks (q.slot q.tail))
                  (blocks (slots q.slot (next q.tail) 1022) ++ rest),
              count-append b (blocks (slots q.slot (next q.tail) 1022)) rest,
            )) in
        let size = length-slots q.slot q.tail (used q) in
        (
          ((q.slot q.tail).log_skipped + 1) % 2 ^ 32,
          next q.tail,
          t,
          make_room_full q p u t h e f,
          omega arith,
          1022,
          omega arith,
          omega arith,
          inr (q.slot q.tail, split, omega (arith, size), refl),
          refuses-free_name (q.slot q.tail).sid_a u t f
              ∙ refuses-free_name (q.slot q.tail).pname p u e,
          o,
        )
  ]
