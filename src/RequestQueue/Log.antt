-- ===== src/RequestQueue/Log.antt =====
-- log_request as an append to the pending requests that drops the oldest one of a full queue.
use adfilter.Prelude.{
  ℕ, suc, ◌+◌, ◌-◌, ◌%◌, ◌^◌, ◌<◌, ◌≡◌, ap, sym, ◌∙◌, inl, inr, List, [], ◌∷◌, ◌++◌, Option, none,
  some, Bool, true, false, not, ◌&&◌, arith, ◌==◌,
}
use adfilter.Pool.{Pool, Block, count, count-append}
use adfilter.Ipc.{FltRequest, type_resolve_pid}
use adfilter.Process.{Plist}
use adfilter.Process.Invariant.{name_blocks}
use adfilter.RequestQueue.{Queue, request_queue_size, write, next, log_request}
use adfilter.RequestQueue.Pending.{
  slots, pending, request_blocks, blocks, IsQueue, count-blocks, slots-snoc, slots-write,
}
use adfilter.RequestQueue.Room.{refuses, IsNameOf, copy_name_cases, IsRoom, make_room_cases}

-- The entry that a request becomes.
abbrev pub entry : FltRequest → ℕ → Option Block → FltRequest
entry r skipped name = record r { log_skipped = skipped; pname = name }

-- The oldest entry is dropped where the queue is full, and the new one says how many were skipped.
abbrev pub IsLogged : Plist → FltRequest → Pool → Queue → Queue → ℕ → Type 0
IsLogged l r p q q' skipped =
    (kept : List FltRequest) × (name : Option Block) × IsRoom (pending q) kept skipped
    × IsNameOf l r p name
    × (pending q' ≡ kept ++ entry r skipped name ∷ [])

written :
    (q : Queue) (r : FltRequest) (tail n : ℕ)
    → q.head < request_queue_size
    → tail < request_queue_size
    → n ≡ (q.head + request_queue_size - tail) % request_queue_size
    → n < request_queue_size - 1
    → pending (record { slot = write q.head r q.slot; head = next q.head; tail = tail })
      ≡ slots q.slot tail n ++ r ∷ []
written q r tail n a b e c =
    let more : (next q.head + request_queue_size - tail) % request_queue_size ≡ suc n =
      omega arith in
    let here : (tail + n) % request_queue_size ≡ q.head = omega arith in
    let now : write q.head r q.slot q.head ≡ r = ground arith in
    ap (slots (write q.head r q.slot) tail) more
    ∙ slots-snoc (write q.head r q.slot) tail n b
    ∙ ap (λ i. slots (write q.head r q.slot) tail n ++ write q.head r q.slot i ∷ []) here
    ∙ ap (λ x. slots (write q.head r q.slot) tail n ++ x ∷ []) now
    ∙ ap (λ xs. xs ++ r ∷ []) (slots-write q.slot q.head tail n r a b (omega arith))

-- The name by the pool before room was made.
named_before :
    (l : Plist) (r : FltRequest) (t p : Pool) (name : Option Block)
    → refuses t ≡ refuses p
    → IsNameOf l r t name
    → IsNameOf l r p name
named_before l r t p none e (inl a) = inl a
named_before l r t p none e (inr (inl a)) = inr (inl a)
named_before l r t p none e (inr (inr a)) = inr (inr (sym e ∙ a))
named_before l r t p (some b) e k = k

-- A request that is logged, with the SID that it owns, becomes the newest entry of a well-formed
-- queue, under the name of its process, or under none where it has no process, no name is known, or
-- the pool refuses the block for it; a full queue
-- first loses its oldest entry and frees its blocks; the caller's request no longer owns the SID.
pub log_request-IsLogged :
    (got_log : Bool) (l : Plist) (r : FltRequest) (q : Queue) (p : Pool) (rest : List ℕ)
    → IsQueue q p (name_blocks r.sid_a ++ rest)
    → (not got_log && r.kind == type_resolve_pid) ≡ false
    → (skipped : ℕ) × (q' : Queue) × (t : Pool) × (log_request got_log l r q p
        ≡ some ((true, record r { log_skipped = skipped; sid_a = none }, q'), t))
      × IsLogged l r p q q' skipped
      × IsQueue q' t rest
unfolding log_request
log_request-IsLogged got_log l r q p rest w taken =
    let (skipped, tail, t, e, tail_in, n, same, small, room, calm, o) = make_room_cases q p _ w in
    let (name, u, f, named, o') = copy_name_cases l r t _ o in
    let head_in = w.head_in in
    let now = written q (entry r skipped name) tail n w.head_in tail_in same small in
    (
      skipped,
      record { slot = write q.head (entry r skipped name) q.slot; head = next q.head; tail = tail },
      u,
      ground (arith, taken, e, f),
      (slots q.slot tail n, name, room, named_before l r t p name calm named, now),
      record {
        head_in = omega arith;
        tail_in = tail_in;
        owned = λ b.
            o' b
            ∙ omega (
              arith,
              ap (λ rs. count b (blocks rs ++ rest)) now,
              count-append b (name_blocks name)
                  (blocks (slots q.slot tail n) ++ (name_blocks r.sid_a ++ rest)),
              count-append b (blocks (slots q.slot tail n)) (name_blocks r.sid_a ++ rest),
              count-append b (name_blocks r.sid_a) rest,
              count-append b (blocks (slots q.slot tail n ++ entry r skipped name ∷ [])) rest,
              count-blocks b (slots q.slot tail n) (entry r skipped name ∷ []),
              count-append b (request_blocks (entry r skipped name)) [],
              count-append b (name_blocks name) (name_blocks r.sid_a),
            );
      },
    )

-- The requests that a list stands for: itself and those that it reports as skipped.
abbrev pub weight : List FltRequest → ℕ
weight [] = 0
weight (r ∷ rs) = suc r.log_skipped + weight rs

weight-snoc :
    (rs : List FltRequest) (r : FltRequest) → weight (rs ++ r ∷ []) ≡ weight rs + suc r.log_skipped
weight-snoc [] r = omega arith
weight-snoc (x ∷ xs) r = omega (arith, weight-snoc xs r)

IsLogged-weight :
    (l : Plist) (r : FltRequest) (p : Pool) (q q' : Queue) (skipped : ℕ)
    → IsLogged l r p q q' skipped
    → weight (pending q) < 2 ^ 32 - 1
    → weight (pending q') ≡ suc (weight (pending q))
IsLogged-weight l r p q q' skipped (kept, name, inl (k, _, s), _, now) small =
    ap weight now ∙ weight-snoc kept (entry r skipped name) ∙ omega (arith, s, ap weight k)
IsLogged-weight l r p q q' skipped (kept, name, inr (oldest, k, _, s), _, now) small =
    let before : weight (pending q) ≡ suc oldest.log_skipped + weight kept = ap weight k in
    ap weight now ∙ weight-snoc kept (entry r skipped name) ∙ omega (arith, s, before)

-- The pending entries of a well-formed queue and their counts of skipped requests together stand
-- for one request more after a request is logged, if they stood for fewer than 2^32 - 1.
log_request-weight :
    (got_log : Bool) (l : Plist) (r : FltRequest) (q : Queue) (p : Pool) (rest : List ℕ)
    → IsQueue q p (name_blocks r.sid_a ++ rest)
    → (not got_log && r.kind == type_resolve_pid) ≡ false
    → weight (pending q) < 2 ^ 32 - 1
    → (r' : FltRequest) × (q' : Queue) × (t : Pool) × (log_request got_log l r q p
        ≡ some ((true, r', q'), t))
      × (weight (pending q') ≡ suc (weight (pending q)))
log_request-weight got_log l r q p rest w taken small =
    let (skipped, q', t, e, k, _) = log_request-IsLogged got_log l r q p rest w taken in
    (
      record r { log_skipped = skipped; sid_a = none },
      q',
      t,
      e,
      IsLogged-weight l r p q q' skipped k small,
    )
