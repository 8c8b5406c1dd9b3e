-- ===== src/RequestQueue/Get.antt =====
-- get_request: the oldest pending requests, as many as the buffer holds.
use adfilter.Prelude.{
  ℕ, zero, suc, ◌+◌, ◌-◌, ◌≤◌, ◌<◌, ◌≡◌, ◌≢◌, refl, ap, sym, subst, ◌∙◌, inl, inr, List, [], ◌∷◌,
  ◌++◌, map, some, true, false, arith, ◌==◌, ltb, if◌then◌else◌, Bool-cases,
}
use native.Mathlib.Decide.{dec_lt}
use adfilter.Pool.{Pool, pure, count, count-append}
use adfilter.Ipc.{FltRequest}
use adfilter.Process.{free_name}
use adfilter.RequestQueue.{
  Queue, request_queue_size, write, next, Item, item, item_size, emptied, get_loop, get_request,
}
use adfilter.RequestQueue.Pending.{
  slots, used, pending, request_blocks, blocks, IsQueue, slots-write,
}
use adfilter.RequestQueue.Room.{free_request}

-- The queue without its oldest request.
abbrev behind : Queue → Queue
behind q = record q { slot = write q.tail (emptied (q.slot q.tail)) q.slot; tail = next q.tail }

module _ (q : Queue) (a : q.head < request_queue_size) (b : q.tail < request_queue_size)
    (h : q.head ≢ q.tail) where
  used-behind : used q ≡ suc (used (behind q))
  used-behind = omega arith

  pending-behind : pending q ≡ q.slot q.tail ∷ pending (behind q)
  pending-behind =
      ap (slots q.slot q.tail) used-behind
      ∙ ap (◌∷◌ (q.slot q.tail)) (
          sym (
            slots-write q.slot q.tail (next q.tail) (used (behind q)) (emptied (q.slot q.tail)) b
              (omega arith) (omega arith)))

pending_none : (q : Queue) → q.head < request_queue_size → q.head ≡ q.tail → pending q ≡ []
pending_none q a h = let e : used q ≡ 0 = omega arith in ap (slots q.slot q.tail) e

module _ (struct_size : ℕ) where
  abbrev pub total : List FltRequest → ℕ
  total [] = 0
  total (r ∷ rs) = item_size struct_size r + total rs

  -- The next request, if there is one, does not fit.
  abbrev pub IsTooLong : ℕ → List FltRequest → Type 0
  IsTooLong room [] = Unit {0}
  IsTooLong room (r ∷ rs) = room < item_size struct_size r

  -- The items are those of some oldest requests, which leave the queue; they fit into the buffer,
  -- and the next one would not.
  abbrev pub IsTaken : ℕ → Queue → Queue → List Item → ℕ → Type 0
  IsTaken room q q' items size =
      (taken : List FltRequest) × (pending q ≡ taken ++ pending q')
      × (items ≡ map (item struct_size) taken)
      × (size ≡ total taken)
      × (size ≤ room)
      × IsTooLong (room - size) (pending q')

  module _ (fuel room : ℕ) (q : Queue) (p : Pool) where
    loop_end : q.head ≡ q.tail → get_loop struct_size (suc fuel) room q p ≡ some (([], 0, q), p)
    unfolding get_loop
    loop_end h = ground arith

    loop_full :
        q.head ≢ q.tail
        → room < item_size struct_size (q.slot q.tail)
        → get_loop struct_size (suc fuel) room q p ≡ some (([], 0, q), p)
    unfolding get_loop
    loop_full h f =
        let a : (q.head == q.tail) ≡ false = ground arith in
        let b : ltb room (item_size struct_size (q.slot q.tail)) ≡ true = ground arith in
        ground (arith, a, b)

    loop_more :
        (u t v : Pool) (items : List Item) (size : ℕ) (q' : Queue)
        → q.head ≢ q.tail
        → item_size struct_size (q.slot q.tail) ≤ room
        → free_name (q.slot q.tail).pname p ≡ some (tt, u)
        → free_name (q.slot q.tail).sid_a u ≡ some (tt, t)
        → get_loop struct_size fuel (room - item_size struct_size (q.slot q.tail)) (behind q) t
          ≡ some ((items, size, q'), v)
        → get_loop struct_size (suc fuel) room q p
          ≡ some (
            (
              item struct_size (q.slot q.tail) ∷ items,
              item_size struct_size (q.slot q.tail) + size,
              q',
            ),
            v,
          )
    unfolding get_loop
    loop_more u t v items size q' h r e f g =
        let a : (q.head == q.tail) ≡ false = ground arith in
        let b : ltb room (item_size struct_size (q.slot q.tail)) ≡ false = ground arith in
        ground (arith, a, b, e, f, g)

  -- No request is taken.
  nothing : (room : ℕ) (q : Queue) → IsTooLong room (pending q) → IsTaken room q q [] 0
  nothing room q long =
      let same : room ≡ room - 0 = omega arith in
      ([], refl, refl, refl, omega arith, subst (λ n. IsTooLong n (pending q)) same long)

  get_loop_lem :
      (fuel room : ℕ) (q : Queue) (p : Pool) (rest : List ℕ)
      → used q < fuel
      → IsQueue q p rest
      → (items : List Item) × (size : ℕ) × (q' : Queue) × (t : Pool) × (get_loop struct_size fuel
            room q p
          ≡ some ((items, size, q'), t))
        × IsTaken room q q' items size
        × IsQueue q' t rest
  get_loop_lem zero room q p rest f w = absurd (omega arith)
  get_loop_lem (suc fuel) room q p rest f w = elim (Bool-cases (q.head == q.tail)) [
    | inl b ↦
        let h : q.head ≡ q.tail = ground (arith, b) in
        let none_left = pending_none q w.head_in h in
        (
          [],
          0,
          q,
          p,
          loop_end fuel room q p h,
          nothing room q (subst (IsTooLong room) (sym none_left) tt),
          w,
        )
    | inr b ↦
        let h : q.head ≢ q.tail = λ e. ground (arith, b, e) in
        let split = pending-behind q w.head_in w.tail_in h in
        elim (dec_lt room (item_size struct_size (q.slot q.tail))) [
          | yes g ↦ (
            [],
            0,
            q,
            p,
            loop_full fuel room q p h g,
            nothing room q (subst (IsTooLong room) (sym split) g),
            w,
          )
          | no g ↦
              let (u, t, e, k, o) =
                free_request (q.slot q.tail) p (blocks (pending (behind q)) ++ rest) (λ b.
                  w.owned b
                  ∙ ap (λ rs. count b (blocks rs ++ rest)) split
                  ∙ omega (
                    arith,
                    count-append b (request_blocks (q.slot q.tail) ++ blocks (pending (behind q)))
                        rest,
                    count-append b (request_blocks (q.slot q.tail)) (blocks (pending (behind q))),
                    count-append b (request_blocks (q.slot q.tail))
                        (blocks (pending (behind q)) ++ rest),
                    count-append b (blocks (pending (behind q))) rest,
                  )) in
              let fewer = used-behind q w.head_in w.tail_in h in
              let (items, size, q', v, r, (taken, s, is, ts, le, last), w') =
                get_loop_lem fuel (room - item_size struct_size (q.slot q.tail)) (behind q) t rest
                  (omega (arith, fewer))
                  (record { head_in = w.head_in; tail_in = omega arith; owned = o }) in
              let left : room - item_size struct_size (q.slot q.tail) - size
                  ≡ room - (item_size struct_size (q.slot q.tail) + size) =
                omega arith in
              (
                item struct_size (q.slot q.tail) ∷ items,
                item_size struct_size (q.slot q.tail) + size,
                q',
                v,
                loop_more fuel room q p u t v items size q' h (omega arith) e k r,
                (
                  q.slot q.tail ∷ taken,
                  split ∙ ap (◌∷◌ (q.slot q.tail)) s,
                  ap (◌∷◌ (item struct_size (q.slot q.tail))) is,
                  ap (◌+◌ (item_size struct_size (q.slot q.tail))) ts,
                  omega arith,
                  subst (λ n. IsTooLong n (pending q')) left last,
                ),
                w',
              )
        ]
  ]

  -- From a well-formed queue a buffer that holds a request structure gets the oldest pending
  -- requests, in their order, as many as it has room for; they leave the queue with their blocks
  -- freed, no byte is written behind the buffer, and the loop ends within one round for each slot.
  pub get_request-IsTaken :
      (buf_size : ℕ) (q : Queue) (p : Pool) (rest : List ℕ)
      → IsQueue q p rest
      → struct_size ≤ buf_size
      → (items : List Item) × (size : ℕ) × (q' : Queue) × (t : Pool) × (get_request struct_size
            buf_size q p
          ≡ some ((items, size, q'), t))
        × IsTaken buf_size q q' items size
        × IsQueue q' t rest
  unfolding get_request
  get_request-IsTaken buf_size q p rest w f =
      let (items, size, q', t, e, k, w') =
        get_loop_lem request_queue_size buf_size q p rest (omega arith) w in
      let g : ltb buf_size struct_size ≡ false = ground arith in
      (
        items,
        size,
        q',
        t,
        ap
              (λ b.
                (if b then pure ([], 0, q) else get_loop struct_size request_queue_size buf_size q)
                  p)
              g
            ∙ e,
        k,
        w',
      )
