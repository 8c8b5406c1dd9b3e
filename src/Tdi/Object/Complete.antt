-- ===== src/Tdi/Object/Complete.antt =====
-- The creation of an address object whose query completes at once.
use adfilter.Prelude.{
  ℕ, ◌≡◌, ◌≢◌, refl, ◌∙◌, ◌⊎◌, inl, inr, List, [], ◌∷◌, ◌++◌, Option, none, some, Bool, true, false,
  arith,
}
use adfilter.Pool.{
  Pool, Owns, count-append, ex_allocate_pool, ex_allocate_pool_cases, ex_free_pool,
  ex_free_pool_owned,
}
use adfilter.Process.{Plist}
use adfilter.Process.Invariant.{name_blocks}
use adfilter.Process.Exit.{free_name_owned}
use adfilter.OtEntry.{OtEntry, calc_hash, find_ote, ot_find_fileobj}
use adfilter.ObjTable.{Net, success, unlink_ote, ot_del_fileobj}
use adfilter.ObjTable.Add.{end_object-idle}
use adfilter.ObjTable.Delete.{without_object, del_found}
use adfilter.ObjTable.Distinct.{IsDistinct, find_ote-unlink_ote, ot_find_fileobj-update}
use adfilter.Tdi.{World}
use adfilter.Tdi.Object.{
  put_net, Call, is_pending, call_pending, call_success, call_failed, Query, query_address,
  end_create, tdi_create_addrobj_complete,
}

-- The query takes two blocks, or none and has failed.
query_address_cases :
    (has_mdl has_devobj : Bool) (call : Call) (p : Pool) (rest : List ℕ)
    → Owns p rest
    → ((q : Pool) × (query_address has_mdl has_devobj call p ≡ some ((call_failed, none), q))
        × Owns q rest)
      ⊎ ((x : Query) × (q : Pool) × (query_address has_mdl has_devobj call p
            ≡ some ((call, some x), q))
          × Owns q (x.tai ∷ (x.ctx ∷ rest)))
unfolding query_address
query_address_cases has_mdl has_devobj call p rest o = elim (ex_allocate_pool_cases p rest o) [
  | inl (q, e, o') ↦ inl (q, ground (arith, e), o')
  | inr (a, q, e, o') ↦ elim (ex_allocate_pool_cases q (a ∷ rest) o') [
    | inl (r, f, o'') ↦
        (let (s, g, k) = ex_free_pool_owned a r rest o'' in inl (s, ground (arith, e, f, g), k))
    | inr (b, r, f, o'') ↦
        let (s, g, k) = ex_free_pool_owned b r (a ∷ rest) o'' in
        let (t, h, k') = ex_free_pool_owned a s rest k in
        go a b q r s t e f o'' g h k' has_mdl has_devobj
  ]
]
  where
    go :
        (a b : ℕ) (q r s t : Pool)
        → ex_allocate_pool p ≡ some (some a, q)
        → ex_allocate_pool q ≡ some (some b, r)
        → Owns r (b ∷ (a ∷ rest))
        → ex_free_pool b r ≡ some (tt, s)
        → ex_free_pool a s ≡ some (tt, t)
        → Owns t rest
        → (m d : Bool)
        → ((q : Pool) × (query_address m d call p ≡ some ((call_failed, none), q)) × Owns q rest)
          ⊎ ((x : Query) × (q : Pool) × (query_address m d call p ≡ some ((call, some x), q))
              × Owns q (x.tai ∷ (x.ctx ∷ rest)))
    go a b q r s t e f o g h k true true =
        inr (record { ctx = a; tai = b }, r, ground (arith, e, f), o)
    go a b q r s t e f o g h k false d = inl (t, ground (arith, e, f, g, h), k)
    go a b q r s t e f o g h k true false = inl (t, ground (arith, e, f, g, h), k)

-- The blocks of a query that was sent.
abbrev pub query_blocks : Option Query → List ℕ
query_blocks none = []
query_blocks (some x) = x.tai ∷ x.ctx ∷ []

module _ (got_log : Bool) (plist : Plist) (ticks : ℕ) where
  idle_deleted :
      (fileobj : ℕ) (ote : OtEntry) (net : Net) (p : Pool) (rest : List ℕ)
      → fileobj ≢ 0
      → find_ote fileobj (net.objects (calc_hash fileobj)) ≡ some ote
      → ote.listen_entry ≡ none
      → ote.conn_entry ≡ none
      → Owns p (name_blocks ote.sid_a ++ (ote.at ∷ rest))
      → (q : Pool) × (ot_del_fileobj got_log plist ticks fileobj net p
          ≡ some ((success, some ote.kind, without_object fileobj net), q))
        × Owns q rest
  idle_deleted fileobj ote net p rest n f l c o =
      let (q1, h1, o1) = free_name_owned ote.sid_a p (ote.at ∷ rest) o in
      let (q2, h2, o2) = ex_free_pool_owned ote.at q1 rest o1 in
      (
        q2,
        del_found got_log plist ticks fileobj ote net p net p q1 q2 n f
            (end_object-idle got_log plist ticks ote net p l c) h1 h2,
        o2,
      )

  completed :
      (fileobj : ℕ) (ote : OtEntry) (has_mdl has_devobj : Bool) (call st : Call)
      (query : Option Query) (w : World) (p q1 : Pool) (rest : List ℕ)
      → is_pending st ≡ false
      → query_address has_mdl has_devobj call p ≡ some ((st, query), q1)
      → fileobj ≢ 0
      → find_ote fileobj (w.net.objects (calc_hash fileobj)) ≡ some ote
      → ote.listen_entry ≡ none
      → ote.conn_entry ≡ none
      → Owns q1 (name_blocks ote.sid_a ++ (ote.at ∷ rest))
      → (q : Pool) × (tdi_create_addrobj_complete got_log plist ticks fileobj true has_mdl
            has_devobj call w p
          ≡ some ((query, put_net (without_object fileobj w.net) w), q))
        × Owns q rest
  unfolding tdi_create_addrobj_complete end_create
  completed fileobj ote has_mdl has_devobj call st query w p q1 rest n e z f l c o =
      let (q, g, o') = idle_deleted fileobj ote w.net q1 rest z f l c o in
      (q, ground (arith, n, e, g), o')

  gone :
      (fileobj : ℕ) (net : Net)
      → fileobj ≢ 0
      → IsDistinct (net.objects (calc_hash fileobj))
      → ot_find_fileobj fileobj (without_object fileobj net).objects ≡ none
  gone fileobj net z d =
      ot_find_fileobj-update fileobj (unlink_ote fileobj (net.objects (calc_hash fileobj)))
        net.objects z
      ∙ find_ote-unlink_ote fileobj (net.objects (calc_hash fileobj)) d

  not_pending : (call : Call) → call ≢ call_pending → is_pending call ≡ false
  not_pending call_pending n = absurd (n refl)
  not_pending call_success n = refl
  not_pending call_failed n = refl

  -- An address object whose creation succeeded loses its entry, with its SID, where the query of
  -- its address does not stay pending: whether the query succeeded at once or failed. The block of
  -- the entry and that of its SID are freed; exactly the two blocks of the query are new, if it was
  -- sent. The conditions: the object is in the table, once, and neither listens nor has a
  -- connection yet.
  pub tdi_create_addrobj_complete-ot_find_fileobj :
      (fileobj : ℕ) (ote : OtEntry) (has_mdl has_devobj : Bool) (call : Call) (w : World) (p : Pool)
      (rest : List ℕ)
      → call ≢ call_pending
      → fileobj ≢ 0
      → find_ote fileobj (w.net.objects (calc_hash fileobj)) ≡ some ote
      → IsDistinct (w.net.objects (calc_hash fileobj))
      → ote.listen_entry ≡ none
      → ote.conn_entry ≡ none
      → Owns p (name_blocks ote.sid_a ++ (ote.at ∷ rest))
      → (query : Option Query) × (w' : World) × (q : Pool) × (tdi_create_addrobj_complete got_log
            plist ticks fileobj true has_mdl has_devobj call w p
          ≡ some ((query, w'), q))
        × (ot_find_fileobj fileobj w'.net.objects ≡ none)
        × Owns q (query_blocks query ++ rest)
  tdi_create_addrobj_complete-ot_find_fileobj fileobj ote has_mdl has_devobj call w p rest n z f d l
        c o =
      elim (query_address_cases has_mdl has_devobj call p (name_blocks ote.sid_a ++ (ote.at ∷ rest))
        o) [
          | inl (q1, e, o1) ↦
              let (q, g, k) =
                completed fileobj ote has_mdl has_devobj call call_failed none w p q1 rest refl e z
                  f l c o1 in
              (none, put_net (without_object fileobj w.net) w, q, g, gone fileobj w.net z d, k)
          | inr (x, q1, e, o1) ↦
              let (q, g, k) =
                completed fileobj ote has_mdl has_devobj call call (some x) w p q1
                  (x.tai ∷ (x.ctx ∷ rest)) (not_pending call n) e z f l c
                  (λ b. omega (
                    arith,
                    o1 b,
                    count-append b (name_blocks ote.sid_a) (ote.at ∷ rest),
                    count-append b (name_blocks ote.sid_a) (ote.at ∷ (x.tai ∷ (x.ctx ∷ rest))),
                  )) in
              (some x, put_net (without_object fileobj w.net) w, q, g, gone fileobj w.net z d, k)
        ]
