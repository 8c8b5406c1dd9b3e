-- ===== src/ConnCtx/Refinement.antt =====
-- The table as a map from an address object and a connection context to a connection object.
use adfilter.Prelude.{
  ℕ, ◌≡◌, ◌≢◌, refl, sym, ap, subst, ◌∙◌, ◌⊎◌, inl, inr, List, [], ◌∷◌, ◌++◌, Option, none, some,
  true, ◌&&◌, if◌then◌else◌, ◌==◌, arith, Bool-cases, Option-cases,
}
use adfilter.Pool.{Pool, Owns, ex_allocate_pool_cases, ex_free_pool_owned}
use adfilter.ConnCtx.{
  CtxEntry, Contexts, Status, success, insufficient_resources, object_name_not_found, calc_hash_2,
  find_cte, update, set_connobj, ot_add_conn_ctx, unlink_cte, ot_del_conn_ctx,
}
use adfilter.ConnCtx.Chains.{
  IsContexts, the_connobj, view, assign, Agree, find_cte-set_connobj, find_cte-unlink_cte,
  unlink_cte-IsDistinct, set_connobj-IsDistinct, update-IsContexts, view-update,
}

viewed :
    (addrobj conn_ctx : ℕ) (t : Contexts)
    → find_cte addrobj conn_ctx (t (calc_hash_2 addrobj conn_ctx)) ≡ none
    → view t addrobj conn_ctx ≡ none
unfolding view
viewed addrobj conn_ctx t f = ap the_connobj f

module _ (addrobj conn_ctx connobj : ℕ) where
  found_first :
      (e : CtxEntry) (a c : ℕ) (es : List CtxEntry)
      → e.addrobj ≡ addrobj
      → e.conn_ctx ≡ conn_ctx
      → e.connobj ≡ connobj
      → the_connobj (find_cte a c (e ∷ es))
        ≡ (if a == addrobj && c == conn_ctx then some connobj else the_connobj (find_cte a c es))
  unfolding find_cte
  found_first e a c es e1 e2 e3 = ground (arith, e1, e2, e3)

abbrev pub entry_blocks : Option CtxEntry → List ℕ
entry_blocks none = []
entry_blocks (some e) = e.at ∷ []

-- A context is added to a table of distinct keys: the table stays one, and as a map it has the object
-- under that key and is unchanged elsewhere, with a new block only where the key is new; or the key is
-- new, there is no memory, and nothing changes.
pub ot_add_conn_ctx-assign :
    (addrobj conn_ctx connobj : ℕ) (t : Contexts) (p : Pool) (rest : List ℕ)
    → IsContexts t
    → Owns p rest
    → ((q : Pool) × (ot_add_conn_ctx addrobj conn_ctx connobj t p
          ≡ some ((insufficient_resources, t), q))
        × (view t addrobj conn_ctx ≡ none)
        × Owns q rest)
      ⊎ ((t' : Contexts) × (q : Pool) × (new : List ℕ) × (ot_add_conn_ctx addrobj conn_ctx connobj t
              p
            ≡ some ((success, t'), q))
          × IsContexts t'
          × Agree (view t') (assign addrobj conn_ctx (some connobj) (view t))
          × Owns q (new ++ rest)
          × ((new ≡ []) ⊎ (view t addrobj conn_ctx ≡ none)))
unfolding ot_add_conn_ctx
ot_add_conn_ctx-assign addrobj conn_ctx connobj t p rest w o =
    let h = calc_hash_2 addrobj conn_ctx in
    elim (Option-cases (find_cte addrobj conn_ctx (t h))) [
      | inr (e, f) ↦ inr (
        update h (set_connobj addrobj conn_ctx connobj (t h)) t,
        p,
        [],
        ground (arith, f),
        update-IsContexts h _ t w (set_connobj-IsDistinct addrobj conn_ctx connobj (t h) (w h)),
        view-update addrobj conn_ctx (some connobj) _ t (λ a c.
            find_cte-set_connobj addrobj conn_ctx connobj a c (t h)
            ∙ ap
                (λ x.
                  if a == addrobj && c == conn_ctx
                  then elim x [ none ↦ none | some e ↦ some connobj ]
                  else the_connobj (find_cte a c (t h)))
                f),
        o,
        inl refl,
      )
      | inl f ↦ elim (ex_allocate_pool_cases p rest o) [
        | inl (q, g, o') ↦ inl (q, ground (arith, f, g), viewed addrobj conn_ctx t f, o')
        | inr (b, q, g, o') ↦
            let e : CtxEntry = record {
              at = b;
              addrobj = addrobj;
              conn_ctx = conn_ctx;
              connobj = connobj;
            } in
            inr (
              update h (e ∷ t h) t,
              q,
              b ∷ [],
              ground (arith, f, g),
              update-IsContexts h _ t w (f, w h),
              view-update addrobj conn_ctx (some connobj) _ t
                  (λ a c. found_first addrobj conn_ctx connobj e a c (t h) refl refl refl),
              o',
              inr (viewed addrobj conn_ctx t f),
            )
      ]
    ]

-- The end of a context of a table of distinct keys takes its key out of the map and frees the block of
-- its entry; a key that is not there is reported. The other keys are as they were.
pub ot_del_conn_ctx-assign :
    (addrobj conn_ctx : ℕ) (t : Contexts) (p : Pool) (rest : List ℕ)
    → IsContexts t
    → Owns p (entry_blocks (find_cte addrobj conn_ctx (t (calc_hash_2 addrobj conn_ctx))) ++ rest)
    → (st : Status) × (t' : Contexts) × (q : Pool) × (ot_del_conn_ctx addrobj conn_ctx t p
        ≡ some ((st, t'), q))
      × IsContexts t'
      × Agree (view t') (assign addrobj conn_ctx none (view t))
      × Owns q rest
      × (((st ≡ success) × (view t addrobj conn_ctx ≢ none))
          ⊎ ((st ≡ object_name_not_found) × (view t addrobj conn_ctx ≡ none)))
unfolding ot_del_conn_ctx view
ot_del_conn_ctx-assign addrobj conn_ctx t p rest w o =
    let h = calc_hash_2 addrobj conn_ctx in
    elim (Option-cases (find_cte addrobj conn_ctx (t h))) [
      | inl f ↦ (
        object_name_not_found,
        t,
        p,
        ground (arith, f),
        w,
        (λ a c. elim (Bool-cases (a == addrobj && c == conn_ctx)) [
          | inl m ↦ gone a c f m
          | inr m ↦ ground (arith, m)
        ]),
        subst (λ x. Owns p (entry_blocks x ++ rest)) f o,
        inr (refl, ap the_connobj f),
      )
      | inr (e, f) ↦
          let (q, g, o') =
            ex_free_pool_owned e.at p rest (subst (λ x. Owns p (entry_blocks x ++ rest)) f o) in
          (
            success,
            update h (unlink_cte addrobj conn_ctx (t h)) t,
            q,
            ground (arith, f, g),
            update-IsContexts h _ t w (unlink_cte-IsDistinct addrobj conn_ctx 0 (t h) (w h)),
            view-update addrobj conn_ctx none _ t
                (λ a c. find_cte-unlink_cte addrobj conn_ctx 0 a c (t h) (w h)),
            o',
            inl (refl, λ x. ground (arith, sym (ap the_connobj f) ∙ x)),
          )
    ]
  where
    gone :
        (a c : ℕ)
        → find_cte addrobj conn_ctx (t (calc_hash_2 addrobj conn_ctx)) ≡ none
        → (a == addrobj && c == conn_ctx) ≡ true
        → the_connobj (find_cte a c (t (calc_hash_2 a c))) ≡ (
            if a == addrobj && c == conn_ctx
            then none
            else the_connobj (find_cte a c (t (calc_hash_2 a c))))
    gone a c f m = ground (
      arith,
      m,
      ap (λ x. the_connobj (find_cte x c (t (calc_hash_2 x c)))) (first m)
          ∙ ap (λ x. the_connobj (find_cte addrobj x (t (calc_hash_2 addrobj x)))) (second m)
          ∙ ap the_connobj f,
    )
      where
        first : (a == addrobj && c == conn_ctx) ≡ true → a ≡ addrobj
        first m = ground (arith, m)

        second : (a == addrobj && c == conn_ctx) ≡ true → c ≡ conn_ctx
        second m = ground (arith, m)
