-- ===== src/Tdi/Object/Associate.antt =====
-- A connection object with its address object.
use adfilter.Prelude.{
  ℕ, ◌≡◌, refl, ap, ◌∙◌, ◌⊎◌, inl, inr, List, ◌++◌, none, some, arith, Option-cases,
}
use adfilter.Pool.{Pool, Owns}
use adfilter.Ipc.{filter_allow, filter_deny}
use adfilter.OtEntry.{OtEntry, ot_find_fileobj, write_object}
use adfilter.OtEntry.Find.{written, ot_find_fileobj-write_object}
use adfilter.ConnCtx.{Contexts, calc_hash_2, find_cte, ot_find_conn_ctx}
use adfilter.ConnCtx.Chains.{IsContexts, view, assign, Agree}
use adfilter.ConnCtx.Refinement.{entry_blocks, ot_add_conn_ctx-assign, ot_del_conn_ctx-assign}
use adfilter.Tdi.{World}
use adfilter.Tdi.Object.{put_net, with_associated, tdi_associate_address, tdi_disassociate_address}

found_by_view :
    (addrobj conn_ctx connobj : ℕ) (t : Contexts)
    → view t addrobj conn_ctx ≡ some connobj
    → ot_find_conn_ctx addrobj conn_ctx t ≡ connobj
unfolding view ot_find_conn_ctx
found_by_view addrobj conn_ctx connobj t h =
    elim (Option-cases (find_cte addrobj conn_ctx (t (calc_hash_2 addrobj conn_ctx)))) [
      | inl e ↦ ground (arith, e, h)
      | inr (d, e) ↦ ground (arith, e, h)
    ]

-- A known connection object that is associated with an address object is found by that object and its
-- own context, its entry says with which object it is associated, every other context keeps its
-- object, and the contexts stay distinct; where there is no memory for that, the association is
-- denied and no context changes.
tdi_associate_address-ot_find_conn_ctx :
    (addrobj connobj : ℕ) (ote : OtEntry) (w : World) (p : Pool) (rest : List ℕ)
    → ot_find_fileobj connobj w.net.objects ≡ some ote
    → IsContexts w.contexts
    → Owns p rest
    → ((w' : World) × (q : Pool) × (tdi_associate_address (some addrobj) connobj w p
          ≡ some ((filter_deny, w'), q))
        × (w'.contexts ≡ w.contexts)
        × Owns q rest)
      ⊎ ((w' : World) × (q : Pool) × (new : List ℕ) × (tdi_associate_address
              (some addrobj)
              connobj
              w
              p
            ≡ some ((filter_allow, w'), q))
          × (ot_find_conn_ctx addrobj ote.conn_ctx w'.contexts ≡ connobj)
          × (ot_find_fileobj connobj w'.net.objects ≡ some (with_associated addrobj ote))
          × Agree (view w'.contexts) (assign addrobj ote.conn_ctx (some connobj) (view w.contexts))
          × IsContexts w'.contexts
          × Owns q (new ++ rest))
unfolding tdi_associate_address
tdi_associate_address-ot_find_conn_ctx addrobj connobj ote w p rest f k o =
    let objects = write_object connobj (with_associated addrobj) w.net.objects in
    let found =
      (ot_find_fileobj-write_object connobj connobj (with_associated addrobj) w.net.objects
        (λ e. refl)).0
      ∙ ap (written (with_associated addrobj)) f in
    elim (ot_add_conn_ctx-assign addrobj ote.conn_ctx connobj w.contexts p rest k o) [
      | inl (q, e, _, o') ↦
          inl (put_net (record w.net { objects = objects }) w, q, ground (arith, f, e), refl, o')
      | inr (t, q, new, e, k', agree, o', _) ↦ inr (
        put_net (record w.net { objects = objects }) (record w { contexts = t }),
        q,
        new,
        ground (arith, f, e),
        found_by_view addrobj ote.conn_ctx connobj t
            (let a = agree addrobj ote.conn_ctx in ground (arith, a)),
        found,
        agree,
        k',
        o',
      )
    ]

lost_by_view :
    (addrobj conn_ctx : ℕ) (t : Contexts)
    → view t addrobj conn_ctx ≡ none
    → ot_find_conn_ctx addrobj conn_ctx t ≡ 0
unfolding view ot_find_conn_ctx
lost_by_view addrobj conn_ctx t h =
    elim (Option-cases (find_cte addrobj conn_ctx (t (calc_hash_2 addrobj conn_ctx)))) [
      | inl e ↦ ground (arith, e, h)
      | inr (d, e) ↦ ground (arith, e, h)
    ]

-- After a known connection object is disassociated, no object is found by its address object and its
-- context any more, the other contexts keep theirs, and the block of the context's entry, if it had
-- one, is freed.
tdi_disassociate_address-ot_find_conn_ctx :
    (connobj : ℕ) (ote : OtEntry) (w : World) (p : Pool) (rest : List ℕ)
    → ot_find_fileobj connobj w.net.objects ≡ some ote
    → IsContexts w.contexts
    → Owns p (
        entry_blocks (
          find_cte ote.associated_fileobj ote.conn_ctx
            (w.contexts (calc_hash_2 ote.associated_fileobj ote.conn_ctx)))
        ++ rest)
    → (w' : World) × (q : Pool) × (tdi_disassociate_address connobj w p
        ≡ some ((filter_allow, w'), q))
      × (ot_find_conn_ctx ote.associated_fileobj ote.conn_ctx w'.contexts ≡ 0)
      × Agree (view w'.contexts) (assign ote.associated_fileobj ote.conn_ctx none (view w.contexts))
      × IsContexts w'.contexts
      × Owns q rest
unfolding tdi_disassociate_address
tdi_disassociate_address-ot_find_conn_ctx connobj ote w p rest f k o =
    let (st, t, q, e, k', agree, o', _) =
      ot_del_conn_ctx-assign ote.associated_fileobj ote.conn_ctx w.contexts p rest k o in
    (
      record w { contexts = t },
      q,
      ground (arith, f, e),
      lost_by_view ote.associated_fileobj ote.conn_ctx t
          (let a = agree ote.associated_fileobj ote.conn_ctx in ground (arith, a)),
      agree,
      k',
      o',
    )
