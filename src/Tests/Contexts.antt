-- ===== src/Tests/Contexts.antt =====
-- The contexts of the connection of Connections, and the state of the handlers.
use adfilter.Prelude.{ℕ, ◌≡◌, ◌≢◌, refl, ◌⊎◌, List, [], ◌∷◌, ◌++◌, none, some}
use adfilter.Pool.{Pool, Owns}
use adfilter.ConnCtx
use adfilter.ConnCtx.{
  Contexts, CtxEntry, xor, find_cte, calc_hash_2, ot_find_conn_ctx, ot_add_conn_ctx,
  ot_del_conn_ctx,
}
use adfilter.ConnCtx.Chains.{IsContexts, view, assign, Agree, update-IsContexts}
use adfilter.ConnCtx.Refinement.{ot_add_conn_ctx-assign, ot_del_conn_ctx-assign}
use adfilter.ObjTable.{Net}
use adfilter.Tdi.{World}
use adfilter.Tests.Connections.{with_block, net}
use adfilter.Tests.Queries.{adf_ad}

-- The context 5 of the address object stands for the connection object.
abbrev pub cte : CtxEntry
cte = record { at = 30; addrobj = 0x40; conn_ctx = 5; connobj = 0x20 }

abbrev pub no_contexts : Contexts
no_contexts _ = []

abbrev pub contexts : Contexts
contexts = ConnCtx.update (calc_hash_2 0x40 5) (cte ∷ []) no_contexts

no_cte : find_cte 0x40 5 [] ≡ none
unfolding find_cte
no_cte = refl

contexts-IsContexts : IsContexts contexts
contexts-IsContexts =
    update-IsContexts (calc_hash_2 0x40 5) (cte ∷ []) no_contexts (λ h. tt) (no_cte, tt)

ot_add_conn_ctx-assign_example :
    ((q : Pool) × (ot_add_conn_ctx 0x40 6 0x60 contexts with_block
        ≡ some ((ConnCtx.Status.insufficient_resources, contexts), q))
      × (view contexts 0x40 6 ≡ none)
      × Owns q (8 ∷ []))
    ⊎ ((t : Contexts) × (q : Pool) × (new : List ℕ) × (ot_add_conn_ctx 0x40 6 0x60 contexts
            with_block
          ≡ some ((ConnCtx.Status.success, t), q))
        × IsContexts t
        × Agree (view t) (assign 0x40 6 (some 0x60) (view contexts))
        × Owns q (new ++ (8 ∷ []))
        × ((new ≡ []) ⊎ (view contexts 0x40 6 ≡ none)))
ot_add_conn_ctx-assign_example =
    ot_add_conn_ctx-assign 0x40 6 0x60 contexts with_block (8 ∷ []) contexts-IsContexts (λ b. refl)

abbrev with_cte : Pool
with_cte = record { live = 30 ∷ 8 ∷ []; replies = [] }

ot_del_conn_ctx-assign_example :
    (st : ConnCtx.Status) × (t : Contexts) × (q : Pool) × (ot_del_conn_ctx 0x40 5 contexts with_cte
      ≡ some ((st, t), q))
    × IsContexts t
    × Agree (view t) (assign 0x40 5 none (view contexts))
    × Owns q (8 ∷ [])
    × (((st ≡ ConnCtx.Status.success) × (view contexts 0x40 5 ≢ none))
        ⊎ ((st ≡ ConnCtx.Status.object_name_not_found) × (view contexts 0x40 5 ≡ none)))
unfolding find_cte xor
ot_del_conn_ctx-assign_example =
    ot_del_conn_ctx-assign 0x40 5 contexts with_cte (8 ∷ []) contexts-IsContexts (λ b. refl)

pub found_connobj : ot_find_conn_ctx 0x40 5 contexts ≡ 0x20
unfolding ot_find_conn_ctx find_cte xor
found_connobj = refl

abbrev pub world_of : Net → World
world_of n = record {
  net = n;
  contexts = contexts;
  adf = adf_ad;
  traffic = record { total_in = 0; total_out = 0; counted_in = 0; counted_out = 0 };
}

abbrev pub world : World
world = world_of net
