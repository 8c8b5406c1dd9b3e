-- ===== src/ConnCtx.antt =====
-- sys/tdi_fw/src/obj_tbl.c: the connection objects by address object and connection context. A chain
-- of the hash table is the list of its entries in the order of `next`; pointers have 32 bits.
pub mod Chains
pub mod Refinement
use adfilter.Prelude.{
  ℕ, zero, suc, ◌+◌, ◌*◌, ◌/◌, ◌%◌, List, [], ◌∷◌, Option, none, some, Bool, true, false, ◌&&◌,
  ◌==◌, if◌then◌else◌,
}
use adfilter.Pool.{M, pure, ◌>>=◌, ◌>>◌, ex_allocate_pool, ex_free_pool}
use adfilter.OtEntry.{calc_hash}

-- struct ctx_entry, at its address.
pub record CtxEntry : Type 0 where
  pub at : ℕ
  pub addrobj : ℕ
  pub conn_ctx : ℕ
  pub connobj : ℕ

abbrev pub Contexts : Type 0
Contexts = ℕ → List CtxEntry

pub data Status : Type 0 where
  success insufficient_resources object_name_not_found : Status

-- The exclusive or of the lowest bits.
unfoldable pub xor : ℕ → ℕ → ℕ → ℕ
xor zero a b = 0
xor (suc bits) a b = (a % 2 + b % 2) % 2 + 2 * xor bits (a / 2) (b / 2)

-- CALC_HASH_2
abbrev pub calc_hash_2 : ℕ → ℕ → ℕ
calc_hash_2 addrobj conn_ctx = calc_hash (xor 32 addrobj conn_ctx)

abbrev pub is_context : ℕ → ℕ → CtxEntry → Bool
is_context addrobj conn_ctx cte = cte.addrobj == addrobj && cte.conn_ctx == conn_ctx

unfoldable pub find_cte : ℕ → ℕ → List CtxEntry → Option CtxEntry
find_cte addrobj conn_ctx [] = none
find_cte addrobj conn_ctx (cte ∷ more) =
    let rest = find_cte addrobj conn_ctx more in
    if is_context addrobj conn_ctx cte then some cte else rest

abbrev pub update : ℕ → List CtxEntry → Contexts → Contexts
update h ctes t j = if j == h then ctes else t j

-- cte->connobj = connobj, in the entry that the search gave.
unfoldable pub set_connobj : ℕ → ℕ → ℕ → List CtxEntry → List CtxEntry
set_connobj addrobj conn_ctx connobj [] = []
set_connobj addrobj conn_ctx connobj (cte ∷ more) =
    let rest = set_connobj addrobj conn_ctx connobj more in
    if is_context addrobj conn_ctx cte then record cte { connobj = connobj } ∷ more else cte ∷ rest

unfoldable pub ot_add_conn_ctx : ℕ → ℕ → ℕ → Contexts → M (Status × Contexts)
ot_add_conn_ctx addrobj conn_ctx connobj t =
    let h = calc_hash_2 addrobj conn_ctx in
    elim (find_cte addrobj conn_ctx (t h)) [
      | none ↦ do
        cte ← ex_allocate_pool
        elim cte [
          | none ↦ pure (insufficient_resources, t)
          | some a ↦
              let e : CtxEntry = record {
                at = a;
                addrobj = addrobj;
                conn_ctx = conn_ctx;
                connobj = connobj;
              } in
              pure (success, update h (e ∷ t h) t)
        ]
      | some cte ↦ pure (success, update h (set_connobj addrobj conn_ctx connobj (t h)) t)
    ]

unfoldable pub unlink_cte : ℕ → ℕ → List CtxEntry → List CtxEntry
unlink_cte addrobj conn_ctx [] = []
unlink_cte addrobj conn_ctx (cte ∷ more) =
    let rest = unlink_cte addrobj conn_ctx more in
    if is_context addrobj conn_ctx cte then more else cte ∷ rest

unfoldable pub ot_del_conn_ctx : ℕ → ℕ → Contexts → M (Status × Contexts)
ot_del_conn_ctx addrobj conn_ctx t =
    let h = calc_hash_2 addrobj conn_ctx in
    elim (find_cte addrobj conn_ctx (t h)) [
      | none ↦ pure (object_name_not_found, t)
      | some cte ↦ do
        ex_free_pool cte.at
        pure (success, update h (unlink_cte addrobj conn_ctx (t h)) t)
    ]

abbrev pub connobj_of : Option CtxEntry → ℕ
connobj_of none = 0
connobj_of (some cte) = cte.connobj

unfoldable pub ot_find_conn_ctx : ℕ → ℕ → Contexts → ℕ
ot_find_conn_ctx addrobj conn_ctx t =
    connobj_of (find_cte addrobj conn_ctx (t (calc_hash_2 addrobj conn_ctx)))
