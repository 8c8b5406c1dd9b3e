-- ===== src/ObjTable/Ends.antt =====
-- sys/tdi_fw/src/obj_tbl.c: start and end of the table of file objects, ot_init and ot_free. The table
-- of objects and that of contexts are at a block of the pool, or NULL. The calls of
-- the transport by ot_free are its output; whether the IRP of a call can be built is an input, and the
-- loop goes on where it cannot.
pub mod Disconnects
use adfilter.Prelude.{
  ℕ, zero, suc, List, [], ◌∷◌, ◌++◌, Option, none, some, Bool, true, false, ◌==◌, if◌then◌else◌,
}
use adfilter.Pool.{Block, M, pure, fault, ◌>>=◌, ◌>>◌, ex_allocate_pool, ex_free_pool}
use adfilter.Process.{free_name}
use adfilter.Listen.{Entry, Table, del_listen_obj}
use adfilter.OtEntry.{
  OtEntry, EventContext, Objects, fileobj_addrobj, fileobj_connobj, hash_size, update,
}
use adfilter.ConnCtx.{CtxEntry, Contexts}
use adfilter.TcpConn.{Conns, del_tcp_conn_obj}

-- Where the two tables are.
pub record Places : Type 0 where
  pub ot_hash : Option ℕ
  pub cte_hash : Option ℕ

-- Whether there was memory, and the pointers; the first is not cleared where it is freed.
unfoldable pub ot_init : M (Bool × Places)
ot_init = do
  objects ← ex_allocate_pool
  elim objects [
    | none ↦ pure (false, record { ot_hash = none; cte_hash = none })
    | some a ↦ do
      contexts ← ex_allocate_pool
      elim contexts [
        | none ↦ do ex_free_pool a; pure (false, record { ot_hash = some a; cte_hash = none })
        | some b ↦ pure (true, record { ot_hash = some a; cte_hash = some b })
      ]
  ]

-- The calls of the transport at the end: the client's event handler is set again, or a connection is
-- released.
pub data Call : Type 0 where
  set_event_handler : (addrobj event_type handler context : ℕ) → Call
  disconnect : (connobj : ℕ) → Call

-- The first event from `j` on, of `n`, that has a handler.
unfoldable pub first_event : ℕ → ℕ → (ℕ → EventContext) → Option ℕ
first_event zero j ctx = none
first_event (suc n) j ctx =
    let rest = first_event n (suc j) ctx in if (ctx j).old_handler == 0 then rest else some j

-- ote->ctx[j].old_handler = NULL
abbrev pub without_handler : ℕ → OtEntry → OtEntry
without_handler j e = record e {
  ctx = λ i. if i == j then record (e.ctx i) { old_handler = 0 } else e.ctx i;
}

abbrev pub processed_addrobj : OtEntry → OtEntry
processed_addrobj e = record e { listen_entry = none; fileobj = 0 }

abbrev pub processed_connobj : OtEntry → OtEntry
processed_connobj e = record e { conn_entry = none; fileobj = 0 }

unfoldable pub leave_listen : Option Entry → Table → M Table
leave_listen none t = pure t
leave_listen (some e) t = del_listen_obj e t

-- Whether it is connected: the remote address is not 0.
abbrev pub chosen : OtEntry → ℕ → ℕ
chosen e connobj = if e.remote_addr.sin_addr == 0 then connobj else e.fileobj

-- What one pass over a chain gives: the chain, the tables, the event handler to restore, and the
-- connection object to disconnect, 0 for none.
pub record Pass : Type 0 where
  pub chain : List OtEntry
  pub listens : Table
  pub conns : Conns
  pub event : Option Call
  pub connobj : ℕ

abbrev pub in_front : OtEntry → Pass → Pass
in_front e r = record r { chain = e ∷ r.chain }

-- The tick count of del_tcp_conn_obj.
module _ (ticks : ℕ) where
  unfoldable pub leave_conn : Option ℕ → Conns → M Conns
  leave_conn none c = pure c
  leave_conn (some a) c = del_tcp_conn_obj ticks a c

  unfoldable pub pass : List OtEntry → ℕ → Table → Conns → M Pass
  pass [] connobj t c =
      pure (record { chain = []; listens = t; conns = c; event = none; connobj = connobj })
  pass (e ∷ more) connobj t c = elim (e.fileobj == 0) [
    | true ↦ do r ← pass more connobj t c; pure (in_front e r)
    | false ↦ elim (e.kind == fileobj_addrobj) [
      | true ↦ elim (first_event 11 0 e.ctx) [
        | some j ↦ pure (record {
          chain = without_handler j e ∷ more;
          listens = t;
          conns = c;
          event = some (set_event_handler e.fileobj j (e.ctx j).old_handler (e.ctx j).old_context);
          connobj = connobj;
        })
        | none ↦ do
          t' ← leave_listen e.listen_entry t
          r ← pass more connobj t' c
          pure (in_front (processed_addrobj e) r)
      ]
      | false ↦ elim (e.kind == fileobj_connobj) [
        | true ↦ do
          c' ← leave_conn e.conn_entry c
          r ← pass more (chosen e connobj) t c'
          pure (in_front (processed_connobj e) r)
        | false ↦ do r ← pass more connobj t c; pure (in_front e r)
      ]
    ]
  ]

  -- The call that a pass leads to.
  unfoldable pub next_call : Pass → Option Call
  next_call r = elim r.event [
    | some call ↦ some call
    | none ↦ if r.connobj == 0 then none else some (disconnect r.connobj)
  ]

  -- The passes over one chain, on fuel, and the calls that are made; `none` is a fault, and no fuel is
  -- one.
  unfoldable pub passes :
      (builds : Call → Bool)
      → ℕ
      → List OtEntry
      → Table
      → Conns
      → M (List Call × List OtEntry × Table × Conns)
  passes builds zero es t c = fault
  passes builds (suc n) es t c = do
    r ← pass es 0 t c
    elim (next_call r) [
      | none ↦ pure ([], r.chain, r.listens, r.conns)
      | some call ↦ do
        (calls, es', t', c') ← passes builds n r.chain r.listens r.conns
        pure (if builds call then call ∷ calls else calls, es', t', c')
    ]

unfoldable pub free_entries : List OtEntry → M (Unit {0})
free_entries [] = pure tt
free_entries (e ∷ more) = do free_name e.sid_a; ex_free_pool e.at; free_entries more

unfoldable pub free_contexts : List CtxEntry → M (Unit {0})
free_contexts [] = pure tt
free_contexts (e ∷ more) = do ex_free_pool e.at; free_contexts more

-- The chains of `n` hashes from `i` on.
unfoldable pub free_objects : ℕ → ℕ → Objects → M (Unit {0})
free_objects zero i t = pure tt
free_objects (suc n) i t = do free_entries (t i); free_objects n (suc i) t

unfoldable pub free_all_contexts : ℕ → ℕ → Contexts → M (Unit {0})
free_all_contexts zero i t = pure tt
free_all_contexts (suc n) i t = do free_contexts (t i); free_all_contexts n (suc i) t

-- The second half of ot_free, for the table that the first half left.
unfoldable pub clear_tables : Places → Objects → Contexts → M Places
clear_tables places objects contexts = elim places.ot_hash [
  | none ↦ pure places
  | some a ↦ do
    free_objects hash_size 0 objects
    ex_free_pool a
    elim places.cte_hash [
      | none ↦ pure (record { ot_hash = none; cte_hash = none })
      | some b ↦ do
        free_all_contexts hash_size 0 contexts
        ex_free_pool b
        pure (record { ot_hash = none; cte_hash = none })
    ]
]

module _ (ticks : ℕ) (builds : Call → Bool) (fuel : ℕ) where
  -- The first half of ot_free for the chains of `n` hashes from `i` on; each chain has the same fuel.
  unfoldable pub all_passes :
      ℕ → ℕ → Objects → Table → Conns → M (List Call × Objects × Table × Conns)
  all_passes zero i objects t c = pure ([], objects, t, c)
  all_passes (suc n) i objects t c = do
    (calls, es, t', c') ← passes ticks builds fuel (objects i) t c
    (calls', objects', t'', c'') ← all_passes n (suc i) (update i es objects) t' c'
    pure (calls ++ calls', objects', t'', c'')

  unfoldable pub ot_free :
      Places → Objects → Contexts → Table → Conns → M (List Call × Places × Table × Conns)
  ot_free places objects contexts t c = elim places.ot_hash [
    | none ↦ pure ([], places, t, c)
    | some a ↦ do
      (calls, objects', t', c') ← all_passes hash_size 0 objects t c
      places' ← clear_tables places objects' contexts
      pure (calls, places', t', c')
  ]
