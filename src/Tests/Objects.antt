-- ===== src/Tests/Objects.antt =====
-- File objects that begin and end.
use adfilter.Prelude.{ℕ, ◌<◌, ◌≡◌, ◌≢◌, refl, ◌⊎◌, [], ◌∷◌, ◌++◌, Option, none, some, true, arith}
use adfilter.Pool.{Pool, Block, M, Owns, count, ex_allocate_pool}
use adfilter.OtEntry.{OtEntry, calc_hash, find_ote, ot_find_fileobj}
use adfilter.Sids.{opened, written, query_token, end_query, get_current_sid_a}
use adfilter.ObjTable
use adfilter.ObjTable.{Net, filled, blank_ote, ot_add_fileobj, get_tcp_conn_state_by_obj}
use adfilter.ObjTable.Add.{ot_add_fileobj-new, ot_add_fileobj-again}
use adfilter.Tdi.{World}
use adfilter.Tdi.Object
use adfilter.Tdi.Object.{Call, call_success, call_pending, tdi_create_addrobj_complete}
use adfilter.Tdi.Object.Complete.{query_blocks, tdi_create_addrobj_complete-ot_find_fileobj}
use adfilter.Tests.Connections.{ote_addr, objects_of, net_of, net}
use adfilter.Tests.Processes.{two}
use adfilter.Tests.Handlers.{idle, no_conns}
use adfilter.Tests.Contexts.{world}

-- The SID of a process, in one query.
abbrev sid_call : M (Option Block × ℕ)
sid_call = get_current_sid_a opened true (written (1 ∷ 2 ∷ []) 2) (written [] 0)

abbrev sid_block : Block
sid_block = record { at = 40; bytes = 1 ∷ 2 ∷ [] }

abbrev for_sid : Pool
for_sid = record { live = 8 ∷ []; replies = some 40 ∷ [] }

abbrev after_sid : Pool
after_sid = record { live = 40 ∷ 8 ∷ []; replies = [] }

gets_sid : sid_call for_sid ≡ some ((some sid_block, 2), after_sid)
unfolding get_current_sid_a query_token end_query ex_allocate_pool
gets_sid = refl

unknown : find_ote 0x60 (net.objects (calc_hash 0x60)) ≡ none
unfolding find_ote
unknown = refl

ot_add_fileobj-new_example :
    ((q : Pool) × (ot_add_fileobj true two 7 sid_call 10 3 0x60 1 17 0 net for_sid
        ≡ some ((ObjTable.Status.insufficient_resources, net), q))
      × Owns q (8 ∷ []))
    ⊎ ((a : ℕ) × (net' : Net) × (q : Pool) × (ot_add_fileobj true two 7 sid_call 10 3 0x60 1 17 0
            net for_sid
          ≡ some ((ObjTable.Status.success, net'), q))
        × (ot_find_fileobj 0x60 net'.objects
            ≡ some (filled 10 (some sid_block) 2 3 1 17 0 (blank_ote a 0x60)))
        × (ot_find_fileobj 0x40 net'.objects ≡ ot_find_fileobj 0x40 net.objects)
        × Owns q (a ∷ 40 ∷ 8 ∷ []))
ot_add_fileobj-new_example =
    ot_add_fileobj-new true two 7 sid_call 10 3 0x60 1 17 0 net for_sid (some sid_block) 2 0x40
      after_sid (8 ∷ []) (λ e. omega (arith, e)) (λ e. omega (arith, e)) gets_sid unknown
      (λ b. refl)

-- The idle connection object with a SID in block 8 is created again.
abbrev old_sid : OtEntry
old_sid = record idle { sid_a = some (record { at = 8; bytes = 3 ∷ [] }) }

found_old : find_ote 0x20 (objects_of old_sid (calc_hash 0x20)) ≡ some old_sid
unfolding find_ote
found_old = refl

ot_add_fileobj-again_example :
    (net' : Net) × (q : Pool) × (ot_add_fileobj true two 7 sid_call 10 3 0x20 2 6 5
        (net_of old_sid no_conns)
        for_sid
      ≡ some ((ObjTable.Status.success, net'), q))
    × (ot_find_fileobj 0x20 net'.objects
        ≡ some (filled 10 (some sid_block) 2 3 2 6 5 (blank_ote 16 0x20)))
    × (0 < count 8 q.live)
ot_add_fileobj-again_example =
    ot_add_fileobj-again true two 7 sid_call 10 3 0x20 2 6 5 (net_of old_sid no_conns) for_sid
      old_sid (record { at = 8; bytes = 3 ∷ [] }) (some sid_block) 2 after_sid
      (λ e. omega (arith, e)) gets_sid found_old refl refl refl (omega arith)

abbrev entry_pool : Pool
entry_pool = record { live = 17 ∷ []; replies = some 50 ∷ some 51 ∷ [] }

found_addr_ote : find_ote 0x40 (net.objects (calc_hash 0x40)) ≡ some ote_addr
unfolding find_ote
found_addr_ote = refl

nothing : find_ote 0x40 [] ≡ none
unfolding find_ote
nothing = refl

is_success : call_success ≢ call_pending
is_success e = cc

tdi_create_addrobj_complete-ot_find_fileobj_example :
    (query : Option Object.Query) × (w : World) × (q : Pool) × (tdi_create_addrobj_complete true two
        7 0x40 true true true call_success world entry_pool
      ≡ some ((query, w), q))
    × (ot_find_fileobj 0x40 w.net.objects ≡ none)
    × Owns q (query_blocks query ++ [])
tdi_create_addrobj_complete-ot_find_fileobj_example =
    tdi_create_addrobj_complete-ot_find_fileobj true two 7 0x40 ote_addr true true call_success
      world entry_pool [] is_success (λ e. omega (arith, e)) found_addr_ote (nothing, tt) refl refl
      (λ b. refl)
