-- ===== src/ObjTable/Add.antt =====
-- A file object that comes, and one that comes again.
use adfilter.Prelude.{
  ℕ, ◌<◌, ◌≡◌, ◌≢◌, refl, ap, ◌∙◌, ◌⊎◌, inl, inr, List, [], ◌∷◌, ◌++◌, Option, none, some, Bool,
  ◌==◌, arith, Bool-cases,
}
use adfilter.Pool.{Pool, Block, M, Owns, count, ex_allocate_pool, ex_allocate_pool_cases}
use adfilter.Process.{Plist, free_name}
use adfilter.Process.Invariant.{name_blocks}
use adfilter.Process.Exit.{free_name_owned}
use adfilter.OtEntry.{OtEntry, calc_hash, find_ote, ot_find_fileobj, update, write_object}
use adfilter.OtEntry.Find.{written, ot_find_fileobj-write_object}
use adfilter.ObjTable.{
  Net, success, insufficient_resources, blank_ote, filled, end_listen, end_conn, end_object,
  ot_cleanup_ote, ot_add_fileobj,
}
use adfilter.ObjTable.Distinct.{ot_find_fileobj-update, ot_find_fileobj-update_other}

-- The entry in front of its chain.
abbrev pub with_object : OtEntry → Net → Net
with_object e net = record net {
  objects = update (calc_hash e.fileobj) (e ∷ net.objects (calc_hash e.fileobj)) net.objects;
}

module _ (got_log : Bool) (plist : Plist) (ticks : ℕ) (sid : M (Option Block × ℕ))
    (pid devobj fileobj kind ipproto conn_ctx : ℕ) (net : Net) (p : Pool) where
  abbrev pub entry_at : ℕ → Option Block → ℕ → OtEntry
  entry_at a sid_a size = filled pid sid_a size devobj kind ipproto conn_ctx (blank_ote a fileobj)

  add_none :
      (sid_a : Option Block) (size : ℕ) (p1 q t : Pool)
      → fileobj ≢ 0
      → sid p ≡ some ((sid_a, size), p1)
      → find_ote fileobj (net.objects (calc_hash fileobj)) ≡ none
      → ex_allocate_pool p1 ≡ some (none, q)
      → free_name sid_a q ≡ some (tt, t)
      → ot_add_fileobj got_log plist ticks sid pid devobj fileobj kind ipproto conn_ctx net p
        ≡ some ((insufficient_resources, net), t)
  unfolding ot_add_fileobj
  add_none sid_a size p1 q t n e f g h = ground (arith, n, e, f, g, h)

  add_some :
      (sid_a : Option Block) (size a : ℕ) (p1 q : Pool)
      → fileobj ≢ 0
      → sid p ≡ some ((sid_a, size), p1)
      → find_ote fileobj (net.objects (calc_hash fileobj)) ≡ none
      → ex_allocate_pool p1 ≡ some (some a, q)
      → ot_add_fileobj got_log plist ticks sid pid devobj fileobj kind ipproto conn_ctx net p
        ≡ some ((success, with_object (entry_at a sid_a size) net), q)
  unfolding ot_add_fileobj
  add_some sid_a size a p1 q n e f g = ground (arith, n, e, f, g)

  -- A file object that has no entry gets one, with the arguments of the call and the SID of the
  -- caller, which a search for the object then gives, while no other search changes; or there is no
  -- memory, and the table is as it was. The live blocks are those before, the SID's and the entry's;
  -- in the second case the SID's is freed.
  pub ot_add_fileobj-new :
      (sid_a : Option Block) (size other : ℕ) (p1 : Pool) (rest : List ℕ)
      → fileobj ≢ 0
      → other ≢ fileobj
      → sid p ≡ some ((sid_a, size), p1)
      → find_ote fileobj (net.objects (calc_hash fileobj)) ≡ none
      → Owns p1 (name_blocks sid_a ++ rest)
      → ((q : Pool) × (ot_add_fileobj got_log plist ticks sid pid devobj fileobj kind ipproto
              conn_ctx net p
            ≡ some ((insufficient_resources, net), q))
          × Owns q rest)
        ⊎ ((a : ℕ) × (net' : Net) × (q : Pool) × (ot_add_fileobj got_log plist ticks sid pid devobj
                fileobj kind ipproto conn_ctx net p
              ≡ some ((success, net'), q))
            × (ot_find_fileobj fileobj net'.objects ≡ some (entry_at a sid_a size))
            × (ot_find_fileobj other net'.objects ≡ ot_find_fileobj other net.objects)
            × Owns q (a ∷ (name_blocks sid_a ++ rest)))
  unfolding find_ote
  ot_add_fileobj-new sid_a size other p1 rest n m e f o =
      elim (ex_allocate_pool_cases p1 (name_blocks sid_a ++ rest) o) [
        | inl (q, g, o') ↦
            (let (t, h, o'') = free_name_owned sid_a q rest o' in
              inl (t, add_none sid_a size p1 q t n e f g h, o''))
        | inr (a, q, g, o') ↦ inr (
          a,
          with_object (entry_at a sid_a size) net,
          q,
          add_some sid_a size a p1 q n e f g,
          ot_find_fileobj-update fileobj (entry_at a sid_a size ∷ net.objects (calc_hash fileobj))
                net.objects n
              ∙ ground arith,
          ot_find_fileobj-update_other fileobj other
              (entry_at a sid_a size ∷ net.objects (calc_hash fileobj)) net.objects
              (ground (arith, m)),
          o',
        )
      ]

-- An object with neither a listening endpoint nor a connection ends without a further effect.
pub end_object-idle :
    (got_log : Bool) (plist : Plist) (ticks : ℕ) (ote : OtEntry) (net : Net) (p : Pool)
    → ote.listen_entry ≡ none
    → ote.conn_entry ≡ none
    → end_object got_log plist ticks ote net p ≡ some (net, p)
unfolding end_object end_listen end_conn
end_object-idle got_log plist ticks ote net p l c = ground (arith, l, c)

find_ote-fileobj :
    (fileobj : ℕ) (es : List OtEntry) (e : OtEntry)
    → find_ote fileobj es ≡ some e
    → e.fileobj ≡ fileobj
unfolding find_ote
find_ote-fileobj fileobj [] e h = absurd (cc)
find_ote-fileobj fileobj (d ∷ es) e h = elim (Bool-cases (d.fileobj == fileobj)) [
  | inl y ↦ ground (arith, y, h)
  | inr n ↦ find_ote-fileobj fileobj es e (ground (arith, n, h))
]

module _ (got_log : Bool) (plist : Plist) (ticks : ℕ) (sid : M (Option Block × ℕ))
    (pid devobj fileobj kind ipproto conn_ctx : ℕ) (net : Net) (p : Pool) where
  cleaned :
      (old : OtEntry)
      → old.listen_entry ≡ none
      → old.conn_entry ≡ none
      → ot_cleanup_ote got_log plist ticks old net p
        ≡ some (
          record net {
            objects = write_object old.fileobj (λ e. blank_ote e.at e.fileobj) net.objects;
          },
          p,
        )
  unfolding ot_cleanup_ote
  cleaned old l c = let e = end_object-idle got_log plist ticks old net p l c in ground (arith, e)

  again :
      (old : OtEntry) (sid_a : Option Block) (size : ℕ) (p1 q : Pool) (net1 : Net)
      → fileobj ≢ 0
      → sid p ≡ some ((sid_a, size), p1)
      → find_ote fileobj (net.objects (calc_hash fileobj)) ≡ some old
      → ot_cleanup_ote got_log plist ticks old net p1 ≡ some (net1, q)
      → ot_add_fileobj got_log plist ticks sid pid devobj fileobj kind ipproto conn_ctx net p
        ≡ some (
          (
            success,
            record net1 {
              objects =
                  write_object fileobj
                    (filled pid sid_a size devobj kind ipproto conn_ctx)
                    net1.objects;
            },
          ),
          q,
        )
  unfolding ot_add_fileobj
  again old sid_a size p1 q net1 n e f g = ground (arith, n, e, f, g)

module _ (got_log : Bool) (plist : Plist) (ticks : ℕ) (sid : M (Option Block × ℕ))
    (pid devobj fileobj kind ipproto conn_ctx : ℕ) (net : Net) (p : Pool) where
  -- A file object that has an entry already, with neither an endpoint nor a connection, keeps it, with
  -- the arguments of the call and the SID of the caller; the block of the SID that the entry held
  -- before stays live, and the entry holds it no more.
  pub ot_add_fileobj-again :
      (old : OtEntry) (b : Block) (sid_a : Option Block) (size : ℕ) (p1 : Pool)
      → fileobj ≢ 0
      → sid p ≡ some ((sid_a, size), p1)
      → find_ote fileobj (net.objects (calc_hash fileobj)) ≡ some old
      → old.listen_entry ≡ none
      → old.conn_entry ≡ none
      → old.sid_a ≡ some b
      → 0 < count b.at p1.live
      → (net' : Net) × (q : Pool) × (ot_add_fileobj got_log plist ticks sid pid devobj fileobj kind
            ipproto conn_ctx net p
          ≡ some ((success, net'), q))
        × (ot_find_fileobj fileobj net'.objects
            ≡ some (filled pid sid_a size devobj kind ipproto conn_ctx (blank_ote old.at fileobj)))
        × (0 < count b.at q.live)
  unfolding ot_find_fileobj
  ot_add_fileobj-again old b sid_a size p1 n e f l c h live =
      let fill = filled pid sid_a size devobj kind ipproto conn_ctx in
      let blank : OtEntry → OtEntry = λ e. blank_ote e.at e.fileobj in
      let objects = write_object old.fileobj blank net.objects in
      let net1 : Net = record net { objects = objects } in
      let g =
        cleaned got_log plist ticks sid pid devobj fileobj kind ipproto conn_ctx net p1 old l c in
      let same = find_ote-fileobj fileobj (net.objects (calc_hash fileobj)) old f in
      let found : ot_find_fileobj fileobj net.objects ≡ some old = ground (arith, n, f) in
      let first = (ot_find_fileobj-write_object fileobj fileobj blank net.objects (λ e. refl)).0 in
      let second =
        (ot_find_fileobj-write_object fileobj fileobj fill (write_object fileobj blank net.objects)
          (λ e. refl)).0 in
      (
        record net { objects = write_object fileobj fill objects },
        p1,
        again got_log plist ticks sid pid devobj fileobj kind ipproto conn_ctx net p old sid_a size
            p1 p1 net1 n e f g,
        ap
              (λ x.
                ot_find_fileobj fileobj
                  (write_object fileobj fill (write_object x blank net.objects)))
              same
            ∙ second
            ∙ ap (written fill) first
            ∙ ap (λ o. written fill (written blank o)) found
            ∙ ap (λ x. some (fill (blank_ote old.at x))) same,
        live,
      )
