-- ===== src/Process/Exit.antt =====
-- Processes that start and end: ProcessNotifyProc and pid_pname_free.
use adfilter.Prelude.{
  ℕ, ◌≡◌, ◌≢◌, refl, ap, sym, ◌∙◌, subst, ◌⊎◌, inl, inr, List, [], ◌∷◌, ◌++◌, Option, none, some,
  true, false, ◌==◌, if◌then◌else◌, arith, All, Bool-cases, Option-cases,
}
use adfilter.Pool.{Pool, Block, Owns, count, count-append, ex_allocate_pool, ex_free_pool_owned}
use adfilter.Links.{addresses, last, last_of, empty}
use adfilter.Links.Append.{Distinct, IsLinked}
use adfilter.Process.{
  Ple, Plist, Place, find_ple, fresh_ple, free_name, unlink, release, process_notify_proc,
  free_nodes, pid_pname_free,
}
use adfilter.Process.Invariant.{
  name_blocks, blocks, IsPlist, IsFresh, count-blocks, add_ple_cases, find_ple-IsFound,
}

All-middle :
    (a : ℕ) (xs : List (ℕ × Ple)) (y : ℕ × Ple) (ys : List (ℕ × Ple))
    → All (λ b. b ≢ a) (addresses (xs ++ y ∷ ys))
    → All (λ b. b ≢ a) (addresses (xs ++ ys))
All-middle a [] y ys h = h.1
All-middle a (x ∷ xs) y ys h = (h.0, All-middle a xs y ys h.1)

Distinct-middle :
    (xs : List (ℕ × Ple)) (y : ℕ × Ple) (ys : List (ℕ × Ple))
    → Distinct (xs ++ y ∷ ys)
    → Distinct (xs ++ ys)
Distinct-middle [] y ys h = h.1
Distinct-middle (x ∷ xs) y ys h = (All-middle x.0 xs y ys h.0, Distinct-middle xs y ys h.1)

last_of-middle :
    (a : ℕ) (xs : List (ℕ × Ple)) (y z : ℕ × Ple) (zs : List (ℕ × Ple))
    → last_of a (xs ++ y ∷ z ∷ zs) ≡ last_of a (xs ++ z ∷ zs)
last_of-middle a [] y z zs = refl
last_of-middle a (x ∷ xs) y z zs = last_of-middle x.0 xs y z zs

last-middle :
    (xs : List (ℕ × Ple)) (y z : ℕ × Ple) (zs : List (ℕ × Ple))
    → last (xs ++ y ∷ z ∷ zs) ≡ last (xs ++ z ∷ zs)
last-middle [] y z zs = refl
last-middle (x ∷ xs) y z zs = ap some (last_of-middle x.0 xs y z zs)

append-nil : (xs : List (ℕ × Ple)) → xs ++ [] ≡ xs
append-nil [] = refl
append-nil (x ∷ xs) = ap (◌∷◌ x) (append-nil xs)

unlink-IsLinked :
    (l : Plist) (p : Place)
    → IsLinked l
    → l.nodes ≡ p.before ++ p.entry ∷ p.after
    → IsLinked (unlink p l)
unfolding unlink
unlink-IsLinked l p w s = record {
  distinct = Distinct-middle p.before p.entry p.after (subst Distinct s w.distinct);
  at_end = go p.after (w.at_end ∙ ap last s);
}
  where
    go :
        (ts : List (ℕ × Ple))
        → l.tail ≡ last (p.before ++ p.entry ∷ ts)
        → (elim ts [ [] ↦ last p.before | x ∷ xs ↦ l.tail ]) ≡ last (p.before ++ ts)
    go [] e = ap last (sym (append-nil p.before))
    go (z ∷ zs) e = e ∙ last-middle p.before p.entry z zs

unlink_nodes : (r : Place) (l : Plist) → (unlink r l).nodes ≡ r.before ++ r.after
unfolding unlink
unlink_nodes r l = refl

pub free_name_owned :
    (n : Option Block) (p : Pool) (rest : List ℕ)
    → Owns p (name_blocks n ++ rest)
    → (q : Pool) × (free_name n p ≡ some (tt, q)) × Owns q rest
unfolding free_name
free_name_owned none p rest o = (p, refl, o)
free_name_owned (some b) p rest o = ex_free_pool_owned b.at p rest o

-- The list without the first entry of the process.
abbrev pub erase_pid : ℕ → List (ℕ × Ple) → List (ℕ × Ple)
erase_pid pid [] = []
erase_pid pid (x ∷ xs) = if x.1.pid == pid then xs else x ∷ erase_pid pid xs

find_ple-erase_pid :
    (pid : ℕ) (ns : List (ℕ × Ple)) → find_ple pid ns ≡ none → ns ≡ erase_pid pid ns
unfolding find_ple
find_ple-erase_pid pid [] e = refl
find_ple-erase_pid pid (x ∷ xs) e = elim (Bool-cases (x.1.pid == pid)) [
  | inl h ↦ ground (arith, e)
  | inr h ↦ elim (Option-cases (find_ple pid xs)) [
    | inl n ↦ let k = find_ple-erase_pid pid xs n in ground (arith, k)
    | inr (r, g) ↦ ground (arith, e, g)
  ]
]

erase_pid-append :
    (pid : ℕ) (xs : List (ℕ × Ple)) (y : ℕ × Ple) (ys : List (ℕ × Ple))
    → All (λ (x : ℕ × Ple). x.1.pid ≢ pid) xs
    → y.1.pid ≡ pid
    → erase_pid pid (xs ++ y ∷ ys) ≡ xs ++ ys
erase_pid-append pid [] y ys h e = ground arith
erase_pid-append pid (x ∷ xs) y ys h e =
    let k = erase_pid-append pid xs y ys h.1 e in let n = h.0 in ground (arith, k)

-- In a well-formed list the end of a process does not fault, takes out its first entry, frees
-- exactly that entry's blocks, and keeps the tail at the end of the list.
pub process_notify_proc-erase_pid :
    (pid : ℕ) (l : Plist) (p : Pool) (rest : List ℕ)
    → IsPlist l p rest
    → (l' : Plist) × (q : Pool) × (process_notify_proc pid false l p ≡ some (l', q))
      × (l'.nodes ≡ erase_pid pid l.nodes)
      × IsPlist l' q rest
unfolding process_notify_proc release
process_notify_proc-erase_pid pid l p rest w = elim (Option-cases (find_ple pid l.nodes)) [
  | inl n ↦ (l, p, ground (arith, n), find_ple-erase_pid pid l.nodes n, w)
  | inr (r, g) ↦
      let k = find_ple-IsFound pid l.nodes r g in
      let order : Owns p
          (name_blocks r.entry.1.pname ++ (r.entry.0 ∷ (blocks (r.before ++ r.after) ++ rest))) =
        λ b.
          w.owned b
          ∙ omega (
            arith,
            ap (λ ns. count b (blocks ns ++ rest)) k.split,
            count-blocks b r.before (r.entry ∷ r.after) rest,
            count-blocks b r.before r.after rest,
            count-append b (blocks r.before) (blocks (r.entry ∷ r.after) ++ rest),
            count-append b (blocks r.before) (blocks r.after ++ rest),
            count-append b (name_blocks r.entry.1.pname)
                (r.entry.0 ∷ (blocks (r.before ++ r.after) ++ rest)),
            count-append b (name_blocks r.entry.1.pname ++ blocks r.after) rest,
            count-append b (name_blocks r.entry.1.pname) (blocks r.after),
            count-append b (blocks r.after) rest,
          ) in
      let (q, e, o) = free_name_owned r.entry.1.pname p _ order in
      let (t, f, o') = ex_free_pool_owned r.entry.0 q _ o in
      (
        unlink r l,
        t,
        ground (arith, g, e, f),
        unlink_nodes r l
            ∙ sym (
                ap (erase_pid pid) k.split
                ∙ erase_pid-append pid r.before r.entry r.after k.first k.pid_of),
        record {
          linked = unlink-IsLinked l r w.linked k.split;
          owned = λ b. o' b ∙ ap (λ ns. count b (blocks ns ++ rest)) (sym (unlink_nodes r l));
        },
      )
]

-- In a well-formed list, where the pool hands out no block in use, the start of a process puts an
-- entry of no name at the end of the list; where there is no memory for it, the lock is released
-- a second time, which is a fault.
process_notify_proc-start :
    (pid : ℕ) (l : Plist) (p : Pool) (rest : List ℕ)
    → IsPlist l p rest
    → IsFresh p
    → ((process_notify_proc pid true l p ≡ none)
        × (q : Pool) × (ex_allocate_pool p ≡ some (none, q)))
      ⊎ ((l' : Plist) × (q : Pool) × (a : ℕ) × (process_notify_proc pid true l p ≡ some (l', q))
          × (l'.nodes ≡ l.nodes ++ (a, fresh_ple pid) ∷ [])
          × IsPlist l' q rest)
unfolding process_notify_proc release
process_notify_proc-start pid l p rest w f = elim (add_ple_cases pid l p rest w f) [
  | inl (q, n, e, o) ↦ inl (ground (arith, e), q, n)
  | inr (a, l', q, e, k, _, w') ↦ inr (l', q, a, ground (arith, e), k, w')
]

free_nodes_owned :
    (ns : List (ℕ × Ple)) (p : Pool) (rest : List ℕ)
    → Owns p (blocks ns ++ rest)
    → (q : Pool) × (free_nodes ns p ≡ some (tt, q)) × Owns q rest
unfolding free_nodes
free_nodes_owned [] p rest o = (p, refl, o)
free_nodes_owned (x ∷ xs) p rest o =
    let order : Owns p (name_blocks x.1.pname ++ (x.0 ∷ (blocks xs ++ rest))) = λ b.
      o b
      ∙ omega (
        arith,
        count-append b (name_blocks x.1.pname) (x.0 ∷ (blocks xs ++ rest)),
        count-append b (name_blocks x.1.pname ++ blocks xs) rest,
        count-append b (name_blocks x.1.pname) (blocks xs),
        count-append b (blocks xs) rest,
      ) in
    let (q, e, o') = free_name_owned x.1.pname p _ order in
    let (r, f, o'') = ex_free_pool_owned x.0 q _ o' in
    let (s, g, o''') = free_nodes_owned xs r rest o'' in (s, ground (arith, e, f, g), o''')

-- At the end of the driver all entries and names of a well-formed list of processes are freed, and
-- no other block.
pub pid_pname_free_lem :
    (l : Plist) (p : Pool) (rest : List ℕ)
    → IsPlist l p rest
    → (q : Pool) × (pid_pname_free l p ≡ some (empty, q)) × Owns q rest
unfolding pid_pname_free
pid_pname_free_lem l p rest w =
    let (q, e, o) = free_nodes_owned l.nodes p rest w.owned in (q, ground (arith, e), o)
