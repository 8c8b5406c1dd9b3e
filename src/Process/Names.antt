-- ===== src/Process/Names.antt =====
-- The name and the rule chain of a process: pid_pname_set against what is looked up later.
use adfilter.Prelude.{
  ℕ, ◌-◌, ◌<◌, take, ◌≡◌, ◌≢◌, refl, ap, sym, ◌∙◌, subst, ◌⊎◌, inl, inr, List, ◌∷◌, ◌++◌, Option,
  none, some, arith, Option-cases, Bytes,
}
use adfilter.Pool.{Pool, Block, Owns, count, count-append, ex_allocate_pool_cases}
use adfilter.Process.{
  Ple, Plist, Place, Status, success, insufficient_resources, find_ple, replaced, set_name, signal,
  pid_pname_set, pid_pname_get_context, pid_pname_resolve,
}
use adfilter.Process.Invariant.{name_blocks, blocks, IsPlist, IsFresh, count-blocks}
use adfilter.Process.Search.{found, entry_of, replaced-IsLinked, found-append, found-replaced}
use adfilter.Process.Places.{IsPlace, find_or_add_cases}

abbrev pub name_text : Option Block → Option Bytes
name_text none = none
name_text (some b) = some b.bytes

-- The name of a process, if it has one.
abbrev pub name_of : Option Ple → Option Bytes
name_of none = none
name_of (some e) = name_text e.pname

-- The name that stays: the first one.
abbrev pub first_name : Option Bytes → Bytes → Bytes
first_name none new = new
first_name (some old) new = old

-- A name is set unless there is one; only memory can be missing.
abbrev IsNamed : Bytes → Ple → Status → Ple → Type 0
IsNamed pname e status e' =
    ((status ≡ success) × (name_text e'.pname ≡ some (first_name (name_text e.pname) pname)))
    ⊎ ((status ≡ insufficient_resources) × (e.pname ≡ none) × (e'.pname ≡ none))

set_name_cases :
    (pname : Bytes) (e : Ple) (p : Pool) (rest : List ℕ)
    → Owns p (name_blocks e.pname ++ rest)
    → (status : Status) × (e' : Ple) × (q : Pool) × (set_name pname e p ≡ some ((status, e'), q))
      × Owns q (name_blocks e'.pname ++ rest)
      × (e'.pid ≡ e.pid)
      × IsNamed pname e status e'
unfolding set_name
set_name_cases pname e p rest o = elim (Option-cases e.pname) [
  | inr (b, n) ↦
      let kept : name_text e.pname ≡ some b.bytes = ap name_text n in
      (
        success,
        e,
        p,
        ground (arith, n),
        o,
        refl,
        inl (refl, kept ∙ ap (λ t. some (first_name t pname)) (sym kept)),
      )
  | inl n ↦ elim (ex_allocate_pool_cases p rest (subst (λ m. Owns p (name_blocks m ++ rest)) n o)) [
    | inl (q, k, o') ↦ (
      insufficient_resources,
      e,
      q,
      ground (arith, n, k),
      subst (λ m. Owns q (name_blocks m ++ rest)) (sym n) o',
      refl,
      inr (refl, n, n),
    )
    | inr (a, q, k, o') ↦ (
      success,
      record e { pname = some (record { at = a; bytes = pname }) },
      q,
      ground (arith, n, k),
      o',
      refl,
      inl (refl, ap (λ m. some (first_name (name_text m) pname)) (sym n)),
    )
  ]
]

-- The blocks of a list, those of one name first.
name_first :
    (xs : List (ℕ × Ple)) (a : ℕ) (e : Ple) (ys : List (ℕ × Ple)) (rest : List ℕ) (b : ℕ)
    → count b (blocks (xs ++ (a, e) ∷ ys) ++ rest)
      ≡ count b (name_blocks e.pname ++ (a ∷ (blocks (xs ++ ys) ++ rest)))
name_first xs a e ys rest b = omega (
  arith,
  count-blocks b xs ((a, e) ∷ ys) rest,
  count-blocks b xs ys rest,
  count-append b (blocks xs) (blocks ((a, e) ∷ ys) ++ rest),
  count-append b (blocks xs) (blocks ys ++ rest),
  count-append b (name_blocks e.pname) (a ∷ (blocks (xs ++ ys) ++ rest)),
  count-append b (name_blocks e.pname ++ blocks ys) rest,
  count-append b (name_blocks e.pname) (blocks ys),
  count-append b (blocks ys) rest,
)

context_found :
    (pid : ℕ) (l : Plist) (e : Ple)
    → entry_of pid l ≡ some e
    → pid_pname_get_context pid l ≡ e.context
unfolding pid_pname_get_context
context_found pid l e h = elim (Option-cases (find_ple pid l.nodes)) [
  | inl n ↦ ground (arith, h, n)
  | inr (r, g) ↦ ground (arith, h, g)
]

resolve_found :
    (pid size : ℕ) (l : Plist) (e : Ple) (name : Bytes)
    → 0 < size
    → entry_of pid l ≡ some e
    → name_text e.pname ≡ some name
    → pid_pname_resolve pid size l ≡ some (some (take (size - 1) name))
unfolding pid_pname_resolve
resolve_found pid size l e name s h k = elim (Option-cases (find_ple pid l.nodes)) [
  | inl n ↦ ground (arith, h, n)
  | inr (r, g) ↦
      let same : r.entry.1 ≡ e = ground (arith, h, g) in
      elim (Option-cases r.entry.1.pname) [
        | inl n ↦ ground (arith, ap (λ (e : Ple). name_text e.pname) same, n, k)
        | inr (b, n) ↦
            let t : b.bytes ≡ name =
              ground (arith, ap (λ (e : Ple). name_text e.pname) same, n, k) in
            ground (arith, g, n, t)
      ]
]

old_name :
    (pid : ℕ) (l l' : Plist) (r : Place)
    → IsPlace pid l l' r
    → name_of (entry_of pid l) ≡ name_text r.entry.1.pname
old_name pid l l' r k = elim k.old [
  | inl e ↦ ap name_of e
  | inr (n, e) ↦ ap name_of n ∙ sym (ap (λ (e : Ple). name_text e.pname) e)
]

-- How a call of pid_pname_set ends: there is no memory for an entry and nothing changes; or the
-- process has the chain, and its first name, unless there is no memory for that.
abbrev pub IsPnameSet : ℕ → Bytes → ℕ → ℕ → Plist → Status → Plist → Type 0
IsPnameSet pid pname context size l status l' =
    ((status ≡ insufficient_resources) × (entry_of pid l ≡ none) × (l' ≡ l))
    ⊎ ((pid_pname_get_context pid l' ≡ context)
        × (((status ≡ success)
              × (pid_pname_resolve pid size l'
                  ≡ some (some (take (size - 1) (first_name (name_of (entry_of pid l)) pname)))))
            ⊎ ((status ≡ insufficient_resources)
                × (name_of (entry_of pid l) ≡ none)
                × (name_of (entry_of pid l') ≡ none))))

-- In a well-formed list, where the pool hands out no block in use, setting the name of a process
-- gives it the rule chain and keeps a name that it has, which a buffer of at least one byte then
-- gets, cut to fit; it does not change what is known of another process, keeps the list and the
-- pool in order, and fails only for want of memory.
pub pid_pname_set_lem :
    (pid : ℕ) (pname : Bytes) (context size other : ℕ) (l : Plist) (p : Pool) (rest : List ℕ)
    → IsPlist l p rest
    → IsFresh p
    → 0 < size
    → other ≢ pid
    → (status : Status) × (event : Option ℕ) × (l' : Plist) × (q : Pool) × (pid_pname_set pid pname
          context l p
        ≡ some ((status, event, l'), q))
      × IsPlist l' q rest
      × (entry_of other l' ≡ entry_of other l)
      × IsPnameSet pid pname context size l status l'
unfolding pid_pname_set
pid_pname_set_lem pid pname context size other l p rest w f s ne =
    elim (find_or_add_cases pid l p rest w f) [
      | inl (q, e, n, w') ↦
          (insufficient_resources, none, l, q, ground (arith, e), w', refl, inl (refl, n, refl))
      | inr (r, l', q, e, k, w') ↦
          let e0 = r.entry.1 in
          let order : Owns q
              (name_blocks e0.pname ++ (r.entry.0 ∷ (blocks (r.before ++ r.after) ++ rest))) =
            λ b.
              w'.owned b
              ∙ ap (λ ns. count b (blocks ns ++ rest)) k.split
              ∙ name_first r.before r.entry.0 e0 r.after rest b in
          let (status, e1, t, g, o, same, named) = set_name_cases pname e0 q _ order in
          let e2 : Ple = record e1 { context = context } in
          let hit : entry_of pid (replaced r e2 l') ≡ some e2 =
            found-append pid r.before (r.entry.0, e2) r.after k.first (same ∙ k.pid_of) in
          let known : name_of (entry_of pid l) ≡ name_text e0.pname = old_name pid l l' r k in
          (
            status,
            signal e0,
            replaced r e2 l',
            t,
            ground (arith, e, g),
            record {
              linked = replaced-IsLinked r e2 l' w'.linked k.split;
              owned = λ b. o b ∙ sym (name_first r.before r.entry.0 e2 r.after rest b);
            },
            found-replaced other r.before r.entry.0 e2 e0 r.after
                  (λ h. ne (sym h ∙ same ∙ k.pid_of)) (λ h. ne (sym h ∙ k.pid_of))
                ∙ ap (λ ns. found (find_ple other ns)) (sym k.split)
                ∙ k.others other ne,
            inr (
              context_found pid (replaced r e2 l') e2 hit,
              elim named [
                | inl (ok, n) ↦ inl (
                  ok,
                  resolve_found pid size (replaced r e2 l') e2 _ s hit n
                      ∙ ap (λ m. some (some (take (size - 1) (first_name m pname)))) (sym known),
                )
                | inr (failed, n, n') ↦
                    inr (failed, known ∙ ap name_text n, ap name_of hit ∙ ap name_text n')
              ],
            ),
          )
    ]
