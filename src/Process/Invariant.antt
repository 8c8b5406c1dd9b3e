-- ===== src/Process/Invariant.antt =====
-- What every operation on the process list keeps: the tail is the last entry, and the pool's live
-- blocks are those of the entries and their names.
use adfilter.Prelude.{
  ℕ, ◌≡◌, ◌≢◌, refl, ap, sym, ◌∙◌, subst, ◌⊎◌, inl, inr, List, [], ◌∷◌, ◌++◌, Option, none, some,
  ◌==◌, arith, All, Bool-cases, Option-cases,
}
use adfilter.Pool.{Pool, Block, Owns, count, count-append, ex_allocate_pool, ex_allocate_pool_cases}
use adfilter.Links.{addresses}
use adfilter.Links.Append.{IsLinked, append_lem}
use adfilter.Process.{Ple, Plist, Place, find_ple, fresh_ple, add_ple}

abbrev pub name_blocks : Option Block → List ℕ
name_blocks none = []
name_blocks (some b) = b.at ∷ []

abbrev pub blocks : List (ℕ × Ple) → List ℕ
blocks [] = []
blocks (x ∷ xs) = x.0 ∷ (name_blocks x.1.pname ++ blocks xs)

pub record IsPlist (l : Plist) (p : Pool) (rest : List ℕ) : Type 0 where
  pub linked : IsLinked l
  pub owned : Owns p (blocks l.nodes ++ rest)

-- What the pool hands out next is not in use.
abbrev pub IsFresh : Pool → Type 0
IsFresh p = elim p.replies [
  | [] ↦ Unit {0}
  | r ∷ rs ↦ elim r [ none ↦ Unit {0} | some a ↦ count a p.live ≡ 0 ]
]

absent :
    (a : ℕ) (ns : List (ℕ × Ple)) (rest : List ℕ)
    → count a (blocks ns ++ rest) ≡ 0
    → All (λ b. b ≢ a) (addresses ns)
absent a [] rest h = tt
absent a (x ∷ xs) rest h = (
  λ e. ground arith,
  absent a xs rest (
      ground (
        arith,
        count-append a (name_blocks x.1.pname ++ blocks xs) rest,
        count-append a (name_blocks x.1.pname) (blocks xs),
        count-append a (blocks xs) rest,
      )),
)

pub fresh_reply :
    (p q : Pool) (a : ℕ) → IsFresh p → ex_allocate_pool p ≡ some (some a, q) → count a p.live ≡ 0
unfolding ex_allocate_pool
fresh_reply p q a f e = go p.replies refl
  where
    go : (rs : List (Option ℕ)) → p.replies ≡ rs → count a p.live ≡ 0
    go [] h = ground (arith, e, h)
    go (none ∷ rs) h = ground (arith, e, h)
    go (some b ∷ rs) h =
        let same : b ≡ a = ground (arith, e, h) in
        let f' : count b p.live ≡ 0 =
          subst
            (λ rs. elim rs [
              | [] ↦ Unit {0}
              | r ∷ rs ↦ elim r [ none ↦ Unit {0} | some a ↦ count a p.live ≡ 0 ]
            ])
            h f in
        subst (λ c. count c p.live ≡ 0) same f'

-- Two lists of entries in a row.
pub count-blocks :
    (a : ℕ) (xs ys : List (ℕ × Ple)) (rest : List ℕ)
    → count a (blocks (xs ++ ys) ++ rest) ≡ count a (blocks xs ++ (blocks ys ++ rest))
count-blocks a [] ys rest = refl
count-blocks a (x ∷ xs) ys rest = ground (
  arith,
  count-blocks a xs ys rest,
  count-append a (name_blocks x.1.pname ++ blocks (xs ++ ys)) rest,
  count-append a (name_blocks x.1.pname) (blocks (xs ++ ys)),
  count-append a (blocks (xs ++ ys)) rest,
  count-append a (name_blocks x.1.pname ++ blocks xs) (blocks ys ++ rest),
  count-append a (name_blocks x.1.pname) (blocks xs),
  count-append a (blocks xs) (blocks ys ++ rest),
)

module _ (pid : ℕ) (l : Plist) (p : Pool) (rest : List ℕ) (w : IsPlist l p rest)
    (f : IsFresh p) where
  -- A new entry is made at the end, or there is no memory.
  pub add_ple_cases :
      ((q : Pool) × (ex_allocate_pool p ≡ some (none, q))
        × (add_ple pid l p ≡ some ((none, l), q))
        × IsPlist l q rest)
      ⊎ ((a : ℕ) × (l' : Plist) × (q : Pool) × (add_ple pid l p ≡ some ((some a, l'), q))
          × (l'.nodes ≡ l.nodes ++ (a, fresh_ple pid) ∷ [])
          × All (λ b. b ≢ a) (addresses l.nodes)
          × IsPlist l' q rest)
  unfolding add_ple
  add_ple_cases = elim (ex_allocate_pool_cases p (blocks l.nodes ++ rest) w.owned) [
    | inl (q, e, o) ↦ inl (q, e, ground (arith, e), record { linked = w.linked; owned = o })
    | inr (a, q, e, o) ↦
        let new : All (λ b. b ≢ a) (addresses l.nodes) =
          absent a l.nodes rest (sym (w.owned a) ∙ fresh_reply p q a f e) in
        let (l', g, k, w') = append_lem l (a, fresh_ple pid) w.linked new in
        let o' : Owns q (blocks l'.nodes ++ rest) = λ b.
          o b
          ∙ omega (
            arith,
            ap (λ ns. count b (blocks ns ++ rest)) k,
            count-blocks b l.nodes ((a, fresh_ple pid) ∷ []) rest,
            count-append b (blocks l.nodes) rest,
            count-append b (blocks l.nodes) (a ∷ rest),
          ) in
        inr (a, l', q, ground (arith, e, g), k, new, record { linked = w'; owned = o' })
  ]

-- What an entry found says of the list.
pub record IsFound (pid : ℕ) (ns : List (ℕ × Ple)) (p : Place) : Type 0 where
  pub split : ns ≡ p.before ++ p.entry ∷ p.after
  pub pid_of : p.entry.1.pid ≡ pid
  pub first : All (λ (x : ℕ × Ple). x.1.pid ≢ pid) p.before

pub find_ple-IsFound :
    (pid : ℕ) (ns : List (ℕ × Ple)) (p : Place) → find_ple pid ns ≡ some p → IsFound pid ns p
unfolding find_ple
find_ple-IsFound pid [] p e = ground arith
find_ple-IsFound pid (x ∷ xs) p e = elim (Bool-cases (x.1.pid == pid)) [
  | inl h ↦
      let same : record { before = []; entry = x; after = xs } ≡ p = ground (arith, e) in
      subst (IsFound pid (x ∷ xs)) same (record { split = refl; pid_of = ground arith; first = tt })
  | inr h ↦ elim (Option-cases (find_ple pid xs)) [
    | inl n ↦ ground (arith, e)
    | inr (r, g) ↦
        let k = find_ple-IsFound pid xs r g in
        let same : record r { before = x ∷ r.before } ≡ p = ground (arith, e) in
        subst (IsFound pid (x ∷ xs)) same (record {
          split = ap (◌∷◌ x) k.split;
          pid_of = k.pid_of;
          first = (ground arith, k.first);
        })
  ]
]
