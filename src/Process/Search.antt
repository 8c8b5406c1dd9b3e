-- ===== src/Process/Search.antt =====
-- What the search for a process finds after its list has changed.
use adfilter.Prelude.{
  ℕ, ◌≡◌, ◌≢◌, refl, ap, sym, ◌∙◌, subst, inl, inr, List, [], ◌∷◌, ◌++◌, Option, none, some, ◌==◌,
  if◌then◌else◌, arith, All, Bool-cases, Option-cases,
}
use adfilter.Links.{addresses, last, last_of}
use adfilter.Links.Append.{Distinct, IsLinked}
use adfilter.Process.{Ple, Plist, Place, find_ple, place_at, replaced}

-- What a search finds, without its place.
abbrev pub found : Option Place → Option Ple
found none = none
found (some p) = some p.entry.1

abbrev pub entry_of : ℕ → Plist → Option Ple
entry_of pid l = found (find_ple pid l.nodes)

-- The list with another entry in the same node keeps its links.
addresses-replaced :
    (xs : List (ℕ × Ple)) (a : ℕ) (e e' : Ple) (ys : List (ℕ × Ple))
    → addresses (xs ++ (a, e) ∷ ys) ≡ addresses (xs ++ (a, e') ∷ ys)
addresses-replaced [] a e e' ys = refl
addresses-replaced (x ∷ xs) a e e' ys = ap (◌∷◌ x.0) (addresses-replaced xs a e e' ys)

Distinct-replaced :
    (xs : List (ℕ × Ple)) (a : ℕ) (e e' : Ple) (ys : List (ℕ × Ple))
    → Distinct (xs ++ (a, e) ∷ ys)
    → Distinct (xs ++ (a, e') ∷ ys)
Distinct-replaced [] a e e' ys d = d
Distinct-replaced (x ∷ xs) a e e' ys d = (
  subst (All (λ b. b ≢ x.0)) (addresses-replaced xs a e e' ys) d.0,
  Distinct-replaced xs a e e' ys d.1,
)

last_of-replaced :
    (b : ℕ) (xs : List (ℕ × Ple)) (a : ℕ) (e e' : Ple) (ys : List (ℕ × Ple))
    → last_of b (xs ++ (a, e) ∷ ys) ≡ last_of b (xs ++ (a, e') ∷ ys)
last_of-replaced b [] a e e' ys = refl
last_of-replaced b (x ∷ xs) a e e' ys = last_of-replaced x.0 xs a e e' ys

last-replaced :
    (xs : List (ℕ × Ple)) (a : ℕ) (e e' : Ple) (ys : List (ℕ × Ple))
    → last (xs ++ (a, e) ∷ ys) ≡ last (xs ++ (a, e') ∷ ys)
last-replaced [] a e e' ys = refl
last-replaced (x ∷ xs) a e e' ys = ap some (last_of-replaced x.0 xs a e e' ys)

pub replaced-IsLinked :
    (p : Place) (e : Ple) (l : Plist)
    → IsLinked l
    → l.nodes ≡ p.before ++ p.entry ∷ p.after
    → IsLinked (replaced p e l)
replaced-IsLinked p e l w s = record {
  distinct = Distinct-replaced p.before p.entry.0 p.entry.1 e p.after (subst Distinct s w.distinct);
  at_end = w.at_end ∙ ap last s ∙ last-replaced p.before p.entry.0 p.entry.1 e p.after;
}

-- An entry of the process behind entries of other processes is what is found.
pub found-append :
    (pid : ℕ) (xs : List (ℕ × Ple)) (y : ℕ × Ple) (ys : List (ℕ × Ple))
    → All (λ (x : ℕ × Ple). x.1.pid ≢ pid) xs
    → y.1.pid ≡ pid
    → found (find_ple pid (xs ++ y ∷ ys)) ≡ some y.1
unfolding find_ple
found-append pid [] y ys h e = ground arith
found-append pid (x ∷ xs) y ys h e =
    let k = found-append pid xs y ys h.1 e in
    elim (Option-cases (find_ple pid (xs ++ y ∷ ys))) [
      | inl n ↦ ground (arith, k, n)
      | inr (r, g) ↦ let n = h.0 in ground (arith, k, g)
    ]

pub found_cons :
    (pid : ℕ) (x : ℕ × Ple) (xs : List (ℕ × Ple))
    → found (find_ple pid (x ∷ xs)) ≡ (if x.1.pid == pid then some x.1 else found (find_ple pid xs))
unfolding find_ple
found_cons pid x xs = elim (Option-cases (find_ple pid xs)) [
  | inl n ↦ ground (arith, n)
  | inr (r, g) ↦ ground (arith, g)
]

-- The entries of other processes are found as before.
pub found-replaced :
    (other : ℕ) (xs : List (ℕ × Ple)) (a : ℕ) (e e' : Ple) (ys : List (ℕ × Ple))
    → e.pid ≢ other
    → e'.pid ≢ other
    → found (find_ple other (xs ++ (a, e) ∷ ys)) ≡ found (find_ple other (xs ++ (a, e') ∷ ys))
found-replaced other [] a e e' ys h h' =
    let c = found_cons other (a, e) ys in
    let c' = found_cons other (a, e') ys in ground (arith, c, c')
found-replaced other (x ∷ xs) a e e' ys h h' =
    found_cons other x (xs ++ (a, e) ∷ ys)
    ∙ ap (λ f. if x.1.pid == other then some x.1 else f) (found-replaced other xs a e e' ys h h')
    ∙ sym (found_cons other x (xs ++ (a, e') ∷ ys))

pub found-snoc :
    (other : ℕ) (xs : List (ℕ × Ple)) (y : ℕ × Ple)
    → y.1.pid ≢ other
    → found (find_ple other (xs ++ y ∷ [])) ≡ found (find_ple other xs)
unfolding find_ple
found-snoc other [] y h = ground arith
found-snoc other (x ∷ xs) y h =
    found_cons other x (xs ++ y ∷ [])
    ∙ ap (λ f. if x.1.pid == other then some x.1 else f) (found-snoc other xs y h)
    ∙ sym (found_cons other x xs)

pub none-All :
    (pid : ℕ) (ns : List (ℕ × Ple))
    → find_ple pid ns ≡ none
    → All (λ (x : ℕ × Ple). x.1.pid ≢ pid) ns
unfolding find_ple
none-All pid [] e = tt
none-All pid (x ∷ xs) e = elim (Bool-cases (x.1.pid == pid)) [
  | inl h ↦ ground (arith, e)
  | inr h ↦ elim (Option-cases (find_ple pid xs)) [
    | inl n ↦ (ground arith, none-All pid xs n)
    | inr (r, g) ↦ ground (arith, e, g)
  ]
]

pub place_at-snoc :
    (ns : List (ℕ × Ple)) (n : ℕ × Ple)
    → All (λ b. b ≢ n.0) (addresses ns)
    → place_at n.0 (ns ++ n ∷ []) ≡ some (record { before = ns; entry = n; after = [] })
unfolding place_at
place_at-snoc [] n h = ground arith
place_at-snoc (x ∷ xs) n h = let k = place_at-snoc xs n h.1 in let d = h.0 in ground (arith, k)
