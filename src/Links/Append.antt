-- ===== src/Links/Append.antt =====
-- A list whose tail is its last node stays so when a fresh node is appended.
use adfilter.Prelude.{ℕ, ◌≡◌, ◌≢◌, refl, ap, sym, List, [], ◌∷◌, ◌++◌, some, arith, All}
use adfilter.Links.{Links, link_after, append, addresses, last_of, last}

module _ {A : Type 0} where
  -- No two nodes share an address.
  abbrev pub Distinct : List (ℕ × A) → Type 0
  Distinct [] = Unit {0}
  Distinct (x ∷ xs) = All (λ a. a ≢ x.0) (addresses xs) × Distinct xs

  pub record IsLinked (l : Links A) : Type 0 where
    pub distinct : Distinct l.nodes
    pub at_end : l.tail ≡ last l.nodes

  last_of-ne :
      (a b : ℕ) (xs : List (ℕ × A)) → All (λ c. c ≢ a) (addresses xs) → b ≢ a → last_of b xs ≢ a
  last_of-ne a b [] d h = h
  last_of-ne a b (x ∷ xs) d h = last_of-ne a x.0 xs d.1 d.0

  last_of-snoc : (a : ℕ) (xs : List (ℕ × A)) (n : ℕ × A) → last_of a (xs ++ n ∷ []) ≡ n.0
  last_of-snoc a [] n = refl
  last_of-snoc a (x ∷ xs) n = last_of-snoc x.0 xs n

  last-snoc : (xs : List (ℕ × A)) (n : ℕ × A) → last (xs ++ n ∷ []) ≡ some n.0
  last-snoc [] n = refl
  last-snoc (x ∷ xs) n = ap some (last_of-snoc x.0 xs n)

  link_after_last :
      (n x : ℕ × A) (xs : List (ℕ × A))
      → Distinct (x ∷ xs)
      → link_after (last_of x.0 xs) n (x ∷ xs) ≡ some ((x ∷ xs) ++ n ∷ [])
  unfolding link_after
  link_after_last n x [] d = ground arith
  link_after_last n x (y ∷ ys) d =
      let h : last_of y.0 ys ≢ x.0 = last_of-ne x.0 y.0 ys d.0.1 d.0.0 in
      ground (arith, link_after_last n y ys d.1)

  All-snoc :
      (b : ℕ) (xs : List (ℕ × A)) (n : ℕ × A)
      → All (λ a. a ≢ b) (addresses xs)
      → n.0 ≢ b
      → All (λ a. a ≢ b) (addresses (xs ++ n ∷ []))
  All-snoc b [] n h p = (p, tt)
  All-snoc b (x ∷ xs) n h p = (h.0, All-snoc b xs n h.1 p)

  Distinct-snoc :
      (xs : List (ℕ × A)) (n : ℕ × A)
      → Distinct xs
      → All (λ a. a ≢ n.0) (addresses xs)
      → Distinct (xs ++ n ∷ [])
  Distinct-snoc [] n d f = (tt, tt)
  Distinct-snoc (x ∷ xs) n d f =
      (All-snoc x.0 xs n d.0 (λ e. f.0 (sym e)), Distinct-snoc xs n d.1 f.1)

  -- Appending a fresh node does not fault and puts it at the end.
  pub append_lem :
      (l : Links A) (n : ℕ × A)
      → IsLinked l
      → All (λ a. a ≢ n.0) (addresses l.nodes)
      → (l' : Links A) × (append l n ≡ some l') × (l'.nodes ≡ l.nodes ++ n ∷ []) × IsLinked l'
  unfolding append
  append_lem l n w f = (
    record { nodes = l.nodes ++ n ∷ []; tail = some n.0 },
    run l.nodes w.distinct w.at_end,
    refl,
    record { distinct = Distinct-snoc l.nodes n w.distinct f; at_end = sym (last-snoc l.nodes n) },
  )
    where
      run :
          (ns : List (ℕ × A))
          → Distinct ns
          → l.tail ≡ last ns
          → append (record { nodes = ns; tail = l.tail }) n
            ≡ some (record { nodes = ns ++ n ∷ []; tail = some n.0 })
      run [] d e = rw (e, append)
      run (x ∷ xs) d e = let k = link_after_last n x xs d in rw (e, append, k)
