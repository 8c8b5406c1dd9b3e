-- ===== src/Pool.antt =====
-- The kernel pool as sys/adfilter/list.c uses it: ExAllocatePoolWithTag and ExFreePoolWithTag.
-- What the allocator answers is an input, the list `replies`; the blocks handed out and not yet
-- freed are counted in `live`. Freeing a block that is not live is the bug check `none`.
use adfilter.Prelude.{
  ℕ, ◌+◌, ◌≡◌, refl, ◌<◌, List, [], ◌∷◌, ◌++◌, Option, none, some, arith, ◌==◌, if◌then◌else◌,
  Bool-cases, ◌⊎◌, inl, inr,
}

pub record Pool : Type 0 where
  pub live : List ℕ
  pub replies : List (Option ℕ)

-- An action on the pool; `none` is a bug check.
abbrev pub M {ℓ} : Type ℓ → Type ℓ
M A = Pool → Option (A × Pool)

abbrev pub pure {ℓ} : {A : Type ℓ} → A → M A
pure a p = some (a, p)

-- A bug check.
abbrev pub fault {ℓ} : {A : Type ℓ} → M A
fault p = none

infixl 5 ◌>>=◌ ◌>>◌
abbrev pub ◌>>=◌ {ℓ κ} : {A : Type ℓ} {B : Type κ} → M A → (A → M B) → M B
◌>>=◌ m f p = elim (m p) [ none ↦ none | some (a, p') ↦ f a p' ]

abbrev pub ◌>>◌ {ℓ} : {B : Type ℓ} → M (Unit {0}) → M B → M B
m >> k = m >>= λ _. k

-- A block handed out becomes live; a NULL answer changes nothing.
abbrev grant : List ℕ → Option ℕ → List ℕ
grant live none = live
grant live (some a) = a ∷ live

unfoldable pub ex_allocate_pool : M (Option ℕ)
ex_allocate_pool p = elim p.replies [
  | [] ↦ some (none, record p { replies = [] })
  | r ∷ rs ↦ some (r, record { live = grant p.live r; replies = rs })
]

unfoldable pub remove_one : ℕ → List ℕ → Option (List ℕ)
remove_one a [] = none
remove_one a (x ∷ xs) =
    let rest = remove_one a xs in
    if x == a then some xs else elim rest [ none ↦ none | some ys ↦ some (x ∷ ys) ]

unfoldable pub ex_free_pool : ℕ → M (Unit {0})
unfolding remove_one
ex_free_pool a p = elim (remove_one a p.live) [
  | none ↦ none
  | some xs ↦ some (tt, record p { live = xs })
]

abbrev pub count : ℕ → List ℕ → ℕ
count at [] = 0
count at (block ∷ more) = (if block == at then 1 else 0) + count at more

pub count-append :
    (at : ℕ) (own others : List ℕ) → count at (own ++ others) ≡ count at own + count at others
count-append at [] others = omega arith
count-append at (block ∷ own) others = omega (arith, count-append at own others)

-- A block that is live can be freed, and then is live once less.
pub remove_one_counted :
    (a : ℕ) (xs : List ℕ)
    → 0 < count a xs
    → (ys : List ℕ) × (remove_one a xs ≡ some ys)
      × ((b : ℕ) → count b xs ≡ (if a == b then 1 else 0) + count b ys)
unfolding remove_one
remove_one_counted a [] h = absurd (omega arith)
remove_one_counted a (x ∷ xs) h = elim (Bool-cases (x == a)) [
  | inl hit ↦ (xs, ground arith, λ b. ground arith)
  | inr miss ↦
      let (ys, e, k) = remove_one_counted a xs (ground arith) in
      (x ∷ ys, ground (arith, e), λ b. ground (arith, k b))
]

-- The pool's live blocks are, with multiplicity, those of `xs`.
abbrev pub Owns : Pool → List ℕ → Type 0
Owns p xs = (b : ℕ) → count b p.live ≡ count b xs

-- An allocation either fails and leaves the live blocks alone, or adds one.
pub ex_allocate_pool_cases :
    (p : Pool) (xs : List ℕ)
    → Owns p xs
    → ((q : Pool) × (ex_allocate_pool p ≡ some (none, q)) × Owns q xs)
      ⊎ ((a : ℕ) × (q : Pool) × (ex_allocate_pool p ≡ some (some a, q)) × Owns q (a ∷ xs))
unfolding ex_allocate_pool
ex_allocate_pool_cases p xs h = go p.replies refl
  where
    go :
        (rs : List (Option ℕ))
        → p.replies ≡ rs
        → ((q : Pool) × (ex_allocate_pool p ≡ some (none, q)) × Owns q xs)
          ⊎ ((a : ℕ) × (q : Pool) × (ex_allocate_pool p ≡ some (some a, q)) × Owns q (a ∷ xs))
    go [] e = inl (record { live = p.live; replies = [] }, rw (e, ex_allocate_pool), h)
    go (none ∷ rs) e = inl (record { live = p.live; replies = rs }, rw (e, ex_allocate_pool), h)
    go (some a ∷ rs) e = inr (
      a,
      record { live = a ∷ p.live; replies = rs },
      rw (e, ex_allocate_pool),
      λ b. ground (arith, h b),
    )

-- Freeing an owned block does not fault.
pub ex_free_pool_owned :
    (a : ℕ) (p : Pool) (xs : List ℕ)
    → Owns p (a ∷ xs)
    → (q : Pool) × (ex_free_pool a p ≡ some (tt, q)) × Owns q xs
unfolding ex_free_pool
ex_free_pool_owned a p xs h =
    let (ys, e, k) = remove_one_counted a p.live (ground (arith, h a)) in
    (record p { live = ys }, rw (e, ex_free_pool), λ b. ground (arith, h b, k b))

-- A string or structure in a block of the pool.
pub record Block : Type 0 where
  pub at : ℕ
  pub bytes : List ℕ
