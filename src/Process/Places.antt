-- ===== src/Process/Places.antt =====
-- The entry of a process, found or made.
use adfilter.Prelude.{
  ℕ, ◌≡◌, ◌≢◌, refl, ap, sym, ◌∙◌, ◌⊎◌, inl, inr, List, [], ◌∷◌, ◌++◌, none, some, arith, All,
  Option-cases,
}
use adfilter.Pool.{Pool}
use adfilter.Process.{Ple, Plist, Place, find_ple, fresh_ple, place_at, find_or_add}
use adfilter.Process.Invariant.{IsPlist, IsFresh, add_ple_cases, find_ple-IsFound}
use adfilter.Process.Search.{found, entry_of, found-snoc, none-All, place_at-snoc}

-- The entry of the process, there already or new, in its place.
pub record IsPlace (pid : ℕ) (l l' : Plist) (p : Place) : Type 0 where
  pub split : l'.nodes ≡ p.before ++ p.entry ∷ p.after
  pub pid_of : p.entry.1.pid ≡ pid
  pub first : All (λ (x : ℕ × Ple). x.1.pid ≢ pid) p.before
  pub others : (other : ℕ) → other ≢ pid → entry_of other l' ≡ entry_of other l
  pub old :
      (entry_of pid l ≡ some p.entry.1) ⊎ ((entry_of pid l ≡ none) × (p.entry.1 ≡ fresh_ple pid))

module _ (pid : ℕ) (l : Plist) (p : Pool) (rest : List ℕ) (w : IsPlist l p rest)
    (f : IsFresh p) where
  pub find_or_add_cases :
      ((q : Pool) × (find_or_add pid l p ≡ some ((none, l), q))
        × (entry_of pid l ≡ none)
        × IsPlist l q rest)
      ⊎ ((r : Place) × (l' : Plist) × (q : Pool) × (find_or_add pid l p ≡ some ((some r, l'), q))
          × IsPlace pid l l' r
          × IsPlist l' q rest)
  unfolding find_or_add
  find_or_add_cases = elim (Option-cases (find_ple pid l.nodes)) [
    | inr (r, g) ↦
        let k = find_ple-IsFound pid l.nodes r g in
        inr (
          r,
          l,
          p,
          ground (arith, g),
          record {
            split = k.split;
            pid_of = k.pid_of;
            first = k.first;
            others = λ other h. refl;
            old = inl (ap found g);
          },
          w,
        )
    | inl n ↦ elim (add_ple_cases pid l p rest w f) [
      | inl (q, _, e, w') ↦ inl (q, ground (arith, n, e), ap found n, w')
      | inr (a, l', q, e, k, new, w') ↦
          let at : place_at a l'.nodes
              ≡ some (record { before = l.nodes; entry = (a, fresh_ple pid); after = [] }) =
            ap (place_at a) k ∙ place_at-snoc l.nodes (a, fresh_ple pid) new in
          inr (
            record { before = l.nodes; entry = (a, fresh_ple pid); after = [] },
            l',
            q,
            ground (arith, n, e, at),
            record {
              split = k;
              pid_of = refl;
              first = none-All pid l.nodes n;
              others = λ other h.
                  ap (λ ns. found (find_ple other ns)) k
                  ∙ found-snoc other l.nodes (a, fresh_ple pid) (λ e. h (sym e));
              old = inr (ap found n, refl);
            },
            w',
          )
    ]
  ]
