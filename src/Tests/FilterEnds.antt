-- ===== src/Tests/FilterEnds.antt =====
-- Start and end of the filter.
use adfilter.Prelude.{◌≡◌, refl, [], ◌∷◌, some, Bool}
use adfilter.Pool.{Pool}
use adfilter.FilterInit.{Filter, filter_init}
use adfilter.FilterInit.Free.{Ends, filter_init-Ends}

abbrev empty_pool : Pool
empty_pool = record { live = []; replies = some 1 ∷ some 2 ∷ [] }

filter_init-Ends_example :
    (ok : Bool) × (f : Filter) × (q : Pool) × (filter_init empty_pool ≡ some ((ok, f), q))
    × Ends ok f q []
filter_init-Ends_example = filter_init-Ends empty_pool [] (λ b. refl)
