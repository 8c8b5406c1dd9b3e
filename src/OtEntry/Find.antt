-- ===== src/OtEntry/Find.antt =====
-- The search of the table after a write to an entry.
use adfilter.Prelude.{
  ℕ, ◌≡◌, ◌≢◌, refl, List, [], ◌∷◌, Option, none, some, ◌==◌, arith, Bool-cases, inl, inr,
}
use adfilter.OtEntry.{
  OtEntry, Objects, calc_hash, find_ote, ot_find_fileobj, write_ote, write_object,
}

abbrev pub written : (OtEntry → OtEntry) → Option OtEntry → Option OtEntry
written f none = none
written f (some ote) = some (f ote)

find_ote-write_ote :
    (fileobj : ℕ) (f : OtEntry → OtEntry) (es : List OtEntry)
    → ((e : OtEntry) → (f e).fileobj ≡ e.fileobj)
    → find_ote fileobj (write_ote fileobj f es) ≡ written f (find_ote fileobj es)
unfolding find_ote write_ote
find_ote-write_ote fileobj f [] k = refl
find_ote-write_ote fileobj f (e ∷ es) k =
    let ih = find_ote-write_ote fileobj f es k in let here = k e in ground arith

find_ote-write_ote_other :
    (fileobj other : ℕ) (f : OtEntry → OtEntry) (es : List OtEntry)
    → ((e : OtEntry) → (f e).fileobj ≡ e.fileobj)
    → other ≢ fileobj
    → find_ote other (write_ote fileobj f es) ≡ find_ote other es
unfolding find_ote write_ote
find_ote-write_ote_other fileobj other f [] k n = refl
find_ote-write_ote_other fileobj other f (e ∷ es) k n =
    let ih = find_ote-write_ote_other fileobj other f es k n in let here = k e in ground arith

-- A write that keeps the file object is what the search of that object gives, and no other search
-- sees it.
pub ot_find_fileobj-write_object :
    (fileobj other : ℕ) (f : OtEntry → OtEntry) (t : Objects)
    → ((e : OtEntry) → (f e).fileobj ≡ e.fileobj)
    → (ot_find_fileobj fileobj (write_object fileobj f t) ≡ written f (ot_find_fileobj fileobj t))
      × (other ≢ fileobj
          → ot_find_fileobj other (write_object fileobj f t) ≡ ot_find_fileobj other t)
unfolding ot_find_fileobj write_object
ot_find_fileobj-write_object fileobj other f t k = (
  (let here = find_ote-write_ote fileobj f (t (calc_hash fileobj)) k in ground arith),
  λ n.
      (let there = find_ote-write_ote_other fileobj other f (t (calc_hash fileobj)) k n in
        elim (Bool-cases (calc_hash other == calc_hash fileobj)) [
          | inl y ↦
              (let same : calc_hash other ≡ calc_hash fileobj = ground arith in
                ground (arith, y, same))
          | inr n ↦ ground (arith, n)
        ]),
)
