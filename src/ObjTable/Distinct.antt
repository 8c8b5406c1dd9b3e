-- ===== src/ObjTable/Distinct.antt =====
-- The chains of the table of file objects: no object has two entries in a chain.
use adfilter.Prelude.{
  ℕ, ◌≡◌, ◌≢◌, refl, sym, ap, subst, ◌∙◌, inl, inr, List, [], ◌∷◌, none, true, false, if◌then◌else◌,
  ◌==◌, arith, Bool-cases,
}
use adfilter.OtEntry.{OtEntry, Objects, calc_hash, find_ote, ot_find_fileobj, update}
use adfilter.ObjTable.{unlink_ote}

abbrev pub IsDistinct : List OtEntry → Type 0
IsDistinct [] = Unit {0}
IsDistinct (e ∷ es) = (find_ote e.fileobj es ≡ none) × IsDistinct es

pub find_ote-unlink_ote :
    (fileobj : ℕ) (es : List OtEntry)
    → IsDistinct es
    → find_ote fileobj (unlink_ote fileobj es) ≡ none
unfolding find_ote unlink_ote
find_ote-unlink_ote fileobj [] w = refl
find_ote-unlink_ote fileobj (e ∷ es) (n, w) =
    let ih = find_ote-unlink_ote fileobj es w in
    elim (Bool-cases (e.fileobj == fileobj)) [
      | inl y ↦
          (let same : e.fileobj ≡ fileobj = ground arith in
            ground (arith, y, subst (λ f. find_ote f es ≡ none) same n))
      | inr m ↦ ground (arith, m, ih)
    ]

pub find_ote-unlink_ote_other :
    (fileobj other : ℕ) (es : List OtEntry)
    → other ≢ fileobj
    → find_ote other (unlink_ote fileobj es) ≡ find_ote other es
unfolding find_ote unlink_ote
find_ote-unlink_ote_other fileobj other [] n = refl
find_ote-unlink_ote_other fileobj other (e ∷ es) n =
    let ih = find_ote-unlink_ote_other fileobj other es n in ground (arith, ih)

unlink_ote-IsDistinct :
    (fileobj : ℕ) (es : List OtEntry) → IsDistinct es → IsDistinct (unlink_ote fileobj es)
unfolding unlink_ote
unlink_ote-IsDistinct fileobj [] w = tt
unlink_ote-IsDistinct fileobj (e ∷ es) (n, w) =
    let ih = unlink_ote-IsDistinct fileobj es w in
    elim (Bool-cases (e.fileobj == fileobj)) [
      | inl y ↦ subst IsDistinct (sym (here y)) w
      | inr m ↦
          (let other : e.fileobj ≢ fileobj = λ s. ground (arith, m, s) in
            subst IsDistinct (sym (there m))
              (find_ote-unlink_ote_other fileobj e.fileobj es other ∙ n, ih))
    ]
  where
    here :
        (e.fileobj == fileobj) ≡ true
        → (if e.fileobj == fileobj then es else e ∷ unlink_ote fileobj es) ≡ es
    here y = ground (arith, y)

    there :
        (e.fileobj == fileobj) ≡ false
        → (if e.fileobj == fileobj then es else e ∷ unlink_ote fileobj es)
          ≡ e ∷ unlink_ote fileobj es
    there m = ground (arith, m)

-- A chain at its own hash and at another.
pub ot_find_fileobj-update :
    (fileobj : ℕ) (es : List OtEntry) (t : Objects)
    → fileobj ≢ 0
    → ot_find_fileobj fileobj (update (calc_hash fileobj) es t) ≡ find_ote fileobj es
unfolding ot_find_fileobj
ot_find_fileobj-update fileobj es t n = ground arith

pub ot_find_fileobj-update_other :
    (fileobj other : ℕ) (es : List OtEntry) (t : Objects)
    → find_ote other es ≡ find_ote other (t (calc_hash fileobj))
    → ot_find_fileobj other (update (calc_hash fileobj) es t) ≡ ot_find_fileobj other t
unfolding ot_find_fileobj
ot_find_fileobj-update_other fileobj other es t k =
    elim (Bool-cases (calc_hash other == calc_hash fileobj)) [
      | inl y ↦
          (let same : calc_hash other ≡ calc_hash fileobj = eq y in
            let k' = k ∙ ap (λ h. find_ote other (t h)) (sym same) in ground (arith, y, k'))
      | inr m ↦ ground (arith, m)
    ]
  where
    eq : {x y : ℕ} → (x == y) ≡ true → x ≡ y
    eq h = ground (arith, h)
