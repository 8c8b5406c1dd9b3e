-- ===== src/Control/Invariant.antt =====
-- The state of sys/adfilter between two requests, and the texts that requests carry.
use adfilter.Prelude.{
  All, Any, ℕ, zero, suc, ◌≤◌, ◌<◌, ◌≡◌, ◌⊎◌, inl, inr, List, [], ◌∷◌, ◌++◌, some, arith, ◌==◌,
  length, take, length-take, Bytes, c_text, Bool-cases, Option-cases,
}
use adfilter.Pool.{Pool, Owns, count-append}
use adfilter.HostList.Lookup.{IsHost}
use adfilter.HostList.Memory.{blocks}
use adfilter.Filter.{Adf}
use adfilter.Control.{adf_host_max_len, strnlen_in}

-- Every entry is well formed, and the pool's live blocks are those of the three lists and `rest`.
pub record IsDriver (adf : Adf) (p : Pool) (rest : List ℕ) : Type 0 where
  pub user_hosts : All IsHost adf.user
  pub excpt_hosts : All IsHost adf.excpt
  pub sys_hosts : All IsHost adf.sys
  pub owned : Owns p (blocks adf.user ++ (blocks adf.excpt ++ (blocks adf.sys ++ rest)))

-- Two lists of blocks may change places.
pub Owns-swap :
    (p : Pool) (xs ys zs : List ℕ) → Owns p (xs ++ (ys ++ zs)) → Owns p (ys ++ (xs ++ zs))
Owns-swap p xs ys zs o b = omega (
  arith,
  o b,
  count-append b xs (ys ++ zs),
  count-append b ys zs,
  count-append b ys (xs ++ zs),
  count-append b xs zs,
)

-- A text that strnlen measures within the buffer: a NUL ends it, or it has 128 bytes.
abbrev pub IsHostText : Bytes → Type 0
IsHostText b = (adf_host_max_len ≤ length b) ⊎ Any (λ c. c ≡ 0) b

c_text-take :
    (n : ℕ) (b : Bytes)
    → Any (λ c. c ≡ 0) b
    → ((s : Bytes) × (c_text (take n b) ≡ some s)) ⊎ (n ≤ length b)
unfolding c_text
c_text-take zero b h = inr (omega arith)
c_text-take (suc n) [] h = absurd h
c_text-take (suc n) (c ∷ b) h = elim (Bool-cases (c == 0)) [
  | inl e ↦ inl ([], ground arith)
  | inr e ↦ elim h [
    | inl z ↦ absurd (ground arith)
    | inr k ↦ elim (c_text-take n b k) [
      | inl (s, f) ↦ inl (c ∷ s, ground (arith, f))
      | inr le ↦ inr (omega arith)
    ]
  ]
]

c_text-length : (b s : Bytes) → c_text b ≡ some s → length s < length b
unfolding c_text
c_text-length [] s h = cc
c_text-length (c ∷ b) s h = elim (Bool-cases (c == 0)) [
  | inl e ↦ ground arith
  | inr e ↦ elim (Option-cases (c_text b)) [
    | inl f ↦ ground arith
    | inr (t, f) ↦ ground (arith, c_text-length b t f)
  ]
]

strnlen_in-some :
    (max : ℕ) (b : Bytes)
    → (max ≤ length b) ⊎ Any (λ c. c ≡ 0) b
    → (n : ℕ) × (strnlen_in max b ≡ some n) × (n ≤ max) × (n ≤ length b)
unfolding strnlen_in
strnlen_in-some max b h = elim (Option-cases (c_text (take max b))) [
  | inr (s, e) ↦
      let lt = c_text-length (take max b) s e in
      (
        length s,
        ground (arith, e),
        omega (arith, lt, length-take max b),
        omega (arith, lt, length-take max b),
      )
  | inl e ↦
      let long : max ≤ length b = elim h [
        | inl le ↦ le
        | inr z ↦ elim (c_text-take max b z) [
          | inl (s, f) ↦ absurd (ground (arith, e, f))
          | inr le ↦ le
        ]
      ] in
      (max, ground (arith, e, long), omega arith, long)
]

-- Such a text has a length, of at most 128 bytes of the buffer.
pub host_text_length :
    (b : Bytes)
    → IsHostText b
    → (n : ℕ) × (strnlen_in adf_host_max_len b ≡ some n) × (n ≤ adf_host_max_len) × (n ≤ length b)
host_text_length b h = strnlen_in-some adf_host_max_len b h
