-- ===== src/Console/Request.antt =====
-- What a command of exe/adfcon makes the driver do.

use native.Mathlib.Decide.{dec_lt}
use adfilter.Prelude.{
  ℕ, ◌+◌, ◌≤◌, ◌≡◌, refl, ap, ◌∙◌, ◌⊎◌, inl, inr, [], ◌∷◌, ◌++◌, none, some, Bool, true, false,
  arith, length, take, length-append, take_of_length-le, take-append_length, Bytes, NoNul, c_text,
  Any, bytes_eq,
}
use adfilter.Control.{adf_host_max_len, strnlen_in}
use adfilter.Control.Hosts.{IsSafe, host_text, measured}
use adfilter.Control.Invariant.{IsHostText}
use adfilter.Console.{host_code, host_request, main, crash, codes}

c_text-NoNul : (xs : Bytes) → NoNul xs → c_text xs ≡ none
unfolding c_text
c_text-NoNul [] h = refl
c_text-NoNul (x ∷ xs) h = ground (arith, c_text-NoNul xs h.1)

c_text-nul : (xs : Bytes) → NoNul xs → c_text (xs ++ 0 ∷ []) ≡ some xs
unfolding c_text
c_text-nul [] h = refl
c_text-nul (x ∷ xs) h = ground (arith, c_text-nul xs h.1)

-- A text with its NUL measures as the text, if it has at most `max` bytes.
strnlen_in-text :
    (max : ℕ) (name : Bytes)
    → NoNul name
    → length name ≤ max
    → strnlen_in max (name ++ 0 ∷ []) ≡ some (length name)
unfolding strnlen_in
strnlen_in-text max name w r = elim (dec_lt (length name) max) [
  | yes h ↦
      let whole : take max (name ++ 0 ∷ []) ≡ name ++ 0 ∷ [] =
        take_of_length-le max _ (omega (arith, length-append name (0 ∷ []))) in
      let e = ap c_text whole ∙ c_text-nul name w in ground (arith, e)
  | no h ↦
      let same : max ≡ length name = omega arith in
      let e =
        ap (λ n. c_text (take n (name ++ 0 ∷ []))) same
        ∙ ap c_text (take-append_length name (0 ∷ []))
        ∙ c_text-NoNul name w in
      ground (arith, e, length-append name (0 ∷ []))
]

nul-Any : (xs : Bytes) → Any (λ c. c ≡ 0) (xs ++ 0 ∷ [])
nul-Any [] = inl refl
nul-Any (x ∷ xs) = inr (nul-Any xs)

code-IsSafe : (add except : Bool) (b : Bytes) → IsHostText b → IsSafe (host_code add except) b
code-IsSafe true true b h = h
code-IsSafe true false b h = h
code-IsSafe false true b h = h
code-IsSafe false false b h = h

-- The request that adf_host makes for a host name of at most 128 bytes, with its NUL, is one that
-- the driver takes without leaving the buffer, and the driver reads the name from it.
host_request-host_text :
    (name : Bytes) (add except : Bool)
    → NoNul name
    → length name ≤ adf_host_max_len
    → (let irp = host_request (name ++ 0 ∷ []) (length name) add except in
        (b : Bytes) × (irp.buffer ≡ some b) × IsSafe irp.code b × (host_text b ≡ name))
unfolding host_request
host_request-host_text name add except w r =
    let b = name ++ 0 ∷ [] in
    let sent : take (length name + 1) b ≡ b =
      take_of_length-le (length name + 1) b (omega (arith, length-append name (0 ∷ []))) in
    (
      b,
      ap some sent,
      code-IsSafe add except b (inr (nul-Any name)),
      ap (measured b) (strnlen_in-text adf_host_max_len name w r)
          ∙ take-append_length name (0 ∷ []),
    )

-- The commands that need a host name.
abbrev pub IsHostCommand : Bytes → Type 0
IsHostCommand cmd =
    (cmd ≡ codes "add") ⊎ (cmd ≡ codes "del") ⊎ (cmd ≡ codes "addE") ⊎ (cmd ≡ codes "delE")

-- Where the device opens, a host command with no host name crashes: it is reported and not refused.
main-no_host : (cmd : Bytes) → IsHostCommand cmd → main true (cmd ∷ []) ≡ crash
unfolding main bytes_eq
main-no_host cmd (inl e) = rw e refl
main-no_host cmd (inr (inl e)) = rw e refl
main-no_host cmd (inr (inr (inl e))) = rw e refl
main-no_host cmd (inr (inr (inr e))) = rw e refl
