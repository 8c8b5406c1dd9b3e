-- ===== src/RequestQueue/Pending.antt =====
-- The requests in the ring, from the oldest to the newest, and the blocks that they own.
use adfilter.Prelude.{
  ℕ, zero, suc, ◌+◌, ◌-◌, ◌%◌, ◌≤◌, ◌<◌, ◌≡◌, ◌≢◌, refl, ap, ◌∙◌, List, [], ◌∷◌, ◌++◌, arith,
  length,
}
use adfilter.Pool.{Pool, Owns, count, count-append}
use adfilter.Ipc.{FltRequest}
use adfilter.Process.Invariant.{name_blocks}
use adfilter.RequestQueue.{Queue, request_queue_size, write, next}

abbrev pub slots : (ℕ → FltRequest) → ℕ → ℕ → List FltRequest
slots s t zero = []
slots s t (suc n) = s t ∷ slots s (next t) n

abbrev pub used : Queue → ℕ
used q = (q.head + request_queue_size - q.tail) % request_queue_size

abbrev pub pending : Queue → List FltRequest
pending q = slots q.slot q.tail (used q)

abbrev pub request_blocks : FltRequest → List ℕ
request_blocks r = name_blocks r.pname ++ name_blocks r.sid_a

abbrev pub blocks : List FltRequest → List ℕ
blocks [] = []
blocks (r ∷ rs) = request_blocks r ++ blocks rs

-- The indices are in the ring, and the live blocks are those of the pending requests.
pub record IsQueue (q : Queue) (p : Pool) (rest : List ℕ) : Type 0 where
  pub head_in : q.head < request_queue_size
  pub tail_in : q.tail < request_queue_size
  pub owned : Owns p (blocks (pending q) ++ rest)

pub count-blocks :
    (b : ℕ) (xs ys : List FltRequest)
    → count b (blocks (xs ++ ys)) ≡ count b (blocks xs) + count b (blocks ys)
count-blocks b [] ys = omega arith
count-blocks b (x ∷ xs) ys = omega (
  arith,
  count-blocks b xs ys,
  count-append b (request_blocks x) (blocks (xs ++ ys)),
  count-append b (request_blocks x) (blocks xs),
)

pub length-slots : (s : ℕ → FltRequest) (t n : ℕ) → length (slots s t n) ≡ n
length-slots s t zero = refl
length-slots s t (suc n) = ap suc (length-slots s (next t) n)

pub slots-snoc :
    (s : ℕ → FltRequest) (t n : ℕ)
    → t < request_queue_size
    → slots s t (suc n) ≡ slots s t n ++ s ((t + n) % request_queue_size) ∷ []
slots-snoc s t zero h =
    let e : t ≡ (t + 0) % request_queue_size = omega arith in ap (λ i. s i ∷ []) e
slots-snoc s t (suc n) h =
    let e : (next t + n) % request_queue_size ≡ (t + suc n) % request_queue_size = omega arith in
    ap (◌∷◌ (s t))
      (slots-snoc s (next t) n (omega arith) ∙ ap (λ i. slots s (next t) n ++ s i ∷ []) e)

-- A write that is not in front of `n` slots from the tail on.
pub slots-write :
    (s : ℕ → FltRequest) (h t n : ℕ) (r : FltRequest)
    → h < request_queue_size
    → t < request_queue_size
    → n ≤ (h + request_queue_size - t) % request_queue_size
    → slots (write h r s) t n ≡ slots s t n
slots-write s h t zero r a b c = refl
slots-write s h t (suc n) r a b c =
    let d : t ≢ h = λ e. omega arith in
    let e : write h r s t ≡ s t = ground arith in
    ap (◌∷◌ (write h r s t)) (slots-write s h (next t) n r a (omega arith) (omega arith))
    ∙ ap (λ x. x ∷ slots s (next t) n) e
