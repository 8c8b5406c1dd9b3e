-- ===== src/Dns/Safety.antt =====
-- Where fmt_dns_msg reads outside of the datagram.
use adfilter.Prelude.{
  ℕ, zero, suc, ◌+◌, ◌-◌, ◌≤◌, ◌<◌, ◌≡◌, refl, ◌↔◌, [], ◌∷◌, none, arith, length, drop, Bytes,
  NoNul,
}
use adfilter.Dns.{dns_buffer_size, fmt_loop, fmt_dns_msg}

fmt_loop_fault :
    (msg : Bytes) (n i : ℕ)
    → length msg < n
    → i + length msg ≤ dns_buffer_size
    → (fmt_loop n i msg ≡ none) ↔ NoNul msg
unfolding fmt_loop
fmt_loop_fault [] zero i r b = absurd (omega arith)
fmt_loop_fault [] (suc n) i r b = (λ _. tt, λ _. refl)
fmt_loop_fault (c ∷ s) zero i r b = absurd (omega arith)
fmt_loop_fault (c ∷ s) (suc n) i r b =
    let (ih, hi) = fmt_loop_fault s n (i + 1) (omega arith) (omega arith) in
    (λ e. ground (arith, ih), λ e. ground (arith, hi))

length-drop : (n : ℕ) (xs : Bytes) → length (drop n xs) ≡ length xs - n
length-drop zero xs = omega arith
length-drop (suc n) [] = omega arith
length-drop (suc n) (x ∷ xs) = omega (arith, length-drop n xs)

-- Called as tdifw_udp_send calls it, on a datagram of at least 2 and at most 1037 bytes, the
-- function leaves its buffers exactly if no byte from offset 13 on is zero: it does not know where
-- the datagram ends.
pub fmt_dns_msg_fault :
    (msg : Bytes)
    → 2 ≤ length msg
    → length msg ≤ dns_buffer_size + 13
    → (fmt_dns_msg msg (length msg - 1) ≡ none) ↔ NoNul (drop 13 msg)
unfolding fmt_dns_msg
fmt_dns_msg_fault msg a b =
    let (there, back) =
      fmt_loop_fault (drop 13 msg) (length msg - 1) 0 (omega (arith, length-drop 13 msg))
        (omega (arith, length-drop 13 msg)) in
    (λ e. there (ground arith), λ e. ground (arith, back e))
