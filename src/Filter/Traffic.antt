-- ===== src/Filter/Traffic.antt =====
-- The calls that tdi_fw makes: tdifw_filter for the addresses of each request, then for a datagram
-- tdifw_udp_send for its bytes. The first leaves in a static what the second tests.
use adfilter.Prelude.{
  All, ℕ, ◌≡◌, ◌≢◌, refl, ap, ◌∙◌, ◌⊎◌, inl, inr, List, [], ◌∷◌, ◌++◌, Option, some, true, arith,
  ◌==◌, if◌then◌else◌, length, Bytes, Bool-cases,
}
use adfilter.Sock.{ntohs, ipproto_udp}
use adfilter.Ipc.{FltRequest, filter_allow}
use adfilter.HostList.{SlreMatch}
use adfilter.Filter.{Adf, tdifw_filter, tdifw_udp_send}

-- The state after a sequence of requests.
unfoldable pub filtered : Adf → List FltRequest → Adf
filtered adf [] = adf
filtered adf (request ∷ more) = filtered (tdifw_filter adf request).1 more

abbrev pub IsOther : FltRequest → Type 0
IsOther request = request.proto ≢ ipproto_udp

filtered-IsOther :
    (adf : Adf) (requests : List FltRequest) → All IsOther requests → filtered adf requests ≡ adf
unfolding filtered tdifw_filter
filtered-IsOther adf [] k = refl
filtered-IsOther adf (r ∷ requests) (k, ks) =
    let same : (tdifw_filter adf r).1 ≡ adf = ground (arith, k) in
    ap (λ a. filtered a requests) same ∙ filtered-IsOther adf requests ks

filtered-last :
    (front : List FltRequest) (adf : Adf) (udp : FltRequest) (others : List FltRequest)
    → udp.proto ≡ ipproto_udp
    → All IsOther others
    → filtered adf (front ++ udp ∷ others) ≡ record adf { need_check = ntohs udp.to.sin_port == 53 }
unfolding filtered tdifw_filter
filtered-last [] adf udp others p k =
    let set : (tdifw_filter adf udp).1 ≡ record adf { need_check = ntohs udp.to.sin_port == 53 } =
      ground (arith, p) in
    ap (λ a. filtered a others) set ∙ filtered-IsOther _ others k
filtered-last (r ∷ front) adf udp others p k = elim (Bool-cases (r.proto == ipproto_udp)) [
  | inl y ↦
      let set : (tdifw_filter adf r).1 ≡ record adf { need_check = ntohs r.to.sin_port == 53 } =
        ground (arith, y) in
      ap (λ a. filtered a (front ++ udp ∷ others)) set ∙ filtered-last front _ udp others p k
  | inr n ↦
      let same : (tdifw_filter adf r).1 ≡ adf = ground (arith, n) in
      ap (λ a. filtered a (front ++ udp ∷ others)) same ∙ filtered-last front adf udp others p k
]

module _ (slre_match : SlreMatch) where
  -- Both calls: the verdict of the second, and the state after them.
  abbrev pub datagram : Adf → FltRequest → Bytes → Option ℕ × Adf
  datagram adf request msg =
      let next = (tdifw_filter adf request).1 in
      (tdifw_udp_send slre_match next msg (length msg), next)

  -- A UDP datagram to another port than 53, and any UDP datagram while the driver is paused, is
  -- allowed, whatever went before and whatever its bytes are; the host lists, the pause and the
  -- device stay as they are.
  tdifw_udp_send-other_port :
      (adf : Adf) (request : FltRequest) (msg : Bytes)
      → request.proto ≡ ipproto_udp
      → (ntohs request.to.sin_port ≢ 53) ⊎ (adf.paused ≢ 0)
      → datagram adf request msg
        ≡ (some filter_allow, record adf { need_check = ntohs request.to.sin_port == 53 })
  unfolding tdifw_filter tdifw_udp_send
  tdifw_udp_send-other_port adf request msg p (inl h) = ground arith
  tdifw_udp_send-other_port adf request msg p (inr h) = ground arith

  -- The static outlives the request that set it. After any sequence of requests, while the driver
  -- is not paused, a datagram of a protocol other than UDP is treated by the last UDP request among
  -- them: if that went to port 53 the datagram is searched for a host name as a query is, and
  -- otherwise it is allowed, however many requests of other protocols came between.
  pub tdifw_udp_send-stale_check :
      (adf : Adf) (front : List FltRequest) (udp : FltRequest) (others : List FltRequest)
      (raw : FltRequest) (msg : Bytes)
      → adf.paused ≡ 0
      → udp.proto ≡ ipproto_udp
      → All IsOther others
      → IsOther raw
      → (datagram (filtered adf (front ++ udp ∷ others)) raw msg).0 ≡ (
          if ntohs udp.to.sin_port == 53
          then tdifw_udp_send slre_match (record adf { need_check = true }) msg (length msg)
          else some filter_allow)
  unfolding tdifw_filter tdifw_udp_send
  tdifw_udp_send-stale_check adf front udp others raw msg z p k q =
      let next : Adf = record adf { need_check = ntohs udp.to.sin_port == 53 } in
      let e : filtered adf (front ++ udp ∷ others) ≡ next =
        filtered-last front adf udp others p k in
      let same : (tdifw_filter next raw).1 ≡ next = ground (arith, q) in
      ap (λ a. tdifw_udp_send slre_match (tdifw_filter a raw).1 msg (length msg)) e
      ∙ ap (λ a. tdifw_udp_send slre_match a msg (length msg)) same
      ∙ ground (arith, z)
