-- ===== src/Filter/Decision.antt =====
-- The verdict of sys/adfilter/filter.c on a DNS query, against the host lists.
use adfilter.Prelude.{
  All, Any, ℕ, ◌-◌, ◌<◌, ◌≡◌, ◌↔◌, ◌⊎◌, inl, inr, List, Option, some, true, arith, length, Bytes,
  Bool-cases,
}
use adfilter.Ipc.{filter_allow, filter_deny}
use adfilter.HostList.{SlreMatch}
use adfilter.HostList.Lookup.{MatchEnds, is_match_host_list_iff}
use adfilter.Dns.{dns_buffer_size, fmt_dns_msg}
use adfilter.Dns.Query.{IsLabel, IsPlain, wire, dotted, query, dns_text, fmt_dns_msg-plain}
use adfilter.Filter.{Adf, filter_lists, filter, tdifw_udp_send}

module _ (slre_match : SlreMatch) where
  -- The match for a pattern of the user or system list ends where the name ends, and for none of the
  -- exception list.
  abbrev pub IsBlocked : Adf → Bytes → Type 0
  IsBlocked adf dns =
      (¬ Any (MatchEnds slre_match dns (length dns)) adf.excpt)
      × (Any (MatchEnds slre_match dns (length dns)) adf.user
          ⊎ Any (MatchEnds slre_match dns (length dns)) adf.sys)

  filter_lists_iff :
      (adf : Adf) (dns : Bytes)
      → (filter_lists slre_match adf dns (length dns) ≡ true) ↔ IsBlocked adf dns
  unfolding filter_lists
  filter_lists_iff adf dns =
      let e = is_match_host_list_iff slre_match adf.excpt dns (length dns) in
      let u = is_match_host_list_iff slre_match adf.user dns (length dns) in
      let s = is_match_host_list_iff slre_match adf.sys dns (length dns) in
      (λ h. ground (arith, e, u, s), λ h. ground (arith, e, u, s))

  filter-text :
      (adf : Adf) (msg dns : Bytes) (len : ℕ)
      → dns_text (fmt_dns_msg msg len) ≡ some dns
      → filter slre_match adf msg len ≡ some (filter_lists slre_match adf dns (length dns))
  unfolding filter
  filter-text adf msg dns len h = ground arith

  -- A verdict that denies exactly what is blocked.
  abbrev pub Decides : Adf → Bytes → Option ℕ → Type 0
  Decides adf dns r =
      ((r ≡ some filter_deny) × IsBlocked adf dns)
      ⊎ ((r ≡ some filter_allow) × (¬ IsBlocked adf dns))

  udp_send-text :
      (adf : Adf) (msg dns : Bytes)
      → adf.need_check ≡ true
      → adf.paused ≡ 0
      → dns_text (fmt_dns_msg msg (length msg - 1)) ≡ some dns
      → Decides adf dns (tdifw_udp_send slre_match adf msg (length msg))
  unfolding tdifw_udp_send
  udp_send-text adf msg dns n p h =
      elim (Bool-cases (filter_lists slre_match adf dns (length dns))) [
        | inl e ↦ inl (
          ground (arith, filter-text adf msg dns (length msg - 1) h),
          (filter_lists_iff adf dns).0 e,
        )
        | inr e ↦ inr (
          ground (arith, filter-text adf msg dns (length msg - 1) h),
          λ b. ground (arith, (filter_lists_iff adf dns).1 b),
        )
      ]

  -- Where DNS is checked and the driver is not paused, a query for a host name, whose labels have
  -- from 1 to 47 bytes, all in ASCII from '0' on, is denied exactly if the match that slre_match finds
  -- for a pattern of the user or the system list ends where the name ends, wherever it begins, and
  -- for no pattern of the exception list; otherwise it is allowed.
  pub tdifw_udp_send-query :
      (adf : Adf) (header l : Bytes) (ms : List Bytes) (tail : Bytes)
      → adf.need_check ≡ true
      → adf.paused ≡ 0
      → length header ≡ 12
      → IsLabel l
      → All IsLabel ms
      → length (wire l ms) < dns_buffer_size
      → IsPlain l
      → All IsPlain ms
      → Decides adf
          (dotted l ms)
          (tdifw_udp_send slre_match adf (query header l ms tail) (length (query header l ms tail)))
  tdifw_udp_send-query adf header l ms tail n p h w ws r a b =
      udp_send-text adf (query header l ms tail) (dotted l ms) n p
        (fmt_dns_msg-plain header l ms tail h w ws r a b)
