-- ===== src/Filter.antt =====
-- sys/adfilter/filter.c: which datagrams the driver denies. `slre_match` is the matcher of
-- sys/slre, a parameter. An outer `none` is an access outside of a buffer.
pub mod Decision
pub mod Traffic
use adfilter.Prelude.{
  ℕ, ◌+◌, ◌-◌, List, Option, none, some, Bool, true, false, ◌==◌, if◌then◌else◌, length, Bytes,
  c_text,
}
use adfilter.Sock.{ntohs, ipproto_udp}
use adfilter.Ipc.{FltRequest, filter_allow}
use adfilter.HostList.{Host, SlreMatch, is_match_host_list}
use adfilter.Dns.{fmt_dns_msg}

-- struct Adf of adfilter.h, with the static `g_need_check` of filter.c; the lock is implicit, since
-- each operation is one step.
pub record Adf : Type 0 where
  pub paused : ℕ
  pub device : ℕ
  pub sys : List Host
  pub user : List Host
  pub excpt : List Host
  pub need_check : Bool

module _ (slre_match : SlreMatch) where
  -- The searches of `filter`, in their order, with what each answer leads to.
  unfoldable pub filter_lists : Adf → Bytes → ℕ → Bool
  filter_lists adf dns dnslen =
      if is_match_host_list slre_match adf.excpt dns dnslen
      then false
      else (if is_match_host_list slre_match adf.user dns dnslen
          then true
          else is_match_host_list slre_match adf.sys dns dnslen)

  unfoldable pub filter : Adf → Bytes → ℕ → Option Bool
  unfolding filter_lists
  filter adf msg len = elim (fmt_dns_msg msg len) [
    | none ↦ none
    | some dns_buffer ↦ elim (c_text dns_buffer) [
      | none ↦ none
      | some dns ↦ some (filter_lists adf dns (length dns))
    ]
  ]

  -- `len--` and then the verdict: 0 or 1, plus 1.
  unfoldable pub tdifw_udp_send : Adf → Bytes → ℕ → Option ℕ
  tdifw_udp_send adf msg len =
      if adf.need_check
      then (if adf.paused == 0
          then (elim (filter adf msg (len - 1)) [
            | none ↦ none
            | some found ↦ some ((if found then 1 else 0) + 1)
          ])
          else some filter_allow)
      else some filter_allow

unfoldable pub tdifw_filter : Adf → FltRequest → ℕ × Adf
tdifw_filter adf request =
    if request.proto == ipproto_udp
    then (filter_allow, record adf { need_check = ntohs request.to.sin_port == 53 })
    else (filter_allow, adf)
