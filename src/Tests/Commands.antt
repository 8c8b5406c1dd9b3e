-- ===== src/Tests/Commands.antt =====
-- Requests of the user part, and its list of SIDs.
use adfilter.Prelude.{◌≡◌, refl, [], ◌∷◌, ◌++◌, some, arith, length, Bytes}
use adfilter.Pool.{Pool, Owns}
use adfilter.Process.Invariant.{name_blocks}
use adfilter.Rules.{cleared}
use adfilter.Sids.{Sids, Status, no_sids, se_length_sid, set_sid_list}
use adfilter.Sids.Parsing.{IsSid, encode}
use adfilter.Sids.Encoding.{IsSidList, set_sid_list-IsSidList}
use adfilter.IpcRequest.{Firewall, setpname, process_request}
use adfilter.IpcRequest.Safety.{IsSound, Returns, process_request-Returns}
use adfilter.Tests.Processes.{two, two_live, two-IsPlist}
use adfilter.Tests.Logging.{start}

abbrev idle : Firewall
idle = record {
  chains = λ _. cleared;
  plist = two;
  queue = start;
  sids = no_sids;
  g_traffic = 0 ∷ 0 ∷ 0 ∷ 0 ∷ [];
}

idle-IsSound : IsSound idle two_live
idle-IsSound = record {
  chains_owned = λ c h. (
    two_live.live,
    record { linked = record { distinct = tt; at_end = refl }; owned = λ b. refl },
  );
  plist_owned = ([], two-IsPlist);
  queue_owned =
      (two_live.live, record { head_in = omega arith; tail_in = omega arith; owned = λ b. refl });
  sids_owned = (two_live.live, λ b. refl);
}

-- Process 20 gets the name "ab".
abbrev name_twenty : Bytes
name_twenty = 20 ∷ 0 ∷ 0 ∷ 0 ∷ 97 ∷ 98 ∷ 0 ∷ []

process_request-Returns_example :
    Returns (process_request idle 7 0 setpname (some name_twenty) two_live)
process_request-Returns_example =
    process_request-Returns idle setpname (some name_twenty) 7 0 two_live idle-IsSound refl refl
      (omega arith)

-- Two SIDs of one sub-authority each.
abbrev admin : Bytes
admin = 1 ∷ 1 ∷ 0 ∷ 0 ∷ 0 ∷ 0 ∷ 0 ∷ 5 ∷ 32 ∷ 2 ∷ 0 ∷ 0 ∷ []

abbrev guest : Bytes
guest = 1 ∷ 1 ∷ 0 ∷ 0 ∷ 0 ∷ 0 ∷ 0 ∷ 5 ∷ 33 ∷ 2 ∷ 0 ∷ 0 ∷ []

admin-IsSid : IsSid admin
unfolding se_length_sid
admin-IsSid = refl

guest-IsSid : IsSid guest
unfolding se_length_sid
guest-IsSid = refl

set_sid_list-IsSidList_example :
    (st : Status) × (s : Sids) × (q : Pool) × (set_sid_list
        (some (encode (admin ∷ guest ∷ [])))
        (length (encode (admin ∷ guest ∷ [])))
        no_sids
        two_live
      ≡ some ((st, s), q))
    × IsSidList (admin ∷ guest ∷ []) guest st s
    × Owns q (name_blocks s.buf ++ two_live.live)
set_sid_list-IsSidList_example =
    set_sid_list-IsSidList (admin ∷ guest ∷ []) guest no_sids two_live two_live.live (λ b. refl)
      guest-IsSid (admin-IsSid, (guest-IsSid, tt)) (omega arith) (omega arith)
