-- ===== src/Tests/Hosts.antt =====
-- sys/adfilter/list.c on small lists.
use adfilter.Prelude.{
  All, ◌≡◌, refl, List, [], ◌∷◌, ◌++◌, Option, none, some, Bool, true, arith, bytes_eq, pos, negsuc,
  if◌then◌else◌,
}
use adfilter.Pool.{Pool, Owns, ex_allocate_pool, ex_free_pool}
use adfilter.HostList.{
  Host, SlreMatch, is_same_host, is_in_host_list, new_host_list, add_host_list, remove_host_list,
}
use adfilter.HostList.Lookup.{IsHost, names}
use adfilter.HostList.Memory.{blocks}
use adfilter.HostList.Edit.{erase_name, remove_host_list_lem}

-- "ab" and "c", in blocks 1 to 4.
abbrev pub host_ab : Host
host_ab = record {
  entry_at = 1;
  buffer_at = 2;
  buffer = 97 ∷ 98 ∷ 0 ∷ [];
  length = 2;
  maximum_length = 3;
}

abbrev pub host_c : Host
host_c = record {
  entry_at = 3;
  buffer_at = 4;
  buffer = 99 ∷ 0 ∷ [];
  length = 1;
  maximum_length = 2;
}

abbrev pub two_hosts : List Host
two_hosts = host_c ∷ host_ab ∷ []

abbrev pub two_pool : Pool
two_pool = record { live = 4 ∷ 3 ∷ 2 ∷ 1 ∷ []; replies = some 5 ∷ some 6 ∷ none ∷ [] }

-- A matcher that knows plain names only.
abbrev pub literal_match : SlreMatch
literal_match re buf len caps flags = if bytes_eq re buf then pos len else negsuc 0

pub two_hosts-IsHost : All IsHost two_hosts
two_hosts-IsHost =
    (record { sized = refl; capacity = refl }, (record { sized = refl; capacity = refl }, tt))

two_pool-Owns : Owns two_pool (blocks two_hosts ++ [])
two_pool-Owns b = omega arith

abbrev Removes : Option ((Bool × List Host) × Pool) → Type 0
Removes r =
    (hs : List Host) × (q : Pool) × (r ≡ some ((is_in_host_list two_hosts (97 ∷ 98 ∷ []) 2, hs), q))
    × (names hs ≡ erase_name (97 ∷ 98 ∷ []) (names two_hosts))
    × All IsHost hs
    × Owns q (blocks hs ++ [])

remove_host_list_lem_example : Removes (remove_host_list two_hosts (97 ∷ 98 ∷ []) 2 two_pool)
remove_host_list_lem_example =
    remove_host_list_lem two_hosts (97 ∷ 98 ∷ []) 2 two_pool [] (omega arith) two_hosts-IsHost
      two_pool-Owns

add_run :
    add_host_list two_hosts (100 ∷ 0 ∷ []) 1 two_pool
    ≡ some (
      (
        true,
        record {
          entry_at = 5;
          buffer_at = 6;
          buffer = 100 ∷ 0 ∷ [];
          length = 1;
          maximum_length = 2;
        }
            ∷ two_hosts,
      ),
      record { live = 6 ∷ 5 ∷ two_pool.live; replies = none ∷ [] },
    )
unfolding add_host_list new_host_list ex_allocate_pool ex_free_pool
add_run = refl

remove_run :
    remove_host_list two_hosts (97 ∷ 98 ∷ []) 2 two_pool
    ≡ some ((true, host_c ∷ []), record two_pool { live = 4 ∷ 3 ∷ [] })
unfolding remove_host_list is_same_host bytes_eq ex_free_pool
remove_run = refl
