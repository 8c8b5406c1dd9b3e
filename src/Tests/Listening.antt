-- ===== src/Tests/Listening.antt =====
-- Port 53 listened on at every address, and one more endpoint.
use adfilter.Prelude.{◌≡◌, ◌↔◌, [], ◌∷◌, some, true}
use adfilter.Pool.{Pool}
use adfilter.Listen.{Entry, Table, update, calc_listen_hash, is_bcast_listen}
use adfilter.Listen.Find.{IsTable, Holds, IsBcast, is_bcast_listen_iff}
use adfilter.Listen.Edit.{update-IsTable}

abbrev empty_table : Table
empty_table _ = []

abbrev entry : Entry
entry = record { at = 2; ipproto = 17; addr = 0; port = 0x3500; addrobj = 1 }

abbrev pool : Pool
pool = record { live = []; replies = some 4 ∷ [] }

abbrev one : Table
one = update (calc_listen_hash 17 0x3500) (entry ∷ []) empty_table

one-IsTable : IsTable one
one-IsTable = update-IsTable entry empty_table (λ h. tt)

is_bcast_listen_iff_example :
    (is_bcast_listen 255 0x3500 17 one ≡ true) ↔ Holds (IsBcast 255 0x3500 17) one
is_bcast_listen_iff_example = is_bcast_listen_iff 255 0x3500 17 one one-IsTable
