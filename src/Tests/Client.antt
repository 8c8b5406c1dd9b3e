-- ===== src/Tests/Client.antt =====
-- The console client: its requests and its command line.
use adfilter.Prelude.{◌≡◌, refl, [], ◌∷◌, true, false, Bytes, bytes_eq}
use adfilter.Console.{main, host, codes}

-- "ads"
abbrev name : Bytes
name = 97 ∷ 100 ∷ 115 ∷ []

main_del : main true (codes "del" ∷ name ∷ []) ≡ host name false false
unfolding main bytes_eq
main_del = refl
