-- ===== src/Tests/Maps.antt =====
-- Examples for the cache of masters as a Go map.
use mt5_bridge.Prelude.{String, ◌≡◌, refl, List, [], ◌∷◌}
use mt5_bridge.Cache.{MasterCache, get}
use mt5_bridge.Cache.Order.{contents, Call, sets, deletes, run, last_left, at_front, run-Exchanged}
use mt5_bridge.Tests.Fixtures.{differs}

abbrev cache : MasterCache
cache = record { cache = ("1001", "m1") ∷ [] }

abbrev one_way : List Call
one_way = deletes "1001" ∷ sets "1002" "m2" ∷ sets "1001" "m3" ∷ []

abbrev other_way : List Call
other_way = sets "1002" "m2" ∷ deletes "1001" ∷ sets "1001" "m3" ∷ []

run-Exchanged_example :
    (contents (run one_way cache) ≡ contents (run other_way cache))
    × ((account_id : String)
        → get account_id (run other_way cache)
          ≡ last_left account_id one_way (get account_id cache))
run-Exchanged_example =
    run-Exchanged one_way other_way cache (at_front (differs "1001" "1002" refl))
