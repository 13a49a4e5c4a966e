-- ===== src/Dns/Subscribe/Tests.antt =====
-- The theorems on subscriptions at concrete inputs.
use ylars.Base.{◌≡◌, refl, not, ◌&&◌, [], ◌∷◌}
use ylars.Base.NatSet
use ylars.Dns.Subscribe.{SubscribeList, at, publish, make_publish_map}
use ylars.Dns.Subscribe.Publish.{is_pending, make_publish_map_lem}

-- Descriptor 5 is booked for the modules 1 and 2, descriptor 6 for 2, and 1 waits for 5.
abbrev booked : SubscribeList
booked = record { book_list = (1, 5 ∷ []) ∷ (2, 5 ∷ 6 ∷ []) ∷ []; push_list = (5, 1 ∷ []) ∷ [] }

publish_runs : (publish (2 ∷ 9 ∷ []) booked).push_list ≡ (5, 1 ∷ 2 ∷ []) ∷ (6, 2 ∷ []) ∷ []
unfolding publish
publish_runs = refl

make_publish_map_lem_example :
    let (s', taken) = make_publish_map (4 ∷ 5 ∷ []) booked in
    (NatSet.contains 1 (at 5 taken) ≡ (NatSet.contains 5 (4 ∷ 5 ∷ []) && is_pending 5 1 booked))
    × (is_pending 5 1 s' ≡ (not (NatSet.contains 5 (4 ∷ 5 ∷ [])) && is_pending 5 1 booked))
make_publish_map_lem_example = make_publish_map_lem (4 ∷ 5 ∷ []) 5 1 booked
