-- ===== src/Dns/Router/Keys.antt =====
-- The keys that the tables use, made from ints, and those that the subscriptions use, made from uint32_t.
use mathlib.Core.Option.{some-injective}
use ylars.Base.{
  ℕ, ◌+◌, ◌%◌, ◌^◌, ◌≤◌, ◌<◌, ◌≡◌, ◌≢◌, refl, ◌&&◌, ◌||◌, List, [], ◌∷◌, some, map, arith,
}
use ylars.Base.Map
use ylars.Base.NatSet
use ylars.Proto.{pack}
use ylars.Dns.Subscribe.{publish}
use ylars.Dns.Subscribe.Book.{is_booked}
use ylars.Dns.Subscribe.Publish.{is_pending}
use ylars.Dns.Router.{
  int_key, stored, swap, build_map, load_route_data, load_change_mod, drop_synchronous_mod, Service,
  Answers, Statement, changed, act_on,
}
use ylars.Dns.Router.Changes.{is_lost, changes_published}

-- Both are the same for a command below 2^31.
pub int_key-eq-pack :
    (modid cmdid : ℕ) → modid < 2 ^ 32 → cmdid < 2 ^ 31 → int_key modid cmdid ≡ pack modid cmdid
unfolding int_key
int_key-eq-pack modid cmdid hm hc = ground arith

-- From 2^31 on they never are.
int_key-ne-pack :
    (modid cmdid : ℕ)
    → modid < 2 ^ 32
    → 2 ^ 31 ≤ cmdid
    → cmdid < 2 ^ 32
    → int_key modid cmdid ≢ pack modid cmdid
unfolding int_key
int_key-ne-pack modid cmdid hm lo hi = ground arith

-- From 2^31 on the key of the subscriptions is the key of the tables for the module with the next number.
int_key_next :
    (modid cmdid : ℕ)
    → modid < 2 ^ 32
    → 2 ^ 31 ≤ cmdid
    → cmdid < 2 ^ 32
    → int_key ((modid + 1) % 2 ^ 32) cmdid ≡ pack modid cmdid
unfolding int_key
int_key_next modid cmdid hm lo hi = ground arith

-- A round on a new version that reads RouteChange, on a table in use that is a map, and a module whose
-- command is 2^31 or more. The key of the module in the tables is not its key in the subscriptions, and
-- beside the rows of RouteChange it is not its own loss that leaves it waiting for a subscriber, but that
-- of the module with the next number and the same command: it waits exactly if it did before, or if the
-- descriptor is booked for it and it stands in RouteChange, or that other module is gone from the new
-- table or has not kept all of its hosts.
pub next_module-published :
    (fd modid cmdid start_time curr_time cols : ℕ) (rows : List (ℕ × ℕ)) (ans : Answers)
    (s : Service)
    → modid < 2 ^ 32
    → 2 ^ 31 ≤ cmdid
    → cmdid < 2 ^ 32
    → ans.changes ≡ stored cols rows
    → Map.IsSorted s.router.data_pointer
    → (out : Service × List Statement) × (act_on changed start_time curr_time ans s ≡ some out)
      × (int_key modid cmdid ≢ pack modid cmdid)
      × (is_pending fd (pack modid cmdid) (out.0).subscribers ≡ (
          ((NatSet.contains (pack modid cmdid) (map (λ row. pack (row.0) (row.1)) rows)
              || is_lost
                  (int_key ((modid + 1) % 2 ^ 32) cmdid)
                  s.router.data_pointer
                  (out.0).router.data_pointer)
            && is_booked (pack modid cmdid) fd s.subscribers)
          || is_pending fd (pack modid cmdid) s.subscribers))
unfolding act_on swap build_map
next_module-published fd modid cmdid start_time curr_time cols rows ans s hm lo hi e sorted =
    let published =
      changes_published fd (pack modid cmdid) start_time curr_time cols rows ans s e sorted in
    let loaded = swap (load_route_data ans.routes s.router) in
    (
      (
        record {
          router = loaded;
          subscribers = publish (load_change_mod ans.changes loaded []) s.subscribers;
        },
        drop_synchronous_mod loaded ∷ [],
      ),
      refl,
      int_key-ne-pack modid cmdid hm lo hi,
      rw (int_key_next modid cmdid hm lo hi) (some-injective _ _ published),
    )
