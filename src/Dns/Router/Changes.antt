-- ===== src/Dns/Router/Changes.antt =====
-- Which modules a change of the version publishes.
use mathlib.Core.Option
use ylars.Base.{
  ℕ, ◌≡◌, refl, Bool, true, false, not, ◌&&◌, ◌||◌, List, [], ◌∷◌, none, some, map, arith, ◌==◌,
  ==_iff, if◌then◌else◌, Bool-cases, inl, inr,
}
use ylars.Base.Map
use ylars.Base.Map.{Map, lookup-Above}
use ylars.Base.NatSet
use ylars.Base.NatSet.{NatSet, contains-append}
use ylars.Proto.{pack}
use ylars.Dns.Subscribe.{at}
use ylars.Dns.Subscribe.Book.{is_booked}
use ylars.Dns.Subscribe.Publish.{is_pending, publish-is_pending}
use ylars.Dns.Router.{
  stored, loses_host, deleted_mods, load_change_mod, load_route_data, build_map, swap, Service,
  Answers, act_on, changed,
}

loses_host-subset : (before now : NatSet) → loses_host before now ≡ not (NatSet.subset before now)
unfolding loses_host
loses_host-subset [] now = refl
loses_host-subset (h ∷ before) now = ground (arith, loses_host-subset before now)

-- A module is lost between two tables if it is gone, or if not all of its hosts are still there.
pub is_lost : ℕ → Map NatSet → Map NatSet → Bool
is_lost k before now = elim (Map.lookup k before) [
  | none ↦ false
  | some hosts ↦ if Map.contains k now then not (NatSet.subset hosts (at k now)) else true
]

deleted_mods-Above :
    (k : ℕ) (now before : Map NatSet)
    → Map.Above k before
    → NatSet.contains k (deleted_mods now before) ≡ false
unfolding deleted_mods
deleted_mods-Above k now [] s = refl
deleted_mods-Above k now ((j, hosts) ∷ before) s = ground (
  arith,
  deleted_mods-Above k now before (Map.Above-mono {a = k} {b = j} before (omega arith) s.1),
)

deleted_mods-contains :
    (k : ℕ) (now before : Map NatSet)
    → Map.IsSorted before
    → NatSet.contains k (deleted_mods now before) ≡ is_lost k before now
unfolding deleted_mods is_lost
deleted_mods-contains k now [] s = refl
deleted_mods-contains k now ((j, hosts) ∷ before) s = elim (Bool-cases (j == k)) [
  | inl hit ↦
      let jk : j ≡ k = (==_iff j k).0 hit in
      rw jk (
        ground
          (arith, loses_host-subset hosts (at k now), deleted_mods-Above k now before (rw jk at s)))
  | inr miss ↦ ground (arith, deleted_mods-contains k now before (Map.Above-IsSorted j before s))
]

-- A round on a new version that reads RouteChange, on a table in use that is a map, leaves a module, named
-- by its key, waiting for a descriptor exactly if it did before, or if the
-- descriptor is booked for it and the module stands in RouteChange, is gone from the new table, or not
-- all of its hosts in the old table are in the new one.
pub changes_published :
    (fd k start_time curr_time cols : ℕ) (rows : List (ℕ × ℕ)) (ans : Answers) (s : Service)
    → ans.changes ≡ stored cols rows
    → Map.IsSorted s.router.data_pointer
    → Option.map
        (λ out. is_pending fd k (out.0).subscribers)
        (act_on changed start_time curr_time ans s)
      ≡ some (
          ((NatSet.contains k (map (λ row. pack (row.0) (row.1)) rows)
              || is_lost k s.router.data_pointer
                  (swap (load_route_data ans.routes s.router)).data_pointer)
            && is_booked k fd s.subscribers)
          || is_pending fd k s.subscribers)
unfolding act_on load_change_mod swap build_map
changes_published fd k start_time curr_time cols rows ans s e sorted =
    rw (e, publish-is_pending, contains-append, deleted_mods-contains _ _ _ sorted)
