-- ===== src/Dns/Router/Tables.antt =====
-- The two tables: what a reload brings, and what a failed one takes away.
use mathlib.Core.Option
use ylars.Base.{
  ◌^◌, ◌/◌, ◌%◌, All, ==_iff, ℕ, ◌+◌, ◌≤◌, ◌<◌, ◌≡◌, refl, ◌∙◌, Bool, true, false, ◌&&◌, ◌||◌, List,
  [], ◌∷◌, some, arith, ltb, leb, ◌==◌, if◌then◌else◌, Bool-cases, inl, inr,
}
use ylars.Base.Map
use ylars.Base.Map.{Map, lookup-insert, insert-IsSorted}
use ylars.Base.NatSet
use ylars.Base.NatSet.{NatSet, contains-insert}
use ylars.Dns.Subscribe.{at}
use ylars.Dns.Router.{
  Router, RouteRow, Query, query_error, no_result, stored, int_key, host_key, insert_rows, built,
  build_map, load_route_data, get_hosts, swap, Service, Answers, Statement, Check, act_on, changed,
  unchanged, failed,
}

-- Whether a table of the database holds a host of a module.
unfoldable pub has_row : ℕ → ℕ → List RouteRow → Bool
has_row key host [] = false
has_row key host (row ∷ rows) =
    if int_key row.modid row.cmdid == key && host_key row.ip row.port == host
    then true
    else has_row key host rows

insert_rows-at :
    (key host : ℕ) (rows : List RouteRow) (m : Map NatSet)
    → NatSet.contains host (at key (insert_rows rows m))
      ≡ (has_row key host rows || NatSet.contains host (at key m))
unfolding insert_rows has_row
insert_rows-at key host [] m = refl
insert_rows-at key host (row ∷ rows) m = ground (
  arith,
  insert_rows-at key host rows (
      Map.insert (int_key row.modid row.cmdid)
        (NatSet.insert (host_key row.ip row.port) (at (int_key row.modid row.cmdid) m)) m),
  lookup-insert key (int_key row.modid row.cmdid)
      (NatSet.insert (host_key row.ip row.port) (at (int_key row.modid row.cmdid) m)) m,
  contains-insert host (host_key row.ip row.port) (at (int_key row.modid row.cmdid) m),
)

-- Two pairs of 32-bit numbers with one key are one pair, whatever the signs of the ints.
int_key-same :
    (a b c d : ℕ)
    → a < 2 ^ 32
    → b < 2 ^ 32
    → c < 2 ^ 32
    → d < 2 ^ 32
    → int_key a b ≡ int_key c d
    → (a ≡ c) × (b ≡ d)
unfolding int_key
int_key-same a b c d ha hb hc hd e =
    let low : b ≡ d = ground (arith, e) in (ground (arith, e, low), low)

-- Whether a table of the database has a row of a module with a host, column by column.
unfoldable pub has_host : ℕ → ℕ → ℕ → ℕ → List RouteRow → Bool
has_host modid cmdid ip port [] = false
has_host modid cmdid ip port (row ∷ rows) =
    ((row.modid == modid && row.cmdid == cmdid) && (row.ip == ip && row.port == port))
    || has_host modid cmdid ip port rows

-- The columns are 32-bit numbers, and no port is negative.
abbrev pub IsRow : RouteRow → Type 0
IsRow row = (row.modid < 2 ^ 32) × (row.cmdid < 2 ^ 32) × (row.ip < 2 ^ 32) × (row.port < 2 ^ 31)

int_key-== :
    (a b c d : ℕ)
    → a < 2 ^ 32
    → b < 2 ^ 32
    → c < 2 ^ 32
    → d < 2 ^ 32
    → (int_key a b == int_key c d) ≡ (a == c && b == d)
int_key-== a b c d ha hb hc hd = elim (Bool-cases (int_key a b == int_key c d)) [
  | inl t ↦
      let (ac, bd) = int_key-same a b c d ha hb hc hd ((==_iff (int_key a b) (int_key c d)).0 t) in
      rw t (ground (arith, ac, bd))
  | inr f ↦ rw f (ground (arith, f))
]

host_key-== :
    (a b k : ℕ)
    → a < 2 ^ 32
    → b < 2 ^ 31
    → (host_key a b == k) ≡ (a == k / 2 ^ 32 && b == k % 2 ^ 32)
unfolding host_key
host_key-== a b k ha hb = ground arith

has_row-has_host :
    (modid cmdid k : ℕ) (rows : List RouteRow)
    → modid < 2 ^ 32
    → cmdid < 2 ^ 32
    → All IsRow rows
    → has_row (int_key modid cmdid) k rows ≡ has_host modid cmdid (k / 2 ^ 32) (k % 2 ^ 32) rows
unfolding has_row has_host
has_row-has_host modid cmdid k [] hm hc a = refl
has_row-has_host modid cmdid k (row ∷ rows) hm hc a =
    rw
      (
        int_key-== row.modid row.cmdid modid cmdid a.0.0 a.0.1 hm hc,
        host_key-== row.ip row.port k a.0.2 a.0.3,
        has_row-has_host modid cmdid k rows hm hc a.1,
      )
      (ground arith)

-- After a reload and a swap a module has exactly the hosts of its rows.
pub reload-get_hosts :
    (mod_id cmd_id host cols : ℕ) (rows : List RouteRow) (r : Router)
    → 5 ≤ cols
    → NatSet.contains host (get_hosts mod_id cmd_id (swap (load_route_data (stored cols rows) r)))
      ≡ has_row (int_key mod_id cmd_id) host rows
unfolding get_hosts swap build_map
reload-get_hosts mod_id cmd_id host cols rows r h =
    ground (arith, insert_rows-at (int_key mod_id cmd_id) host rows [])

-- The same, column by column, of the host with a key.
pub reload-has_host :
    (modid cmdid k cols : ℕ) (rows : List RouteRow) (r : Router)
    → 5 ≤ cols
    → All IsRow rows
    → modid < 2 ^ 32
    → cmdid < 2 ^ 32
    → NatSet.contains k (get_hosts modid cmdid (swap (load_route_data (stored cols rows) r)))
      ≡ has_host modid cmdid (k / 2 ^ 32) (k % 2 ^ 32) rows
reload-has_host modid cmdid k cols rows r full a hm hc =
    reload-get_hosts modid cmdid k cols rows r full ∙ has_row-has_host modid cmdid k rows hm hc a

-- A reload whose query fails leaves every module without hosts once it is swapped in, and the round of
-- the loop swaps it in whenever the forced update is due.
pub failed_reload_empties :
    (start_time curr_time mod_id cmd_id : ℕ) (ans : Answers) (s : Service)
    → ans.routes ≡ query_error
    → start_time + 10 < curr_time
    → Option.map
        (λ out. get_hosts mod_id cmd_id (out.0).router)
        (act_on unchanged start_time curr_time ans s)
      ≡ some []
unfolding act_on get_hosts swap build_map
failed_reload_empties start_time curr_time mod_id cmd_id ans s e h =
    let due : ltb (start_time + 10) curr_time ≡ true = ground arith in rw (due, e)

insert_rows-IsSorted :
    (rows : List RouteRow) (m : Map NatSet) → Map.IsSorted m → Map.IsSorted (insert_rows rows m)
unfolding insert_rows
insert_rows-IsSorted [] m s = s
insert_rows-IsSorted (row ∷ rows) m s =
    insert_rows-IsSorted rows _ (insert-IsSorted (int_key row.modid row.cmdid) _ m s)

built-IsSorted : (q : Query RouteRow) → Map.IsSorted (built q)
unfolding built
built-IsSorted query_error = tt
built-IsSorted no_result = tt
built-IsSorted (stored cols rows) = elim (Bool-cases (leb 5 cols)) [
  | inl e ↦ rw e (insert_rows-IsSorted rows [] tt)
  | inr e ↦ rw e tt
]

-- Both tables are maps.
abbrev pub AreSorted : Router → Type 0
AreSorted r = Map.IsSorted r.data_pointer × Map.IsSorted r.temp_pointer

-- Whatever the database yields, a round of the loop keeps both tables maps.
pub act_on-AreSorted :
    (ret : Check) (start_time curr_time : ℕ) (ans : Answers) (s : Service)
    {out : Service × List Statement}
    → AreSorted s.router
    → act_on ret start_time curr_time ans s ≡ some out
    → AreSorted (out.0).router
unfolding act_on swap build_map
act_on-AreSorted changed start_time curr_time ans s h e = ground (arith, built-IsSorted ans.routes)
act_on-AreSorted unchanged start_time curr_time ans s h e =
    ground (arith, built-IsSorted ans.routes)
act_on-AreSorted failed start_time curr_time ans s h e = cc
