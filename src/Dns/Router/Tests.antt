-- ===== src/Dns/Router/Tests.antt =====
-- The theorems on the route tables at concrete inputs.
use mathlib.Core.Option
use ylars.Base.{
  ◌/◌, ◌%◌, ◌==◌, ℕ, Bool, true, ◌^◌, ◌≡◌, ◌≢◌, refl, ◌&&◌, ◌||◌, List, [], ◌∷◌, some, arith,
}
use ylars.Base.NatSet
use ylars.Proto.{pack}
use ylars.Dns.Subscribe.Book.{is_booked}
use ylars.Dns.Subscribe.Publish.{is_pending}
use ylars.Reactor.ConfigFile.{Sections, codes, first_not_empty, get_value, find, same_text}
use ylars.Reactor.ConfigFile.Getters.{parse_number, digits}
use ylars.Dns.Router.Start.{Account, router, router-get_hosts}
use ylars.Dns.Router.{
  Router, RouteRow, query_error, stored, int_key, load_route_data, get_hosts, swap, Service,
  Statement, Answers, changed, unchanged, act_on,
}
use ylars.Dns.Router.Keys.{int_key-eq-pack, next_module-published}
use ylars.Dns.Router.Tables.{has_host, failed_reload_empties}
use ylars.Dns.Router.Changes.{is_lost, changes_published}

abbrev rows : List RouteRow
rows =
    record { modid = 1; cmdid = 1; ip = 3232235953; port = 7777 }
    ∷ record { modid = 1; cmdid = 2; ip = 3232235954; port = 7776 }
    ∷ []

abbrev table : Router
table = record {
  data_pointer =
      (pack 1 1, pack 3232235953 7777 ∷ []) ∷ (pack 1 2, pack 1 1 ∷ pack 3232235954 7776 ∷ []) ∷ [];
  temp_pointer = [];
  version = 4;
}

abbrev service : Service
service = record {
  router = table;
  subscribers = record { book_list = (pack 1 2, 5 ∷ []) ∷ []; push_list = [] };
}

abbrev answers : Answers
answers = record {
  version = stored 1 (5 ∷ []);
  routes = stored 5 rows;
  changes = stored 2 ((1, 1) ∷ []);
}

int_key-eq-pack_example : int_key 1 2 ≡ pack 1 2
int_key-eq-pack_example = int_key-eq-pack 1 2 (omega arith) (omega arith)

-- Module (1, 2 ^ 31) is booked and stays in the table, and module (2, 2 ^ 31) leaves it.
abbrev high_service : Service
high_service = record {
  router = record {
    data_pointer = (int_key 1 (2 ^ 31), pack 1 1 ∷ []) ∷ (int_key 2 (2 ^ 31), pack 1 1 ∷ []) ∷ [];
    temp_pointer = [];
    version = 4;
  };
  subscribers = record { book_list = (pack 1 (2 ^ 31), 5 ∷ []) ∷ []; push_list = [] };
}

abbrev high_answers : Answers
high_answers = record {
  version = stored 1 (5 ∷ []);
  routes = stored 5 (record { modid = 1; cmdid = 2 ^ 31; ip = 1; port = 1 } ∷ []);
  changes = stored 2 [];
}

next_module-published_example :
    (out : Service × List Statement) × (act_on changed 100 101 high_answers high_service ≡ some out)
    × (int_key 1 (2 ^ 31) ≢ pack 1 (2 ^ 31))
    × (is_pending 5 (pack 1 (2 ^ 31)) (out.0).subscribers ≡ (
        ((NatSet.contains (pack 1 (2 ^ 31)) []
            || is_lost
                (int_key 2 (2 ^ 31))
                high_service.router.data_pointer
                (out.0).router.data_pointer)
          && is_booked (pack 1 (2 ^ 31)) 5 high_service.subscribers)
        || is_pending 5 (pack 1 (2 ^ 31)) high_service.subscribers))
unfolding int_key
next_module-published_example =
    next_module-published 5 1 (2 ^ 31) 100 101 2 [] high_answers high_service (omega arith)
      (omega arith) (omega arith) refl (omega arith)

failed_reload_empties_example :
    Option.map
      (λ out. get_hosts 1 1 (out.0).router)
      (act_on unchanged 100 111 (record answers { routes = query_error }) service)
    ≡ some []
failed_reload_empties_example =
    failed_reload_empties 100 111 1 1 (record answers { routes = query_error }) service refl
      (omega arith)

-- Module (1, 2) has lost a host, and is published to its subscriber.
changes_published_example :
    Option.map
      (λ out. is_pending 5 (pack 1 2) (out.0).subscribers)
      (act_on changed 100 101 answers service)
    ≡ some (
        ((NatSet.contains (pack 1 2) (pack 1 1 ∷ [])
            || is_lost
                (pack 1 2)
                table.data_pointer
                (swap (load_route_data answers.routes table)).data_pointer)
          && is_booked (pack 1 2) 5 service.subscribers)
        || is_pending 5 (pack 1 2) service.subscribers)
changes_published_example =
    changes_published 5 (pack 1 2) 100 101 2 ((1, 1) ∷ []) answers service refl (omega arith)

abbrev config : Sections
config =
    (
      codes "mysql",
      (codes "db_ip", codes "10.0.0.1")
          ∷ (codes "db_port", codes "3307")
          ∷ (codes "db_user", codes "dns")
          ∷ (codes "db_passwd", codes "secret")
          ∷ (codes "db_name", codes "routes")
          ∷ [],
    )
    ∷ []

-- A database that knows one user.
abbrev connects : Account → Bool
connects a =
    same_text a.db_name (codes "routes")
    && ((a.port == 3307) && (same_text a.user (codes "dns") && same_text a.passwd (codes "secret")))

router-get_hosts_example :
    (r : Router) × (router config true connects (stored 5 rows) ≡ some r)
    × ((k : ℕ) → NatSet.contains k (get_hosts 1 2 r) ≡ has_host 1 2 (k / 2 ^ 32) (k % 2 ^ 32) rows)
unfolding get_value find parse_number digits first_not_empty
router-get_hosts_example =
    router-get_hosts config (codes "10.0.0.1") (codes "3307") (codes "dns") (codes "secret")
      (codes "routes") connects 1 2 5 rows refl refl refl refl refl refl (omega arith)
      (
        (omega arith, omega arith, omega arith, omega arith),
        ((omega arith, omega arith, omega arith, omega arith), tt),
      )
      (omega arith) (omega arith)
