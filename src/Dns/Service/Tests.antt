-- ===== src/Dns/Service/Tests.antt =====
-- The theorems on connections at a concrete service.
use ylars.Base.{ℕ, ◌≡◌, refl, true, not, ◌&&◌, [], ◌∷◌, some, arith, ◌==◌}
use ylars.Base.Map
use ylars.Proto.{GetRouteRequest, pack}
use ylars.Dns.Subscribe.Book.{is_booked}
use ylars.Dns.Router.{get_hosts, int_key}
use ylars.Dns.Service.{Dns, get_req, clean_subscribe}
use ylars.Dns.Service.Books.{Agrees, get_req-Agrees, clean_subscribe-Agrees}

-- Descriptor 5 carries module (1, 2), descriptor 6 nothing.
abbrev dns : Dns
dns = record {
  router = record {
    data_pointer = (pack 1 2, pack 9 80 ∷ []) ∷ [];
    temp_pointer = [];
    version = 0;
  };
  subscribers = record { book_list = (pack 1 2, 5 ∷ []) ∷ []; push_list = [] };
  param = (5, pack 1 2 ∷ []) ∷ (6, []) ∷ [];
}

abbrev request : GetRouteRequest
request = record { modid = 1; cmdid = 2 }

get_req_runs :
    (get_req 6 request dns).1
    ≡ record { modid = 1; cmdid = 2; host = record { ip = 9; port = 80 } ∷ [] }
unfolding get_req get_hosts int_key
get_req_runs = refl

dns-Agrees : Agrees dns
dns-Agrees m fd = ground arith

get_req-Agrees_example :
    Agrees (get_req 6 request dns).0
    × (Map.contains 6 dns.param ≡ true
        → is_booked (pack 1 2) 6 (get_req 6 request dns).0.subscribers ≡ true)
get_req-Agrees_example = get_req-Agrees 6 request dns dns-Agrees

clean_subscribe-Agrees_example :
    (d' : Dns) × (clean_subscribe 5 dns ≡ some d')
    × Agrees d'
    × ((m fd' : ℕ)
        → is_booked m fd' d'.subscribers ≡ (not (5 == fd') && is_booked m fd' dns.subscribers))
clean_subscribe-Agrees_example = clean_subscribe-Agrees 5 dns dns-Agrees refl
