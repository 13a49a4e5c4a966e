-- ===== src/Dns/Subscribe.antt =====
-- ylars_dns/include/subscribe.h and src/subscribe.cpp, class SubscribeList. Each operation runs under its
-- mutexes, so it is one step; a module is its 64-bit key, a subscriber its file descriptor.
pub mod Book
pub mod Publish
mod Tests
use ylars.Base.{ℕ, Bool, true, false, List, [], ◌∷◌, Option, none, some, if◌then◌else◌, get_or_else}
use ylars.Base.Map
use ylars.Base.Map.{Map}
use ylars.Base.NatSet
use ylars.Base.NatSet.{NatSet}

pub record SubscribeList : Type 0 where
  -- module ==> descriptors
  pub book_list : Map NatSet
  -- descriptor ==> modules to publish
  pub push_list : Map NatSet

abbrev pub subscribe_list : SubscribeList
subscribe_list = record { book_list = []; push_list = [] }

-- m[k], which makes an empty set of a missing key.
abbrev pub at : ℕ → Map NatSet → NatSet
at k m = get_or_else (Map.lookup k m) []

unfoldable pub subscribe : ℕ → ℕ → SubscribeList → SubscribeList
subscribe mod' fd s = record s {
  book_list = Map.insert mod' (NatSet.insert fd (at mod' s.book_list)) s.book_list;
}

-- A module that nobody subscribes to any more leaves the book.
unfoldable pub unsubscribe : ℕ → ℕ → SubscribeList → SubscribeList
unsubscribe mod' fd s =
    if Map.contains mod' s.book_list
    then (let fds = NatSet.erase fd (at mod' s.book_list) in
        if NatSet.is_empty fds
        then record s { book_list = Map.erase mod' s.book_list }
        else record s { book_list = Map.insert mod' fds s.book_list })
    else s

-- for (auto& fd : _book_list[mod]) _push_list[fd].insert(mod)
unfoldable pub push_mod : ℕ → List ℕ → Map NatSet → Map NatSet
push_mod mod' [] push = push
push_mod mod' (fd ∷ fds) push =
    push_mod mod' fds (Map.insert fd (NatSet.insert mod' (at fd push)) push)

unfoldable pub push_mods : Map NatSet → List ℕ → Map NatSet → Map NatSet
unfolding push_mod
push_mods book [] push = push
push_mods book (mod' ∷ mods) push =
    push_mods book mods (if Map.contains mod' book then push_mod mod' (at mod' book) push else push)

-- What it schedules on the threads of the pool is make_publish_map.
unfoldable pub publish : List ℕ → SubscribeList → SubscribeList
unfolding push_mods
publish change_mods s = record s { push_list = push_mods s.book_list change_mods s.push_list }

-- The tasks of the descriptors of one thread are swapped out of the list.
unfoldable pub take_fds : List ℕ → Map NatSet → Map NatSet → Map NatSet × Map NatSet
take_fds [] push need_publish = (push, need_publish)
take_fds (fd ∷ fds) push need_publish =
    take_fds fds (if Map.contains fd push then Map.erase fd push else push)
      (if Map.contains fd push then Map.insert fd (at fd push) need_publish else need_publish)

unfoldable pub make_publish_map : NatSet → SubscribeList → SubscribeList × Map NatSet
unfolding take_fds
make_publish_map fds s =
    let (push, need_publish) = take_fds fds s.push_list [] in
    (record s { push_list = push }, need_publish)
