-- ===== src/Reactor/Message.antt =====
-- reactor/include/message.h and src/message.cpp: the header of a message, which memcpy copies as two
-- ints in the order of an x86 machine, lowest byte first, and the table of callbacks.
pub mod Frames
pub mod Stream
pub mod Routes
mod Tests
use ylars.Base.{
  ℕ, ◌+◌, ◌*◌, ◌/◌, ◌%◌, List, [], ◌∷◌, ◌++◌, Option, none, some, if◌then◌else◌, length, drop,
}
use ylars.Base.Map
use ylars.Base.Map.{Map}

abbrev pub msg_head_len : ℕ
msg_head_len = 8

abbrev pub msg_max_limit : ℕ
msg_max_limit = 65527

pub record MsgHead : Type 0 where
  pub msgid : ℕ
  pub msglen : ℕ

-- An int in memory.
abbrev pub int_bytes : ℕ → List ℕ
int_bytes n = n % 256 ∷ n / 256 % 256 ∷ n / 65536 % 256 ∷ n / 16777216 % 256 ∷ []

unfoldable pub int_of : List ℕ → ℕ
int_of (a ∷ b ∷ c ∷ d ∷ rest) = a + 256 * (b + 256 * (c + 256 * d))
int_of bytes = 0

unfoldable pub head_bytes : MsgHead → List ℕ
head_bytes h = int_bytes h.msgid ++ int_bytes h.msglen

unfoldable pub head_of : List ℕ → MsgHead
head_of bytes = record { msgid = int_of bytes; msglen = int_of (drop 4 bytes) }

-- _router and _args: what a message number is registered with. A null callback is `none`.
pub record MsgRouter {ℓ} (C : Type ℓ) : Type ℓ where
  pub router : Map C
  pub args : Map ℕ

unfoldable pub register_router {ℓ} : {C : Type ℓ} → ℕ → Option C → ℕ → MsgRouter C → MsgRouter C
register_router msgid none args r = r
register_router msgid (some cb) args r =
    if Map.contains msgid r.router
    then r
    else record { router = Map.insert msgid cb r.router; args = Map.insert msgid args r.args }

-- The callback that a message goes to, with its argument.
unfoldable pub call {ℓ} : {C : Type ℓ} → ℕ → MsgRouter C → Option (C × Option ℕ)
call msgid r = elim (Map.lookup msgid r.router) [
  | none ↦ none
  | some cb ↦ some (cb, Map.lookup msgid r.args)
]
