-- ===== src/Reactor/Message/Routes.antt =====
-- Which callback a message reaches after a registration.
use mathlib.Core.Option
use ylars.Base.{ℕ, ◌≡◌, Option, none, some, arith, is_some, ◌==◌, ◌&&◌, not, if◌then◌else◌}
use ylars.Base.Map
use ylars.Reactor.Message.{MsgRouter, register_router, call}

-- The first registration of a number with a callback is the one that counts, and no other number's
-- messages change their way.
pub call-register_router {ℓ} :
    {C : Type ℓ} (msgid m : ℕ) (cb : Option C) (args : ℕ) (r : MsgRouter C)
    → call m (register_router msgid cb args r) ≡ (
        if (msgid == m) && (is_some cb && not (is_some (call m r)))
        then Option.map (λ c. (c, some args)) cb
        else call m r)
unfolding register_router call
call-register_router msgid m none args r = ground arith
call-register_router msgid m (some cb) args r =
    ground (arith, Map.lookup-insert m msgid cb r.router, Map.lookup-insert m msgid args r.args)
