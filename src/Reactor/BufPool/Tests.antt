-- ===== src/Reactor/BufPool/Tests.antt =====
-- The theorems on the pool at concrete pools.
use ylars.Base.{ℕ, ◌≤◌, ◌≡◌, ◌↔◌, refl, [], some, arith}
use ylars.Reactor.IoBuf.{IoBuf, io_buf}
use ylars.Reactor.BufPool.{BufPool, alloc_buf, alloc_size, get_mem_len, IsFree, IsPool}
use ylars.Reactor.BufPool.Sizes.{alloc_buf-IsPool}

abbrev zeros : ℕ → ℕ
zeros i = 0

abbrev no_bufs : BufPool
no_bufs = record { pool = []; curr_cap = 0 }

no_bufs-IsPool : IsPool no_bufs
no_bufs-IsPool = (λ size. tt, omega arith)

abbrev first_buf : IoBuf
first_buf = io_buf zeros 16384

first_alloc : (alloc_buf zeros 5000 no_bufs).0 ≡ some first_buf
unfolding alloc_buf alloc_size get_mem_len
first_alloc = refl

alloc_buf-IsPool_example :
    IsPool (alloc_buf zeros 5000 no_bufs).1
    × IsFree (get_mem_len 5000) first_buf
    × ((5000 ≤ first_buf.capacity) ↔ (5000 ≤ 16777216))
    × (first_buf.capacity ≡ 16384)
alloc_buf-IsPool_example =
    alloc_buf-IsPool zeros 5000 no_bufs first_buf no_bufs-IsPool refl first_alloc
