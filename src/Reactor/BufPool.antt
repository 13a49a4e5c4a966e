-- ===== src/Reactor/BufPool.antt =====
-- reactor/include/buf_pool.h and src/buf_pool.cpp: free buffers in seven sizes. A list that is linked
-- through `next` is a list of buffers, a null head the empty one; a null pointer of alloc_buf is `none`.
-- What `new` yields is memory of any content, and `new` does not fail.
pub mod Sizes
mod Tests
use ylars.Base.{
  ℕ, suc, ◌+◌, ◌-◌, ◌*◌, ◌/◌, ◌≤◌, ◌≡◌, List, [], ◌∷◌, Option, none, some, leb, if◌then◌else◌,
  ◌>>=◌, ◌||◌, get_or_else, replicate, All,
}
use ylars.Base.Ints.{is_neg}
use ylars.Base.Map
use ylars.Base.Map.{Map}
use ylars.Reactor.IoBuf.{IoBuf, io_buf, pop, adjust, IsWf}

-- In KB.
abbrev pub max_buf_pool_cap : ℕ
max_buf_pool_cap = 4 * 1024 * 1024

pub record BufPool : Type 0 where
  pub pool : Map (List IoBuf)
  pub curr_cap : ℕ

abbrev pub bufs : ℕ → BufPool → List IoBuf
bufs size p = get_or_else (Map.lookup size p.pool) []

-- The smallest size that holds `len` bytes; 4K for a length above the largest size.
unfoldable pub get_mem_len : ℕ → ℕ
get_mem_len len =
    if is_neg len || leb len 4096
    then 4096
    else if leb len 16384
    then 16384
    else if leb len 65536
    then 65536
    else if leb len 262144
    then 262144
    else if leb len 1048576
    then 1048576
    else if leb len 4194304
    then 4194304
    else if leb len 16777216
    then 16777216
    else 4096

unfoldable pub alloc_size : (ℕ → ℕ) → ℕ → List IoBuf → BufPool → Option IoBuf × BufPool
alloc_size junk size [] p =
    if leb (suc max_buf_pool_cap) (p.curr_cap + size / 1024)
    then (none, p)
    else (some (io_buf junk size), record p { curr_cap = p.curr_cap + size / 1024 })
alloc_size junk size (buf ∷ rest) p = (some buf, record p { pool = Map.insert size rest p.pool })

unfoldable pub alloc_buf : (ℕ → ℕ) → ℕ → BufPool → Option IoBuf × BufPool
alloc_buf junk len p = alloc_size junk (get_mem_len len) (bufs (get_mem_len len) p) p

unfoldable pub release : IoBuf → BufPool → Option BufPool
release buf p = adjust (pop buf.datalen buf) >>= λ empty. some (record p {
  pool = Map.insert empty.capacity (record empty { datalen = 0 } ∷ bufs empty.capacity p) p.pool;
})

unfoldable pub make_io_buf_pool : (ℕ → ℕ) → ℕ → ℕ → BufPool → BufPool
make_io_buf_pool junk size num p =
    if leb (suc max_buf_pool_cap) (size / 1024 * num + p.curr_cap) then p else record p {
      pool = Map.insert size (replicate (suc (num - 1)) (io_buf junk size)) p.pool;
      curr_cap = p.curr_cap + size / 1024 * num;
    }

unfoldable pub make_pools : (ℕ → ℕ) → List (ℕ × ℕ) → BufPool → BufPool
make_pools junk [] p = p
make_pools junk ((size, num) ∷ sizes) p = make_pools junk sizes (make_io_buf_pool junk size num p)

abbrev pub first_sizes : List (ℕ × ℕ)
first_sizes =
    (4096, 5000)
    ∷ (16384, 1000)
    ∷ (65536, 500)
    ∷ (262144, 200)
    ∷ (1048576, 100)
    ∷ (4194304, 50)
    ∷ (16777216, 10)
    ∷ []

unfoldable pub buf_pool : (ℕ → ℕ) → BufPool
buf_pool junk = make_pools junk first_sizes (record { pool = []; curr_cap = 0 })

-- A free buffer of one size.
abbrev pub IsFree : ℕ → IoBuf → Type 0
IsFree size buf = IsWf buf × (buf.head ≡ 0) × (buf.datalen ≡ 0) × (buf.capacity ≡ size)

-- Every list holds free buffers of its size, and no more memory was taken than the limit.
abbrev pub IsPool : BufPool → Type 0
IsPool p = ((size : ℕ) → All (IsFree size) (bufs size p)) × (p.curr_cap ≤ max_buf_pool_cap)
