-- ===== src/Reactor/BufPool/Sizes.antt =====
-- The sizes of the buffers that the pool gives out and takes back.
use ylars.Base.{
  map, ◌^◌, ◌∙◌, ◌==◌, ℕ, zero, suc, ◌+◌, ◌-◌, ◌*◌, ◌/◌, ◌≤◌, ◌<◌, ◌≡◌, ◌↔◌, ◌≢◌, refl, sym, List,
  [], ◌∷◌, none, some, arith, leb, false, Bool-cases, List-cases, inl, inr, if◌then◌else◌, All,
  replicate,
}
use ylars.Base.Ints.{is_neg}
use ylars.Base.Map
use mathlib.Core.Path.{subst}
use mathlib.Core.Option.{some-injective}
use ylars.Base.Map.{Map}
use ylars.Reactor.IoBuf.{IoBuf, io_buf, pop, IsWf}
use ylars.Reactor.IoBuf.Contents.{io_buf-IsWf, pop-IsWf, pop-capacity, adjust_lem}
use ylars.Reactor.BufPool.{
  BufPool, bufs, get_mem_len, alloc_size, alloc_buf, release, make_io_buf_pool, make_pools,
  first_sizes, buf_pool, IsFree, IsPool, max_buf_pool_cap,
}

pub get_mem_len-neg : (len : ℕ) → is_neg (get_mem_len len) ≡ false
unfolding get_mem_len
get_mem_len-neg len = ground arith

pub get_mem_len-le : (len : ℕ) → is_neg len ≡ false → (len ≤ get_mem_len len) ↔ (len ≤ 16777216)
unfolding get_mem_len
get_mem_len-le len h = ground arith

get_mem_len-max : (len : ℕ) → get_mem_len len ≤ 16777216
unfolding get_mem_len
get_mem_len-max len = ground arith

pub io_buf-IsFree : (junk : ℕ → ℕ) (size : ℕ) → is_neg size ≡ false → IsFree size (io_buf junk size)
unfolding io_buf
io_buf-IsFree junk size h = (io_buf-IsWf junk size h, refl, refl, refl)

-- One list of the pool gives way to another.
AllFree-insert :
    (k : ℕ) (l : List IoBuf) (p : BufPool)
    → ((size : ℕ) → All (IsFree size) (bufs size p))
    → All (IsFree k) l
    → (cap : ℕ) → (size : ℕ)
    → All (IsFree size) (bufs size (record { pool = Map.insert k l p.pool; curr_cap = cap }))
AllFree-insert k l p h free cap size = elim (Bool-cases (k == size)) [
  | inl e ↦
      let same : k ≡ size = ground arith in rw (Map.lookup-insert size k l p.pool, e, sym same) free
  | inr e ↦ rw (Map.lookup-insert size k l p.pool, e) (h size)
]

All-replicate : (size n : ℕ) (buf : IoBuf) → IsFree size buf → All (IsFree size) (replicate n buf)
All-replicate size zero buf h = tt
All-replicate size (suc n) buf h = (h, All-replicate size n buf h)

-- A pool stays one when memory is asked of it, whether a buffer is given out or not.
pub alloc_size-IsPool :
    (junk : ℕ → ℕ) (size : ℕ) (p : BufPool)
    → IsPool p
    → is_neg size ≡ false
    → IsPool (alloc_size junk size (bufs size p) p).1
unfolding alloc_size
alloc_size-IsPool junk size p w h = elim (List-cases (bufs size p)) [
  | inl e ↦ elim (Bool-cases (leb (suc max_buf_pool_cap) (p.curr_cap + size / 1024))) [
    | inl full ↦ rw (e, alloc_size, full) w
    | inr room ↦ rw (e, alloc_size, room) (w.0, ground arith)
  ]
  | inr (buf, rest, e) ↦
      let free : All (IsFree size) (buf ∷ rest) = subst (All (IsFree size)) e (w.0 size) in
      rw (e, alloc_size) (AllFree-insert size rest p w.0 free.1 p.curr_cap, w.1)
]

alloc_size-IsFree :
    (junk : ℕ → ℕ) (size : ℕ) (l : List IoBuf) (p : BufPool)
    → All (IsFree size) l
    → is_neg size ≡ false
    → (buf : IoBuf) → (alloc_size junk size l p).0 ≡ some buf
    → IsFree size buf
unfolding alloc_size
alloc_size-IsFree junk size [] p w h buf e =
    elim (Bool-cases (leb (suc max_buf_pool_cap) (p.curr_cap + size / 1024))) [
      | inl full ↦ absurd (ground (arith, e))
      | inr room ↦
          let same : some (io_buf junk size) ≡ some buf = ground (arith, e) in
          rw (sym (some-injective _ _ same)) (io_buf-IsFree junk size h)
    ]
alloc_size-IsFree junk size (b ∷ rest) p w h buf e = rw (sym (some-injective _ _ e)) w.0

-- The first of some sizes that holds a length, and a size for a length that none of them holds.
abbrev pub first_that_holds : ℕ → ℕ → List ℕ → ℕ
first_that_holds len otherwise [] = otherwise
first_that_holds len otherwise (size ∷ sizes) =
    let more = first_that_holds len otherwise sizes in if leb len size then size else more

-- The sizes of the pool are 4K and, up to 16M, four times the one before; a longer length gets 4K.
abbrev pub pool_size : ℕ → ℕ
pool_size len = first_that_holds len 4096 (map (λ i. 4096 * 4 ^ i) (0 ∷ 1 ∷ 2 ∷ 3 ∷ 4 ∷ 5 ∷ 6 ∷ []))

get_mem_len-pool_size : (len : ℕ) → is_neg len ≡ false → get_mem_len len ≡ pool_size len
unfolding get_mem_len
get_mem_len-pool_size len h = rw h refl

-- A well-formed pool stays one, and what it gives out for a length that is not negative is an
-- empty buffer that has room for that length exactly if the length is at most 16M: it has the
-- first of the sizes 4K, 16K, and so on by fours to 16M that holds the length, and for a longer
-- length it has 4K.
pub alloc_buf-IsPool :
    (junk : ℕ → ℕ) (len : ℕ) (p : BufPool) (buf : IoBuf)
    → IsPool p
    → is_neg len ≡ false
    → (alloc_buf junk len p).0 ≡ some buf
    → IsPool (alloc_buf junk len p).1
      × IsFree (get_mem_len len) buf
      × ((len ≤ buf.capacity) ↔ (len ≤ 16777216))
      × (buf.capacity ≡ pool_size len)
unfolding alloc_buf
alloc_buf-IsPool junk len p buf w h e =
    let pos = get_mem_len-neg len in
    let free =
      alloc_size-IsFree junk (get_mem_len len) (bufs (get_mem_len len) p) p (w.0 (get_mem_len len))
        pos buf e in
    (
      alloc_size-IsPool junk (get_mem_len len) p w pos,
      free,
      rw free.3 (get_mem_len-le len h),
      free.3 ∙ get_mem_len-pool_size len h,
    )

-- No buffer is given out exactly where none of the size is free and the limit leaves no room for one.
pub alloc_buf-none :
    (junk : ℕ → ℕ) (len : ℕ) (p : BufPool)
    → ((alloc_buf junk len p).0 ≡ none)
      ↔ ((bufs (get_mem_len len) p ≡ []) × (max_buf_pool_cap < p.curr_cap + get_mem_len len / 1024))
unfolding alloc_buf alloc_size
alloc_buf-none junk len p = ground arith

-- Where 16M may still be taken, a buffer is given out, and no more than that is taken for it.
pub alloc_buf-room :
    (junk : ℕ → ℕ) (len : ℕ) (p : BufPool)
    → p.curr_cap + 16384 ≤ max_buf_pool_cap
    → (alloc_buf junk len p).0 ≢ none
alloc_buf-room junk len p h e =
    let (empty, full) = (alloc_buf-none junk len p).0 e in omega (arith, get_mem_len-max len)

pub alloc_buf-cap :
    (junk : ℕ → ℕ) (len : ℕ) (p : BufPool) → (alloc_buf junk len p).1.curr_cap ≤ p.curr_cap + 16384
unfolding alloc_buf alloc_size
alloc_buf-cap junk len p = ground (arith, get_mem_len-max len)

bufs-cons :
    (k size : ℕ) (b : IoBuf) (p : BufPool)
    → bufs size (record p { pool = Map.insert k (b ∷ bufs k p) p.pool })
      ≡ (if k == size then b ∷ bufs size p else bufs size p)
bufs-cons k size b p = ground (arith, Map.lookup-insert size k (b ∷ bufs k p) p.pool)

-- A well-formed buffer that is given back to a well-formed pool stands, empty, before the free
-- ones of its size; the others stay, and the memory taken is as before.
pub release-IsPool :
    (buf : IoBuf) (p : BufPool)
    → IsWf buf
    → IsPool p
    → (p' : BufPool) × (b : IoBuf) × (release buf p ≡ some p')
      × IsPool p'
      × IsFree buf.capacity b
      × (p'.curr_cap ≡ p.curr_cap)
      × ((size : ℕ) → bufs size p' ≡ (if b.capacity == size then b ∷ bufs size p else bufs size p))
unfolding release
release-IsPool buf p w wp =
    let drained = pop-IsWf buf.datalen buf w (ground (arith, w.1, w.2)) in
    let (clear, cleared, (wf, front), cap, len, same) = adjust_lem (pop buf.datalen buf) drained in
    let b : IoBuf = record clear { datalen = 0 } in
    let size : clear.capacity ≡ buf.capacity = cap ∙ pop-capacity buf.datalen buf in
    let free : IsFree clear.capacity b = ((wf.0, omega (arith, wf.1), wf.2), front, refl, refl) in
    (
      record p { pool = Map.insert clear.capacity (b ∷ bufs clear.capacity p) p.pool },
      b,
      rw cleared,
      (
        AllFree-insert clear.capacity (b ∷ bufs clear.capacity p) p wp.0 (free, wp.0 clear.capacity)
            p.curr_cap,
        wp.1,
      ),
      (free.0, front, refl, size),
      refl,
      λ k. bufs-cons clear.capacity k b p,
    )

make_io_buf_pool-IsPool :
    (junk : ℕ → ℕ) (size num : ℕ) (p : BufPool)
    → is_neg size ≡ false
    → IsPool p
    → IsPool (make_io_buf_pool junk size num p)
unfolding make_io_buf_pool
make_io_buf_pool-IsPool junk size num p h w =
    elim (Bool-cases (leb (suc max_buf_pool_cap) (size / 1024 * num + p.curr_cap))) [
      | inl full ↦ rw full w
      | inr room ↦
          let free =
            All-replicate size (suc (num - 1)) (io_buf junk size) (io_buf-IsFree junk size h) in
          rw room (AllFree-insert size _ p w.0 free (p.curr_cap + size / 1024 * num), ground arith)
    ]

make_pools-IsPool :
    (junk : ℕ → ℕ) (sizes : List (ℕ × ℕ)) (p : BufPool)
    → All (λ s. is_neg s.0 ≡ false) sizes
    → IsPool p
    → IsPool (make_pools junk sizes p)
unfolding make_pools
make_pools-IsPool junk [] p h w = w
make_pools-IsPool junk ((size, num) ∷ sizes) p h w =
    make_pools-IsPool junk sizes (make_io_buf_pool junk size num p) h.1
      (make_io_buf_pool-IsPool junk size num p h.0 w)

first_cap : (junk : ℕ → ℕ) → (buf_pool junk).curr_cap ≡ 590240
unfolding buf_pool make_pools make_io_buf_pool
first_cap junk = refl

-- The first pool is one, and takes 590240 KB of the 4194304 that it may take.
pub buf_pool-IsPool : (junk : ℕ → ℕ) → IsPool (buf_pool junk) × ((buf_pool junk).curr_cap ≡ 590240)
unfolding buf_pool
buf_pool-IsPool junk = (
  make_pools-IsPool junk first_sizes (record { pool = []; curr_cap = 0 })
      (refl, (refl, (refl, (refl, (refl, (refl, (refl, tt))))))) (λ size. tt, omega arith),
  first_cap junk,
)
