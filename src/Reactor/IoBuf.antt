-- ===== src/Reactor/IoBuf.antt =====
-- reactor/include/io_buf.h and src/io_buf.cpp: a block of memory with the span of it that is in use.
-- The list of the pool that a buffer is linked into through `next` is a list of the model of the pool.
pub mod Contents
use ylars.Base.{
  ℕ, ◌+◌, ◌-◌, ◌≤◌, ◌≡◌, min, List, Option, none, some, leb, if◌then◌else◌, ◌>>=◌, length, take,
  drop, replicate, ◌&&◌, Bool, true, false,
}
use ylars.Base.Ints.{is_neg}
use ylars.Base.Memory.{block, read_at, write_at}

pub record IoBuf : Type 0 where
  pub capacity : ℕ
  pub datalen : ℕ
  pub data' : List ℕ
  pub head : ℕ

unfoldable pub io_buf : (ℕ → ℕ) → ℕ → IoBuf
io_buf junk capacity = record {
  capacity = capacity;
  datalen = 0;
  data' = block capacity junk;
  head = 0;
}

unfoldable pub pop : ℕ → IoBuf → IoBuf
pop n buf = if is_neg n then buf else record buf {
  head = buf.head + min n buf.datalen;
  datalen = buf.datalen - min n buf.datalen;
}

-- memmove of what is left to the front, where anything is left.
abbrev pub moved : IoBuf → Option (List ℕ)
moved buf =
    if leb 1 buf.datalen
    then (read_at buf.head buf.datalen buf.data' >>= λ bytes. write_at 0 bytes buf.data')
    else some buf.data'

unfoldable pub adjust : IoBuf → Option IoBuf
adjust buf =
    if leb 1 buf.head
    then (moved buf >>= λ memory.
        write_at buf.datalen (replicate (buf.capacity - buf.datalen) 0) memory >>= λ memory'.
        some (record buf { data' = memory'; head = 0 }))
    else some buf

-- The test `buf->datalen >= buf->datalen` compares the argument with itself.
unfoldable pub copy : Option IoBuf → IoBuf → Option IoBuf
copy none self = some self
copy (some buf) self =
    if leb buf.datalen buf.datalen && leb buf.datalen self.capacity
    then (adjust (pop self.datalen self) >>= λ empty.
        read_at buf.head buf.datalen buf.data' >>= λ bytes.
        write_at 0 bytes empty.data' >>= λ memory.
        some (record empty { datalen = buf.datalen; data' = memory }))
    else some self

-- memcpy of new bytes behind those in use, as readfd and send_data do it.
unfoldable pub append : List ℕ → IoBuf → Option IoBuf
append bytes buf = write_at buf.datalen bytes buf.data' >>= λ memory.
    some (record buf { data' = memory; datalen = buf.datalen + length bytes })

-- The bytes in use.
abbrev pub contents : IoBuf → List ℕ
contents buf = take buf.datalen (drop buf.head buf.data')

-- The span in use lies within the block, which is as long as the capacity says, and an int counts it.
abbrev pub IsWf : IoBuf → Type 0
IsWf buf =
    (length buf.data' ≡ buf.capacity)
    × (buf.head + buf.datalen ≤ buf.capacity)
    × (leb 2147483648 buf.capacity ≡ false)
