-- ===== src/Reactor/ReactorBuf.antt =====
-- reactor/include/reactor_buf.h and src/reactor_buf.cpp: the buffers of a connection, which take their
-- memory from the pool. `none` is undefined behaviour or a failed assert; a result of -1 is `Ret.fail`.
-- What the kernel answers to ioctl, read and write is an argument.
pub mod Growth
pub mod Transfer
mod Tests
use ylars.Base.{
  ◌||◌, ℕ, zero, suc, ◌+◌, ◌-◌, List, [], ◌∷◌, Option, none, some, leb, ltb, ◌==◌, if◌then◌else◌,
  ◌>>=◌, length, is_some, take,
}
use ylars.Base.Memory.{read_at}
use ylars.Reactor.IoBuf
use ylars.Reactor.IoBuf.{IoBuf, copy, append, adjust, contents}
use ylars.Reactor.BufPool.{BufPool, alloc_buf, release}

-- _buf, which is null until there is something to hold, and the pool that all buffers share.
pub record ReactorBuf : Type 0 where
  pub buf : Option IoBuf
  pub pool : BufPool

-- What a function returns: -1, or a number of bytes.
pub data Ret : Type 0 where
  fail : Ret
  ok : ℕ → Ret

-- What read and write answer: what was moved, or an errno. Of a read it is the bytes (none at the end of
-- the stream), of a write only their number, since the bytes are those that it was given.
pub data Outcome (A : Type 0) : Type 0 where
  moved : A → Outcome A
  eintr eagain econnreset error : Outcome A

abbrev pub Read : Type 0
Read = Outcome (List ℕ)

abbrev pub Write : Type 0
Write = Outcome ℕ

abbrev pub len : ReactorBuf → ℕ
len b = elim b.buf [ none ↦ 0 | some buf ↦ buf.datalen ]

unfoldable pub pop : ℕ → ReactorBuf → ReactorBuf
pop n b = elim b.buf [ none ↦ b | some buf ↦ record b { buf = some (IoBuf.pop n buf) } ]

unfoldable pub clear : ReactorBuf → Option ReactorBuf
clear b = elim b.buf [
  | none ↦ some b
  | some buf ↦ release buf b.pool >>= λ pool. some (record { buf = none; pool = pool })
]

-- do ... while (-1 == n && EINTR == errno); `none` is a call that has not come to an end.
unfoldable pub retry : {A : Type 0} → List (Outcome A) → Option (Outcome A)
retry [] = none
retry (eintr ∷ more) = retry more
retry (o ∷ more) = some o

-- The null test after the allocation looks at the old buffer, so a null new one is used: a fault.
abbrev pub replace : IoBuf → Option IoBuf × BufPool → Option (Option IoBuf × BufPool)
replace old (none, pool) = none
replace old (some new_buf, pool) =
    copy (some old) new_buf >>= λ full. release old pool >>= λ pool'. some (some full, pool')

-- The first part of readfd and of send_data: room for `n` bytes more, or a null buffer.
unfoldable pub make_room : (ℕ → ℕ) → ℕ → ReactorBuf → Option (Option IoBuf × BufPool)
make_room junk n b = elim b.buf [
  | none ↦ some (alloc_buf junk n b.pool)
  | some buf ↦
      if buf.head == 0
      then (if ltb buf.capacity (n + buf.datalen)
          then replace buf (alloc_buf junk (n + buf.datalen) b.pool)
          else some (some buf, b.pool))
      else none
]

-- The second part of readfd, for what read has brought: the assert holds it to what was announced.
unfoldable pub take_in : ℕ → Read → IoBuf → BufPool → Option (Ret × ReactorBuf)
take_in need_read (moved bytes) buf pool =
    if length bytes == 0
    then some (ok 0, record { buf = some buf; pool = pool })
    else if (need_read == 0) || (length bytes == need_read)
    then (append bytes buf >>= λ full.
        some (ok (length bytes), record { buf = some full; pool = pool }))
    else none
take_in need_read eagain buf pool = some (ok 0, record { buf = some buf; pool = pool })
take_in need_read econnreset buf pool = some (ok 0, record { buf = some buf; pool = pool })
take_in need_read o buf pool = some (fail, record { buf = some buf; pool = pool })

-- `need_read` is what ioctl answers, `none` where it fails.
unfoldable pub readfd : (ℕ → ℕ) → Option ℕ → List Read → ReactorBuf → Option (Ret × ReactorBuf)
readfd junk none reads b = some (fail, b)
readfd junk (some need_read) reads b = make_room junk need_read b >>= λ (buf, pool). elim buf [
  | none ↦ some (fail, record { buf = none; pool = pool })
  | some buf ↦ retry reads >>= λ o. take_in need_read o buf pool
]

unfoldable pub send_data : (ℕ → ℕ) → Option (List ℕ) → ReactorBuf → Option (Ret × ReactorBuf)
send_data junk none b = some (fail, b)
send_data junk (some []) b = some (fail, b)
send_data junk (some (d ∷ ds)) b = make_room junk (length (d ∷ ds)) b >>= λ (buf, pool). elim buf [
  | none ↦ some (fail, record { buf = none; pool = pool })
  | some buf ↦ append (d ∷ ds) buf >>= λ full. some (ok 0, record { buf = some full; pool = pool })
]

-- What write has taken of the bytes that it was offered is on the wire, and goes from the front of the
-- buffer.
unfoldable pub give_out : Write → List ℕ → IoBuf → ReactorBuf → Option (Ret × List ℕ × ReactorBuf)
give_out (moved n) offered buf b =
    if n == 0
    then some (ok 0, [], b)
    else (adjust (IoBuf.pop n buf) >>= λ rest.
        some (ok n, take n offered, record b { buf = some rest }))
give_out eagain offered buf b = some (ok 0, [], b)
give_out o offered buf b = some (fail, [], b)

-- write is given `datalen` bytes from the start of the block on, wherever `head` stands.
unfoldable pub write2fd : List Write → ReactorBuf → Option (Ret × List ℕ × ReactorBuf)
write2fd writes b = elim b.buf [
  | none ↦ some (fail, [], b)
  | some buf ↦
      read_at 0 buf.datalen buf.data' >>= λ offered. retry writes >>= λ o. give_out o offered buf b
]
