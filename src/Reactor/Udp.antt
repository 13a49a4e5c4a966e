-- ===== src/Reactor/Udp.antt =====
-- reactor/src/udp_server.cpp and udp_client.cpp: messages as datagrams. The messages that go to the
-- router are part of the result, and so are the datagrams that go to the kernel; what recvfrom and
-- sendto answer is an argument. Creating the socket is the constructor's, and is left out.
pub mod Server
pub mod Client
pub mod Transfer
pub mod Exchange
mod Tests
use ylars.Base.{
  ℕ, ◌+◌, List, [], ◌∷◌, ◌++◌, Option, none, some, Bool, not, ltb, ◌==◌, ◌||◌, if◌then◌else◌, ◌>>=◌,
  length, take, replicate,
}
use ylars.Base.Ints.{is_neg}
use ylars.Base.Memory.{read_at, write_at, written}
use ylars.Reactor.Message.{MsgHead, head_of, head_bytes, msg_head_len, msg_max_limit}
use ylars.Reactor.ReactorBuf.{Ret, fail, ok}

-- _read_buf and _write_buf have this size.
abbrev pub buf_len : ℕ
buf_len = msg_head_len + msg_max_limit

-- What one call of recvfrom answers: EINTR, EAGAIN, another error, or a datagram with its sender.
pub data Heard : Type 0 where
  interrupted would_block broken : Heard
  datagram : ℕ → List ℕ → Heard

-- A length that is refused, beside the number of bytes received.
abbrev pub is_abnormal : MsgHead → ℕ → Bool
is_abnormal h datalen =
    is_neg h.msglen || (ltb msg_max_limit h.msglen || not (h.msglen + msg_head_len == datalen))

-- A datagram in the cleared buffer: its message, or nothing where the header does not fit it.
abbrev pub message_in : ℕ → List ℕ → Option (Option (ℕ × List ℕ))
message_in datalen buf =
    if is_abnormal (head_of buf) datalen
    then some none
    else read_at msg_head_len (head_of buf).msglen buf >>= λ payload.
        some (some ((head_of buf).msgid, payload))

unfoldable pub accept : List ℕ → Option (Option (ℕ × List ℕ))
accept bytes =
    let got = take buf_len bytes in message_in (length got) (written 0 got (replicate buf_len 0))

-- The bytes that send_msg hands to sendto.
unfoldable pub lay_out : ℕ → List ℕ → Option (List ℕ)
lay_out msgid data' =
    write_at 0 (head_bytes (record { msgid = msgid; msglen = length data' })) (replicate buf_len 0)
    >>= λ buf.
        write_at msg_head_len data' buf >>= λ buf'. read_at 0 (length data' + msg_head_len) buf'

-- What sendto returns, a negative number as `none`.
abbrev pub returned : Option ℕ → Ret
returned none = fail
returned (some n) = ok n
