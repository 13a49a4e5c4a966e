-- ===== src/Api/Answers.antt =====
-- ylars_api::get_host: the answers that the loop drops, and the one that it takes.
use ylars.Base.{
  ℕ, ◌+◌, ◌%◌, ◌≤◌, ◌<◌, ◌≡◌, ap, ◌∙◌, true, false, List, [], ◌∷◌, ◌++◌, Option, some, map, arith,
  All, ltb, ◌==◌, ◌>>=◌, length, take, drop, take_all, ==_refl,
}
use ylars.Proto.{GetHostResponse, id_get_host_response}
use ylars.Reactor.Message.{head_of}
use ylars.Reactor.Message.Frames.{encode}
use ylars.Reactor.Udp.Transfer.{length-encode, drop-encode, head_of-encode}
use ylars.Api.{Protobuf, request, answer_body, unless_stale, await}

pub request_lem :
    (msgid : ℕ) (body : List ℕ)
    → length body ≤ 1016
    → request msgid body ≡ some (encode (msgid, body))
unfolding request encode
request_lem msgid body h = ground arith

no_wrap : (n m : ℕ) → n ≤ 1024 → n ≡ m + 8 → (n == (m + 8) % 4294967296) ≡ true
no_wrap n m h e = let w : (m + 8) % 4294967296 ≡ n = omega arith in rw w (==_refl n)

answer_body-good :
    (msgid : ℕ) (bytes : List ℕ)
    → length bytes ≤ 1024
    → 8 ≤ length bytes
    → length bytes ≡ (head_of bytes).msglen + 8
    → (head_of bytes).msgid ≡ msgid
    → answer_body msgid bytes ≡ some (take (head_of bytes).msglen (drop 8 bytes))
unfolding answer_body
answer_body-good msgid bytes h long size same =
    let all = take_all bytes 1024 h in
    let short : ltb (length bytes) 8 ≡ false = ground arith in
    let fits : (length bytes == ((head_of bytes).msglen + 8) % 4294967296) ≡ true =
      no_wrap (length bytes) (head_of bytes).msglen h size in
    let right : ((head_of bytes).msgid == msgid) ≡ true = ground arith in
    rw (all, short, fits, right)

-- A message that fits the buffer is read back.
pub answer_body-encode :
    (msgid : ℕ) (body : List ℕ)
    → msgid < 4294967296
    → length body ≤ 1016
    → answer_body msgid (encode (msgid, body)) ≡ some body
answer_body-encode msgid body h k =
    let size = length-encode (msgid, body) in
    let head = head_of-encode (msgid, body) (h, omega (arith, k)) in
    let good =
      answer_body-good msgid (encode (msgid, body)) (omega (arith, size, k)) (omega (arith, size))
        (rw head (omega (arith, size))) (rw head) in
    good ∙ rw (head, drop-encode (msgid, body), take_all body (length body) (omega arith))

-- An answer on the wire.
abbrev pub wire : List ℕ → Option (List ℕ)
wire body = some (encode (id_get_host_response, body))

-- A message that fits the buffer and holds this answer.
abbrev pub Holds : Protobuf → List ℕ → GetHostResponse → Type 0
Holds pb body res = (length body ≤ 1016) × (pb.parse_host_response body ≡ some res)

-- The answer to an earlier request.
abbrev pub IsStale : Protobuf → ℕ → List ℕ → Type 0
IsStale pb seq body = (res : GetHostResponse) × Holds pb body res × (res.seq < seq)

module _ (pb : Protobuf) (seq : ℕ) where
  heard :
      (body : List ℕ) (res : GetHostResponse)
      → Holds pb body res
      → (answer_body id_get_host_response (encode (id_get_host_response, body))
          >>= pb.parse_host_response)
        ≡ some res
  heard body res h = rw (answer_body-encode id_get_host_response body (omega arith) h.0) h.1

  await-stale :
      (body : List ℕ) (hears : List (Option (List ℕ)))
      → IsStale pb seq body
      → await pb seq (wire body ∷ hears) ≡ await pb seq hears
  unfolding await
  await-stale body hears (res, h, old) =
      let e : ltb res.seq seq ≡ true = ground arith in
      ap (unless_stale seq (await pb seq hears)) (heard body res h) ∙ rw e

  await-fresh :
      (body : List ℕ) (res : GetHostResponse) (hears : List (Option (List ℕ)))
      → Holds pb body res
      → seq ≤ res.seq
      → await pb seq (wire body ∷ hears) ≡ some (some res)
  unfolding await
  await-fresh body res hears h new =
      let e : ltb res.seq seq ≡ false = ground arith in
      ap (unless_stale seq (await pb seq hears)) (heard body res h) ∙ rw e

  -- Behind any number of answers to earlier requests, the loop takes the first that is none of those.
  pub await_lem :
      (stale : List (List ℕ)) (body : List ℕ) (res : GetHostResponse)
      (later : List (Option (List ℕ)))
      → All (IsStale pb seq) stale
      → Holds pb body res
      → seq ≤ res.seq
      → await pb seq (map wire stale ++ (wire body ∷ later)) ≡ some (some res)
  await_lem [] body res later old h new = await-fresh body res later h new
  await_lem (b ∷ stale) body res later old h new =
      await-stale b (map wire stale ++ (wire body ∷ later)) old.0
      ∙ await_lem stale body res later old.1 h new
