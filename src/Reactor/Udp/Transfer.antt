-- ===== src/Reactor/Udp/Transfer.antt =====
-- What a datagram carries: the messages that are taken are those that send_msg lays out.
use ylars.Base.{
  ℕ, ◌+◌, ◌/◌, ◌%◌, ◌≤◌, ◌<◌, ◌≡◌, ◌≢◌, ◌↔◌, ◌⊎◌, refl, sym, ap, ◌∙◌, List, [], ◌∷◌, ◌++◌, none,
  some, true, false, Bool-cases, inl, inr, arith, All, leb, length, take, drop, replicate,
  length-append, length-drop, length-replicate, take_all, drop-append_le, take-append-drop,
  take-append_eq, get_or_else,
}
use ylars.Base.Memory.{read_at_lem, write_at_lem, written, length-written, take-written}
use ylars.Reactor.Message.{MsgHead, int_bytes, int_of, head_bytes, head_of, msg_max_limit}
use ylars.Reactor.Message.Frames.{Fits, encode, head_of-append, head_of-head_bytes}
use ylars.Reactor.Udp.{buf_len, is_abnormal, message_in, accept, lay_out}

abbrev pub IsBytes : List ℕ → Type 0
IsBytes = All (λ b. b < 256)

int_bytes-int_of :
    (a b c d : ℕ) (rest : List ℕ)
    → a < 256
    → b < 256
    → c < 256
    → d < 256
    → int_bytes (int_of (a ∷ b ∷ c ∷ d ∷ rest)) ≡ a ∷ b ∷ c ∷ d ∷ []
unfolding int_of
int_bytes-int_of a b c d rest ha hb hc hd =
    let n = int_of (a ∷ b ∷ c ∷ d ∷ rest) in
    let e0 : n % 256 ≡ a = omega arith in
    let e1 : n / 256 % 256 ≡ b = omega arith in
    let e2 : n / 65536 % 256 ≡ c = omega arith in
    let e3 : n / 16777216 % 256 ≡ d = omega arith in rw (e0, e1, e2, e3)

-- Eight bytes are the header that they are read as.
head_bytes-head_of :
    (bytes : List ℕ) → IsBytes bytes → 8 ≤ length bytes → head_bytes (head_of bytes) ≡ take 8 bytes
unfolding head_bytes head_of
head_bytes-head_of (a ∷ b ∷ c ∷ d ∷ e ∷ f ∷ g ∷ h ∷ rest)
      (ha, (hb, (hc, (hd, (he, (hf, (hg, (hh, v)))))))) long =
    ap (λ l. l ++ int_bytes (int_of (e ∷ f ∷ g ∷ h ∷ rest)))
      (int_bytes-int_of a b c d (e ∷ f ∷ g ∷ h ∷ rest) ha hb hc hd)
    ∙ ap (λ l. a ∷ b ∷ c ∷ d ∷ l) (int_bytes-int_of e f g h rest he hf hg hh)
head_bytes-head_of bytes v long = absurd (omega arith)

head_of-bounded :
    (bytes : List ℕ) → IsBytes bytes → 8 ≤ length bytes → (head_of bytes).msgid < 4294967296
unfolding head_of int_of
head_of-bounded (a ∷ b ∷ c ∷ d ∷ rest) (ha, (hb, (hc, (hd, v)))) long = omega arith
head_of-bounded bytes v long = absurd (omega arith)

-- The zeros behind a datagram in the buffer.
abbrev zeros : List ℕ → List ℕ
zeros bytes = drop (length bytes) (replicate buf_len 0)

accept-message_in :
    (bytes : List ℕ)
    → length bytes ≤ buf_len
    → accept bytes ≡ message_in (length bytes) (bytes ++ zeros bytes)
unfolding accept
accept-message_in bytes fits =
    let all = take_all bytes buf_len fits in
    let e : 0 + length bytes ≡ length bytes = omega arith in rw (all, e)

message_in-good :
    (n : ℕ) (buf : List ℕ) (h : MsgHead)
    → head_of buf ≡ h
    → is_abnormal h n ≡ false
    → 8 + h.msglen ≤ length buf
    → message_in n buf ≡ some (some (h.msgid, take h.msglen (drop 8 buf)))
message_in-good n buf h e good fits = rw (e, good, read_at_lem 8 h.msglen buf fits)

message_in-bad :
    (n : ℕ) (buf : List ℕ) → is_abnormal (head_of buf) n ≡ true → message_in n buf ≡ some none
message_in-bad n buf bad = rw bad

module _ (bytes : List ℕ) (fits : length bytes ≤ buf_len) where
  length-buf : length (bytes ++ zeros bytes) ≡ buf_len
  length-buf = omega (
    arith,
    length-append bytes (zeros bytes),
    length-drop {A = ℕ} (length bytes) (replicate buf_len 0),
    length-replicate {A = ℕ} buf_len 0,
  )

  -- A datagram whose header fits it is taken, with all that stands behind the header.
  accept-good :
      8 ≤ length bytes
      → is_abnormal (head_of bytes) (length bytes) ≡ false
      → accept bytes ≡ some (some ((head_of bytes).msgid, drop 8 bytes))
  accept-good long good =
      let exact : (head_of bytes).msglen ≡ length (drop 8 bytes) =
        ground (arith, length-drop 8 bytes) in
      let cut = drop-append_le 8 bytes (zeros bytes) long in
      let all = take-append_eq (head_of bytes).msglen (drop 8 bytes) (zeros bytes) (sym exact) in
      accept-message_in bytes fits
      ∙ message_in-good (length bytes) (bytes ++ zeros bytes) (head_of bytes)
          (head_of-append bytes (zeros bytes) long) good
          (omega (arith, exact, length-drop 8 bytes, length-buf))
      ∙ ap (λ p. some (some ((head_of bytes).msgid, p)))
          (ap (take (head_of bytes).msglen) cut ∙ all)

  accept-bad :
      is_abnormal (head_of (bytes ++ zeros bytes)) (length bytes) ≡ true → accept bytes ≡ some none
  accept-bad bad =
      accept-message_in bytes fits ∙ message_in-bad (length bytes) (bytes ++ zeros bytes) bad

  accept-cases :
      IsBytes bytes
      → (accept bytes ≡ some none)
        ⊎ ((accept bytes ≡ some (some ((head_of bytes).msgid, drop 8 bytes)))
            × (bytes ≡ encode ((head_of bytes).msgid, drop 8 bytes))
            × Fits msg_max_limit ((head_of bytes).msgid, drop 8 bytes))
  unfolding encode
  accept-cases v = elim (Bool-cases (leb 8 (length bytes))) [
    | inr short ↦ inl (accept-bad (ground arith))
    | inl long ↦
        let eight : 8 ≤ length bytes = ground arith in
        elim (Bool-cases (is_abnormal (head_of bytes) (length bytes))) [
          | inl bad ↦ inl (accept-bad (rw (head_of-append bytes (zeros bytes) eight) bad))
          | inr good ↦
              let exact : (head_of bytes).msglen ≡ length (drop 8 bytes) =
                ground (arith, length-drop 8 bytes) in
              let head = head_bytes-head_of bytes v eight in
              inr (
                accept-good eight good,
                sym (take-append-drop 8 bytes)
                    ∙ ap (λ l. l ++ drop 8 bytes) (sym head)
                    ∙ ap
                        (λ n.
                          head_bytes (record { msgid = (head_of bytes).msgid; msglen = n })
                          ++ drop 8 bytes)
                        exact,
                (head_of-bounded bytes v eight, ground (arith, exact)),
              )
        ]
  ]

pub length-encode : (m : ℕ × List ℕ) → length (encode m) ≡ 8 + length m.1
unfolding encode head_bytes
length-encode m = omega arith

pub drop-encode : (m : ℕ × List ℕ) → drop 8 (encode m) ≡ m.1
unfolding encode head_bytes
drop-encode m = refl

pub head_of-encode :
    (m : ℕ × List ℕ)
    → Fits msg_max_limit m
    → head_of (encode m) ≡ record { msgid = m.0; msglen = length m.1 }
unfolding encode
head_of-encode m fits = head_of-head_bytes m.0 (length m.1) m.1 fits.0 (omega (arith, fits.1))

pub accept-encode : (m : ℕ × List ℕ) → Fits msg_max_limit m → accept (encode m) ≡ some (some m)
accept-encode m fits =
    let size = length-encode m in
    let head : head_of (encode m) ≡ record { msgid = m.0; msglen = length m.1 } =
      head_of-encode m fits in
    let good : is_abnormal (head_of (encode m)) (length (encode m)) ≡ false =
      rw (head, size) (ground arith) in
    accept-good (encode m) (omega (arith, fits.1)) (omega arith) good ∙ rw (head, drop-encode m)

-- A datagram of bytes, no longer than the buffer, is taken as a message just where it is that message
-- as send_msg lays it out, with a number of 32 bits and no more data than the limit.
pub accept-encode_iff :
    (bytes : List ℕ) (m : ℕ × List ℕ)
    → IsBytes bytes
    → length bytes ≤ buf_len
    → (accept bytes ≡ some (some m)) ↔ ((bytes ≡ encode m) × Fits msg_max_limit m)
accept-encode_iff bytes m v fits = (
  λ taken. elim (accept-cases bytes fits v) [
    | inl e ↦ absurd (ground (arith, e, taken))
    | inr (e, same, ok) ↦
        let e' : ((head_of bytes).msgid, drop 8 bytes) ≡ m =
          ap (λ o. get_or_else (get_or_else o none) m) (sym e ∙ taken) in
        (same ∙ ap encode e', rw (← e') ok)
  ],
  λ (same, ok). rw (same) (accept-encode m ok),
)

-- A datagram that is no message is passed over.
pub accept-noise :
    (bytes : List ℕ)
    → IsBytes bytes
    → length bytes ≤ buf_len
    → ((m : ℕ × List ℕ) → Fits msg_max_limit m → bytes ≢ encode m)
    → accept bytes ≡ some none
accept-noise bytes v fits noise = elim (accept-cases bytes fits v) [
  | inl e ↦ e
  | inr (e, same, ok) ↦ absurd (noise ((head_of bytes).msgid, drop 8 bytes) ok same)
]

length-head_bytes : (h : MsgHead) → length (head_bytes h) ≡ 8
unfolding head_bytes
length-head_bytes h = refl

pub lay_out_lem :
    (msgid : ℕ) (data' : List ℕ)
    → length data' ≤ msg_max_limit
    → lay_out msgid data' ≡ some (encode (msgid, data'))
unfolding lay_out encode
lay_out_lem msgid data' h =
    let head = head_bytes (record { msgid = msgid; msglen = length data' }) in
    let blank = replicate {A = ℕ} buf_len 0 in
    let size : length blank ≡ 65535 = length-replicate {A = ℕ} buf_len 0 in
    let eight : length head ≡ 8 =
      length-head_bytes (record { msgid = msgid; msglen = length data' }) in
    let first = write_at_lem 0 head blank (omega arith) in
    let size1 = length-written 0 head blank (omega arith) in
    let second = write_at_lem 8 data' (written 0 head blank) (omega arith) in
    let size2 = length-written 8 data' (written 0 head blank) (omega arith) in
    let third =
      read_at_lem 0 (length data' + 8) (written 8 data' (written 0 head blank)) (omega arith) in
    let e : length data' + 8 ≡ 8 + length data' = omega arith in
    let front = take-append_eq 8 head (drop (0 + length head) blank) eight in
    let whole = take-written 8 data' (written 0 head blank) (omega arith) in
    rw (first, second, third) (ap some (rw e (whole ∙ ap (λ l. l ++ data') front)))
