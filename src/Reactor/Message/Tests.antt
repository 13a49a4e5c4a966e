-- ===== src/Reactor/Message/Tests.antt =====
-- The theorems on messages at concrete messages.
use ylars.Base.{ℕ, ◌≡◌, refl, true, List, [], ◌∷◌, ◌++◌, arith, length}
use ylars.Reactor.Message.{MsgRouter, head_bytes}
use ylars.Reactor.Message.Frames.{encode, encode_all, next, Next}
use ylars.Reactor.Message.Stream.{reads, delivered, flat, reads-encode_all}

abbrev cb : ℕ
cb = 70

abbrev no_routes : MsgRouter ℕ
no_routes = record { router = []; args = [] }

-- Two messages, cut within the first header and within the second message.
abbrev two : List (ℕ × List ℕ)
two = (5, 9 ∷ []) ∷ (300, 7 ∷ 8 ∷ []) ∷ []

abbrev pieces : List (List ℕ)
pieces =
    (5 ∷ 0 ∷ 0 ∷ [])
    ∷ (0 ∷ 1 ∷ 0 ∷ 0 ∷ 0 ∷ 9 ∷ 44 ∷ 1 ∷ 0 ∷ 0 ∷ 2 ∷ [])
    ∷ (0 ∷ 0 ∷ 0 ∷ 7 ∷ 8 ∷ 1 ∷ [])
    ∷ []

same_bytes : flat pieces ≡ encode_all two ++ (1 ∷ [])
unfolding encode_all encode head_bytes
same_bytes = refl

one_byte : next 65527 (1 ∷ []) ≡ Next.wait
unfolding next
one_byte = refl

reads-encode_all_example : delivered (reads 65527 (length (flat pieces)) [] pieces) ≡ (two, true)
reads-encode_all_example =
    reads-encode_all 65527 two pieces (1 ∷ []) (omega arith)
      ((omega arith, omega arith), ((omega arith, omega arith), tt)) one_byte same_bytes
