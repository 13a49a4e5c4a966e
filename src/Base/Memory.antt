-- ===== src/Base/Memory.antt =====
-- Blocks of bytes: a read or a write across the end of a block is a fault, `none`.
use ylars.Base.{
  ℕ, zero, suc, ◌+◌, ◌≤◌, ◌≡◌, refl, sym, ap, ◌∙◌, List, [], ◌∷◌, ◌++◌, Option, none, some, arith,
  leb, if◌then◌else◌, length, take, drop, length-take, length-drop, length-append, take-append_le,
  append_assoc, take_all,
}

-- What the heap yields for `new char[n]`: n bytes of any content.
abbrev pub block : ℕ → (ℕ → ℕ) → List ℕ
block zero junk = []
block (suc n) junk = junk n ∷ block n junk

pub length-block : (n : ℕ) (junk : ℕ → ℕ) → length (block n junk) ≡ n
length-block zero junk = refl
length-block (suc n) junk = ap suc (length-block n junk)

abbrev pub read_at : ℕ → ℕ → List ℕ → Option (List ℕ)
read_at i n memory = if leb (i + n) (length memory) then some (take n (drop i memory)) else none

abbrev pub written : ℕ → List ℕ → List ℕ → List ℕ
written i bytes memory = take i memory ++ (bytes ++ drop (i + length bytes) memory)

abbrev pub write_at : ℕ → List ℕ → List ℕ → Option (List ℕ)
write_at i bytes memory =
    if leb (i + length bytes) (length memory) then some (written i bytes memory) else none

pub length-written :
    (i : ℕ) (bytes memory : List ℕ)
    → i + length bytes ≤ length memory
    → length (written i bytes memory) ≡ length memory
length-written i bytes memory h = omega (
  arith,
  length-append (take i memory) (bytes ++ drop (i + length bytes) memory),
  length-append bytes (drop (i + length bytes) memory),
  length-take i memory,
  length-drop (i + length bytes) memory,
)

-- A write keeps what stands before it, and is read after it.
pub take-written :
    (i : ℕ) (bytes memory : List ℕ)
    → i + length bytes ≤ length memory
    → take (i + length bytes) (written i bytes memory) ≡ take i memory ++ bytes
take-written i bytes memory h =
    let a : length (take i memory ++ bytes) ≡ i + length bytes =
      omega (arith, length-append (take i memory) bytes, length-take i memory) in
    let b : written i bytes memory ≡ (take i memory ++ bytes) ++ drop (i + length bytes) memory =
      sym (append_assoc (take i memory) bytes (drop (i + length bytes) memory)) in
    rw b (
      take-append_le (i + length bytes) (take i memory ++ bytes) (drop (i + length bytes) memory)
        (omega (arith, a))
      ∙ take_all (take i memory ++ bytes) (i + length bytes) (omega (arith, a)))

pub read_at_lem :
    (i n : ℕ) (memory : List ℕ)
    → i + n ≤ length memory
    → read_at i n memory ≡ some (take n (drop i memory))
read_at_lem i n memory h = ground arith

pub write_at_lem :
    (i : ℕ) (bytes memory : List ℕ)
    → i + length bytes ≤ length memory
    → write_at i bytes memory ≡ some (written i bytes memory)
write_at_lem i bytes memory h = ground arith
