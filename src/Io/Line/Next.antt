-- ===== src/Io/Line/Next.antt =====
-- What the next line of an input is: a description of stomp_read_line that does not mention blocks,
-- sockets or memory.
use libstomp.Prelude.{
  ℕ, ◌≡◌, inl, inr, ap, [], ◌∷◌, ◌++◌, Text, ◌==◌, ==_iff, if◌then◌else◌, Bool-cases, All, arith,
}
use libstomp.Io.Line.Reads.{IsLineByte}

-- A line and what follows it; what follows a terminator that comes first; or neither comes.
pub data Next : Type 0 where
  complete : Text → Text → Next
  broken : Text → Next
  unfinished : Next

abbrev prepend : ℕ → Next → Next
prepend b (complete t rest) = complete (b ∷ t) rest
prepend b (broken rest) = broken rest
prepend b unfinished = unfinished

unfoldable pub next_line : Text → Next
next_line [] = unfinished
next_line (b ∷ bs) =
    if b == 10 then complete [] bs else if b == 0 then broken bs else prepend b (next_line bs)

-- The three ways in which an input goes on, each with the answer of next_line.
pub data Ahead (input : Text) : Next → Type 0 where
  newline_ahead :
      (t rest : Text) → All IsLineByte t → input ≡ t ++ 10 ∷ rest → Ahead input (complete t rest)
  terminator_ahead :
      (t rest : Text) → All IsLineByte t → input ≡ t ++ 0 ∷ rest → Ahead input (broken rest)
  nothing_ahead : All IsLineByte input → Ahead input unfinished

Ahead-step :
    (b : ℕ) (bs : Text) {n : Next} → IsLineByte b → Ahead bs n → Ahead (b ∷ bs) (prepend b n)
Ahead-step b bs ok (newline_ahead t rest a e) =
    newline_ahead (b ∷ t) rest (ok, a) (ap (λ t. b ∷ t) e)
Ahead-step b bs ok (terminator_ahead t rest a e) =
    terminator_ahead (b ∷ t) rest (ok, a) (ap (λ t. b ∷ t) e)
Ahead-step b bs ok (nothing_ahead a) = nothing_ahead (ok, a)

pub next_line-Ahead : (input : Text) → Ahead input (next_line input)
unfolding next_line
next_line-Ahead [] = nothing_ahead tt
next_line-Ahead (b ∷ bs) = elim (Bool-cases (b == 10)) [
  | inl e ↦ rw (e, if◌then◌else◌) (newline_ahead [] bs tt (ap (λ c. c ∷ bs) ((==_iff b 10).0 e)))
  | inr e ↦ elim (Bool-cases (b == 0)) [
    | inl z ↦
        rw (e, z, if◌then◌else◌) (terminator_ahead [] bs tt (ap (λ c. c ∷ bs) ((==_iff b 0).0 z)))
    | inr z ↦
        rw (e, z, if◌then◌else◌) (Ahead-step b bs (ground arith, ground arith) (next_line-Ahead bs))
  ]
]
