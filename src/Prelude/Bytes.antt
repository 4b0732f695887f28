-- ===== src/Prelude/Bytes.antt =====
-- C strings and memory objects as lists of bytes.
use Prim.Native.Nat.{ℕ, ◌+◌, ◌≤◌}
use Prim.Native.Char.{code}
use Prim.Native.String.{String}
use mathlib.Core.Path.{◌≡◌, refl}
use mathlib.Core.Logic.{◌≢◌, inl, inr}
use mathlib.Core.Bool.{Bool, true, false, ◌&&◌}
use mathlib.Core.Option.{Option, none, some}
use mathlib.Core.List.{List, [], ◌∷◌, ◌++◌}
use native.Mathlib.Omega.{arith}
use libstomp.Prelude.Tests.{◌==◌, if◌then◌else◌, Bool-cases}
use libstomp.Prelude.Lists.{All, length}

-- The contents of a C string: the bytes before its terminator.
abbrev pub Text : Type 0
Text = List ℕ

-- The bytes of a memory object, terminators included.
abbrev pub Buffer : Type 0
Buffer = List ℕ

codes : String → Text
codes String.[] = []
codes (String.◌∷◌ c s) = code c ∷ codes s

-- A string literal of the source.
unfoldable pub text : String → Text
unfolding codes
text s = codes s

-- What `%s` prints, NULL included.
unfoldable pub printed : Option Text → Text
unfolding text
printed none = text "(null)"
printed (some t) = t

-- The string that an object holds: the bytes before its first terminator.
unfoldable pub c_str : Buffer → Text
c_str [] = []
c_str (b ∷ bs) = if b == 0 then [] else b ∷ c_str bs

-- strlen; `none` where the object has no terminator, so that the read runs past its end.
unfoldable pub strlen : Buffer → Option ℕ
strlen [] = none
strlen (b ∷ bs) =
    let rest = strlen bs in
    if b == 0 then some 0 else elim rest [ none ↦ none | some n ↦ some (n + 1) ]

-- strncmp(s, p, strlen(p)) == 0
unfoldable pub has_prefix : Text → Text → Bool
has_prefix s [] = true
has_prefix [] (c ∷ p) = false
has_prefix (b ∷ s) (c ∷ p) = b == c && has_prefix s p

abbrev pub IsText : Text → Type 0
IsText = All (λ (b : ℕ). b ≢ 0)

pub c_str-terminated : (t : Text) (rest : Buffer) → IsText t → c_str (t ++ 0 ∷ rest) ≡ t
unfolding c_str
c_str-terminated [] rest h = refl
c_str-terminated (b ∷ t) rest h = ground (arith, c_str-terminated t rest h.1)

pub has_prefix-append : (p s : Text) → has_prefix (p ++ s) p ≡ true
unfolding has_prefix
has_prefix-append [] s = refl
has_prefix-append (c ∷ p) s = ground (arith, has_prefix-append p s)

unfoldable pub same_text : Text → Text → Bool
same_text [] [] = true
same_text (a ∷ s) (b ∷ t) = a == b && same_text s t
same_text _ _ = false

pub same_text_refl : (t : Text) → same_text t t ≡ true
unfolding same_text
same_text_refl [] = refl
same_text_refl (a ∷ t) = ground (arith, same_text_refl t)

pub same_text→eq : (s t : Text) → same_text s t ≡ true → s ≡ t
unfolding same_text
same_text→eq [] [] h = refl
same_text→eq (a ∷ s) (b ∷ t) h = ground (arith, same_text→eq s t)
same_text→eq [] (b ∷ t) h = cc
same_text→eq (a ∷ s) [] h = cc

pub strlen-terminated :
    (t : Text) (rest : Buffer) → IsText t → strlen (t ++ 0 ∷ rest) ≡ some (length t)
unfolding strlen
strlen-terminated [] rest h = refl
strlen-terminated (b ∷ t) rest h = ground (arith, strlen-terminated t rest h.1)

pub c_str-IsText : (bs : Buffer) → IsText (c_str bs)
unfolding c_str
c_str-IsText [] = tt
c_str-IsText (b ∷ bs) = elim (Bool-cases (b == 0)) [
  | inl e ↦ rw (e, if◌then◌else◌) tt
  | inr e ↦ rw (e, if◌then◌else◌) ((λ z. ground arith), c_str-IsText bs)
]

pub length-c_str : (bs : Buffer) → length (c_str bs) ≤ length bs
unfolding c_str
length-c_str [] = omega arith
length-c_str (b ∷ bs) = ground (arith, length-c_str bs)
