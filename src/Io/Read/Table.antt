-- ===== src/Io/Read/Table.antt =====
-- The header lines of a frame are read back into a table.
use libstomp.Prelude.{
  ℕ, zero, suc, ◌+◌, ◌<◌, ◌≡◌, ◌≢◌, refl, ◌∙◌, false, some, List, [], ◌∷◌, ◌++◌, append_assoc, Text,
  length, length-append, ne→==, All, IsText, c_str-terminated, pos, is_zero, int_limit, arith,
}
use libstomp.Exec.{done, bind-done}
use libstomp.Platform.{Apr, Wire, HasMemory}
use libstomp.Machine.{State, M}
use libstomp.Io.Base.{Connection}
use libstomp.Io.Input.{Reads, Reads-trans}
use libstomp.Io.Line.{line, stomp_read_line}
use libstomp.Io.Line.Reads.{IsLineByte, stomp_read_line-Reads}
use libstomp.Io.Frame.Writes.{header_text}
use libstomp.Io.Read.{Headers, header_line, split_header, headers, header_loop}

abbrev pub IsKeyByte : ℕ → Type 0
IsKeyByte b = (b ≢ 58) × (b ≢ 10) × (b ≢ 0)

-- A header that a line can carry: no colon in its key, no newline and no terminator in either part.
pub record IsHeader (fuel : ℕ) (key value : Text) : Type 0 where
  pub key_bytes : All IsKeyByte key
  pub value_bytes : All IsLineByte value
  pub fits : length key + length value + 1 < fuel
  pub small : length key + length value + 1 < int_limit

abbrev pub AreHeaders : ℕ → List (Text × Text) → Type 0
AreHeaders fuel [] = Unit
AreHeaders fuel ((key, value) ∷ entries) = IsHeader fuel key value × AreHeaders fuel entries

-- A command line and header lines that a reader with this fuel takes.
pub record IsHead (fuel : ℕ) (command : Text) (entries : List (Text × Text)) : Type 0 where
  pub command_bytes : All IsLineByte command
  pub command_fits : length command < fuel
  pub command_small : length command < int_limit
  pub entries_fit : length entries < fuel
  pub entries_lines : AreHeaders fuel entries

-- The table after each header has been set in turn.
abbrev pub set_all : ⦃apr : Apr⦄ → apr.Hash → List (Text × Text) → apr.Hash
set_all h [] = h
set_all ⦃apr⦄ h ((key, value) ∷ entries) = set_all (apr.hash_set h key (some value)) entries

split_header-key :
    (key value : Text) → All IsKeyByte key → split_header (key ++ 58 ∷ value) ≡ some (key, value)
unfolding split_header
split_header-key [] value a = refl
split_header-key (b ∷ key) value (h, a) = rw (split_header-key key value a, ne→== b 58 h.0)

line_bytes :
    (key value : Text)
    → All IsKeyByte key
    → All IsLineByte value
    → All IsLineByte (key ++ 58 ∷ value)
line_bytes [] value a v = ((ground arith, ground arith), v)
line_bytes (b ∷ key) value (h, a) v = ((h.1, h.2), line_bytes key value a v)

pub text_bytes : (t : Text) → All IsLineByte t → IsText t
text_bytes [] a = tt
text_bytes (b ∷ t) (h, a) = (h.1, text_bytes t a)

is_zero-line : (key value : Text) → is_zero (pos (length (key ++ 58 ∷ value))) ≡ false
unfolding is_zero
is_zero-line [] value = refl
is_zero-line (b ∷ key) value = refl

module _ ⦃apr : Apr⦄ (wire : Wire apr) (memory : HasMemory apr) (s : apr.Socket)
    (connection : Connection apr) (open_socket : connection.socket ≡ some s) (fuel : ℕ)
    (pool : apr.Pool) where
  header_line_lem :
      (continue : apr.Hash → M (Headers apr)) (h : apr.Hash) (key value : Text) (u : State apr)
      → All IsKeyByte key
      → All IsLineByte value
      → header_line fuel connection pool continue h
          (line ((key ++ 58 ∷ value) ++ 0 ∷ []) (pos (length (key ++ 58 ∷ value))))
          u
        ≡ continue (apr.hash_set h key (some value)) u
  unfolding header_line
  header_line_lem continue h key value u a b = rw (
    is_zero-line key value,
    header_line,
    c_str-terminated (key ++ 58 ∷ value) [] (text_bytes _ (line_bytes key value a b)),
    split_header-key key value a,
  )

  -- The reader of header lines, at any lines that can carry headers, sets each of them in turn and
  -- stops behind the empty line.
  pub header_loop-Reads :
      (rounds : ℕ) (h : apr.Hash) (entries : List (Text × Text)) (rest : Text) (st : State apr)
      → 0 < fuel
      → length entries < rounds
      → AreHeaders fuel entries
      → wire.input s st.net ≡ header_text entries ++ 10 ∷ rest
      → (u : State apr) × (header_loop fuel connection pool rounds h st
          ≡ done (headers (set_all h entries), u))
        × Reads wire s st rest u
  unfolding header_loop is_zero
  header_loop-Reads zero h entries rest st pos_fuel enough a arrived = elim enough [ ]
  header_loop-Reads (suc rounds) h [] rest st pos_fuel enough a arrived =
      let r =
        stomp_read_line-Reads wire memory s connection open_socket fuel pool [] rest st pos_fuel
          (omega arith) tt arrived in
      (r.0, bind-done (stomp_read_line fuel connection pool) _ r.1, r.2)
  header_loop-Reads (suc rounds) h ((key, value) ∷ entries) rest st pos_fuel enough (k, a) arrived =
      let t : Text = key ++ 58 ∷ value in
      let after : Text = header_text entries ++ 10 ∷ rest in
      let l = length-append key (58 ∷ value) in
      let bytes = line_bytes key value k.key_bytes k.value_bytes in
      let r =
        stomp_read_line-Reads wire memory s connection open_socket fuel pool t after st
          (omega (arith, l, k.fits)) (omega (arith, l, k.small)) bytes
          (arrived ∙ simp append_assoc) in
      let next =
        header_loop-Reads rounds (apr.hash_set h key (some value)) entries rest r.0 pos_fuel
          (omega arith) a r.2.input_left in
      (
        next.0,
        bind-done (stomp_read_line fuel connection pool) _ r.1
            ∙ header_line_lem (header_loop fuel connection pool rounds) h key value r.0 k.key_bytes
                k.value_bytes
            ∙ next.1,
        Reads-trans wire s r.2 next.2,
      )
