-- ===== src/Io/Blocks.antt =====
-- data_block_list of stomp_io.h: bytes received one by one into blocks of 1024, and the loop that
-- copies them into one buffer. A block is modelled by the bytes written to it so far; the rest of its
-- 1024 bytes are the zeros of apr_pcalloc.
use libstomp.Prelude.{
  ℕ, ◌+◌, ◌-◌, ◌≤◌, ◌<◌, ◌≡◌, refl, sym, ◌∙◌, ap, List, [], ◌∷◌, ◌++◌, append_assoc, append-nil,
  Buffer, ltb, length, take, replicate, if◌then◌else◌, arith, length-append, take-append_length,
  le→ltb, leb→le, leb-false→lt, true, false, Bool, leb, lt→ltb,
}

abbrev pub block_size : ℕ
block_size = 1024

-- sizeof (data_block_list): the block and a pointer
abbrev pub data_block_list_size : ℕ
data_block_list_size = 1032

-- memcpy(p, head->data, len)
block_bytes : Buffer → ℕ → Buffer
block_bytes block len = take len (block ++ replicate (block_size - length block) 0)

-- The copy loop over the list of blocks, with the bytes that are left to copy.
copy_blocks : List Buffer → ℕ → Buffer
unfolding block_bytes
copy_blocks [] bytes_read = []
copy_blocks (head ∷ next) bytes_read =
    let len = if ltb block_size bytes_read then block_size else bytes_read in
    block_bytes head len ++ copy_blocks next (bytes_read - len)

joined : List Buffer → Buffer
joined [] = []
joined (b ∷ bs) = b ++ joined bs

-- Every block but the last is full, and the last has room for one byte at least.
abbrev AreFull : List Buffer → Type 0
AreFull [] = Unit
AreFull (b ∷ bs) = (length b ≡ block_size) × AreFull bs

AreFull-snoc :
    (bs : List Buffer) (b : Buffer) → AreFull bs → length b ≡ block_size → AreFull (bs ++ b ∷ [])
AreFull-snoc [] b f e = (e, tt)
AreFull-snoc (c ∷ bs) b f e = (f.0, AreFull-snoc bs b f.1 e)

joined-snoc : (bs : List Buffer) (b : Buffer) → joined (bs ++ b ∷ []) ≡ joined bs ++ b
unfolding joined
joined-snoc [] b = append-nil b
joined-snoc (c ∷ bs) b = ap (λ t. c ++ t) (joined-snoc bs b) ∙ sym (append_assoc c (joined bs) b)

block_bytes-length : (b : Buffer) (n : ℕ) → length b ≡ n → block_bytes b n ≡ b
unfolding block_bytes
block_bytes-length b n e = rw (← e) (take-append_length b _)

copy_blocks-full :
    (b : Buffer) (next : List Buffer) (n : ℕ)
    → length b ≡ block_size
    → block_size < n
    → copy_blocks (b ∷ next) n ≡ b ++ copy_blocks next (n - block_size)
unfolding copy_blocks
copy_blocks-full b next n e h = rw (lt→ltb block_size n h, block_bytes-length b block_size e)

copy_blocks-last : (b : Buffer) (n : ℕ) → length b ≡ n → n ≤ block_size → copy_blocks (b ∷ []) n ≡ b
unfolding copy_blocks
copy_blocks-last b n e h = rw (le→ltb n block_size h, block_bytes-length b n e) (append-nil b)

-- The copy loop returns the bytes of all the blocks, in order, whatever their number.
copy_blocks-joined :
    (blocks : List Buffer) (tail : Buffer) (n : ℕ)
    → AreFull blocks
    → 0 < length tail
    → length tail ≤ block_size
    → n ≡ length (joined blocks) + length tail
    → copy_blocks (blocks ++ tail ∷ []) n ≡ joined blocks ++ tail
unfolding joined
copy_blocks-joined [] tail n f pos fits e = copy_blocks-last tail n (omega arith) (omega arith)
copy_blocks-joined (b ∷ bs) tail n f pos fits e =
    let l = length-append b (joined bs) in
    copy_blocks-full b (bs ++ tail ∷ []) n f.0 (omega (arith, f.0, l))
    ∙ ap (λ t. b ++ t)
        (copy_blocks-joined bs tail (n - block_size) f.1 pos fits (omega (arith, f.0, l)))
    ∙ sym (append_assoc b (joined bs) tail)

-- The list of blocks with its last block apart, and the number of bytes received.
pub record Blocks : Type 0 where
  pub filled : List Buffer
  pub tail : Buffer
  pub bytes_read : ℕ

abbrev pub no_blocks : Blocks
no_blocks = record { filled = []; tail = []; bytes_read = 0 }

-- tail->data[i++] = b; bytesRead++;
unfoldable pub put_byte : ℕ → Blocks → Blocks
put_byte b s = record s { tail = s.tail ++ b ∷ []; bytes_read = s.bytes_read + 1 }

-- i >= sizeof (tail->data)
unfoldable pub is_full : Blocks → Bool
is_full s = leb block_size (length s.tail)

-- tail = tail->next; i = 0;
unfoldable pub next_block : Blocks → Blocks
next_block s = record s { filled = s.filled ++ s.tail ∷ []; tail = [] }

unfoldable pub copied : Blocks → Buffer
unfolding copy_blocks
copied s = copy_blocks (s.filled ++ s.tail ∷ []) s.bytes_read

unfoldable pub contents : Blocks → Buffer
unfolding joined
contents s = joined s.filled ++ s.tail

-- Between two receives the last block has room.
pub record HasRoom (s : Blocks) : Type 0 where
  pub full : AreFull s.filled
  pub room : length s.tail < block_size
  pub counted : s.bytes_read ≡ length (contents s)

pub no_blocks-HasRoom : HasRoom no_blocks
unfolding contents
no_blocks-HasRoom = record { full = tt; room = omega arith; counted = refl }

module _ (b : ℕ) (s : Blocks) where
  pub contents-put_byte : contents (put_byte b s) ≡ contents s ++ b ∷ []
  unfolding contents put_byte
  contents-put_byte = sym (append_assoc (joined s.filled) s.tail (b ∷ []))

  pub contents-next_block : contents (next_block (put_byte b s)) ≡ contents s ++ b ∷ []
  unfolding contents next_block put_byte
  contents-next_block =
      append-nil _
      ∙ joined-snoc s.filled (s.tail ++ b ∷ [])
      ∙ sym (append_assoc (joined s.filled) s.tail (b ∷ []))

  module _ (h : HasRoom s) where
    -- The buffer that is returned holds the bytes received, with `b` for the last of them.
    pub copied-put_byte : copied (put_byte b s) ≡ contents s ++ b ∷ []
    unfolding copied put_byte contents
    copied-put_byte =
        copy_blocks-joined s.filled (s.tail ++ b ∷ []) (s.bytes_read + 1) h.full
          (omega (arith, length-append s.tail (b ∷ [])))
          (omega (arith, h.room, length-append s.tail (b ∷ [])))
          (omega (
            arith,
            h.counted,
            length-append s.tail (b ∷ []),
            length-append (joined s.filled) s.tail,
          ))
        ∙ sym (append_assoc (joined s.filled) s.tail (b ∷ []))

    counted_more : (c : Buffer) → c ≡ contents s ++ b ∷ [] → s.bytes_read + 1 ≡ length c
    counted_more c e = rw (e, length-append) (omega (arith, h.counted))

    pub put_byte-HasRoom : is_full (put_byte b s) ≡ false → HasRoom (put_byte b s)
    unfolding is_full put_byte
    put_byte-HasRoom e = record {
      full = h.full;
      room = leb-false→lt _ _ e;
      counted = counted_more (contents (put_byte b s)) contents-put_byte;
    }

    pub next_block-HasRoom : is_full (put_byte b s) ≡ true → HasRoom (next_block (put_byte b s))
    unfolding is_full next_block put_byte
    next_block-HasRoom e = record {
      full =
          AreFull-snoc s.filled (s.tail ++ b ∷ []) h.full
            (omega (arith, h.room, leb→le _ _ e, length-append s.tail (b ∷ [])));
      room = omega arith;
      counted = counted_more _ contents-next_block;
    }
