-- ===== src/Platform/Laws.antt =====
-- What the code relies on of the platform, as documented for APR, and what a run may assume of it.
use libstomp.Prelude.{
  ℕ, ◌≤◌, ◌<◌, ◌≡◌, ◌≢◌, true, Option, none, some, List, [], ◌∷◌, ◌++◌, Text, Buffer, take, length,
  same_text, if◌then◌else◌, ℤ,
}
use libstomp.Platform.Interface.{Apr}

-- A connected stream socket, with what has arrived and is not read yet, and what has been sent.
pub record Wire (apr : Apr) : Type 0 where
  pub input : apr.Socket → apr.Net → Text
  pub output : apr.Socket → apr.Net → Text
  -- apr_socket_send takes a prefix of its bytes, whatever it returns
  pub sent_le :
      (s : apr.Socket) (bs : Buffer) (w : apr.Net) → (apr.socket_send s bs w).0.1 ≤ length bs
  pub output-send :
      (s : apr.Socket) (bs : Buffer) (w : apr.Net)
      → output s (apr.socket_send s bs w).1 ≡ output s w ++ take (apr.socket_send s bs w).0.1 bs
  pub input-send :
      (s : apr.Socket) (bs : Buffer) (w : apr.Net) → input s (apr.socket_send s bs w).1 ≡ input s w
  -- a send that succeeds takes at least one byte
  pub send_progress :
      (s : apr.Socket) (b : ℕ) (bs : Buffer) (w : apr.Net)
      → (apr.socket_send s (b ∷ bs) w).0.0 ≡ 0
      → 0 < (apr.socket_send s (b ∷ bs) w).0.1
  -- apr_socket_recv for one byte delivers the next one, once it is there
  pub recv_next :
      (s : apr.Socket) (b : ℕ) (rest : Text) (w : apr.Net)
      → input s w ≡ b ∷ rest
      → (apr.socket_recv s 1 w).0 ≡ (0, b ∷ [])
  pub input-recv :
      (s : apr.Socket) (b : ℕ) (rest : Text) (w : apr.Net)
      → input s w ≡ b ∷ rest
      → input s (apr.socket_recv s 1 w).1 ≡ rest
  pub output-recv :
      (s : apr.Socket) (n : ℕ) (w : apr.Net) → output s (apr.socket_recv s n w).1 ≡ output s w
  -- a receive brings no more than has arrived
  pub recv_le :
      (s : apr.Socket) (n : ℕ) (w : apr.Net)
      → length (apr.socket_recv s n w).0.1 ≤ length (input s w)
  -- apr_wait_for_io_or_timeout finds what has arrived, and takes and sends nothing
  pub wait_ready : (s : apr.Socket) (w : apr.Net) → input s w ≢ [] → (apr.wait_for_io s w).0 ≡ 0
  pub input-wait : (s : apr.Socket) (w : apr.Net) → input s (apr.wait_for_io s w).1 ≡ input s w
  pub output-wait : (s : apr.Socket) (w : apr.Net) → output s (apr.wait_for_io s w).1 ≡ output s w
  -- to set a timeout takes and sends nothing
  pub input-timeout :
      (s r : apr.Socket) (t : ℤ) (w : apr.Net) → input s (apr.timeout_set r t w).1 ≡ input s w
  pub output-timeout :
      (s r : apr.Socket) (t : ℤ) (w : apr.Net) → output s (apr.timeout_set r t w).1 ≡ output s w

-- A run in which a receive of one byte or more brings all that it asks for, where as much has arrived.
-- Nothing is said of a receive of no bytes, which apr_socket_recv answers with APR_EOF.
pub record Unsplit (apr : Apr) (wire : Wire apr) : Type 0 where
  pub recv_whole :
      (s : apr.Socket) (bs rest : Text) (w : apr.Net)
      → bs ≢ []
      → wire.input s w ≡ bs ++ rest
      → (apr.socket_recv s (length bs) w).0 ≡ (0, bs)
  pub input-recv_whole :
      (s : apr.Socket) (bs rest : Text) (w : apr.Net)
      → bs ≢ []
      → wire.input s w ≡ bs ++ rest
      → wire.input s (apr.socket_recv s (length bs) w).1 ≡ rest

-- A run in which the peer has sent all that it will send: a receive of one byte fails when nothing is
-- left.
pub record Finished (apr : Apr) (wire : Wire apr) : Type 0 where
  pub recv_end :
      (s : apr.Socket) (w : apr.Net) → wire.input s w ≡ [] → (apr.socket_recv s 1 w).0.0 ≢ 0
  pub input-recv_end :
      (s : apr.Socket) (w : apr.Net)
      → wire.input s w ≡ []
      → wire.input s (apr.socket_recv s 1 w).1 ≡ []

-- A run in which no send fails.
pub record Accepting (apr : Apr) : Type 0 where
  pub send_accepted :
      (s : apr.Socket) (bs : Buffer) (w : apr.Net) → (apr.socket_send s bs w).0.0 ≡ 0

-- To close a socket takes nothing back and sends nothing.
pub record Closing (apr : Apr) (wire : Wire apr) : Type 0 where
  pub output-shutdown :
      (s : apr.Socket) (w : apr.Net) → wire.output s (apr.socket_shutdown s w).1 ≡ wire.output s w
  pub output-close :
      (s : apr.Socket) (w : apr.Net) → wire.output s (apr.socket_close s w).1 ≡ wire.output s w

-- The status codes that the code names are not APR_SUCCESS.
pub record Codes (apr : Apr) : Type 0 where
  pub enomem_error : apr.enomem ≢ 0
  pub egeneral_error : apr.egeneral ≢ 0
  pub timeup_error : apr.timeup ≢ 0

-- A call that succeeds gives an object.
pub record Objects (apr : Apr) : Type 0 where
  pub address_found :
      (host : Option Text) (port : ℕ) (w : apr.Net)
      → (apr.sockaddr_info_get host port w).0.0 ≡ 0
      → (a : apr.SockAddr) × ((apr.sockaddr_info_get host port w).0.1 ≡ some a)
  pub socket_made :
      (family : ℕ) (w : apr.Net)
      → (apr.socket_create family w).0.0 ≡ 0
      → (s : apr.Socket) × ((apr.socket_create family w).0.1 ≡ some s)
  pub remote_found :
      (s : apr.Socket) (w : apr.Net)
      → (apr.socket_remote s w).0.0 ≡ 0
      → (a : apr.SockAddr) × ((apr.socket_remote s w).0.1 ≡ some a)
  pub local_found :
      (s : apr.Socket) (w : apr.Net)
      → (apr.socket_local s w).0.0 ≡ 0
      → (a : apr.SockAddr) × ((apr.socket_local s w).0.1 ≡ some a)

-- A run in which no allocation fails.
pub record HasMemory (apr : Apr) : Type 0 where
  pub pool_created : (p : Option apr.Pool) (m : apr.Mem) → (apr.pool_create p m).0.0 ≡ 0
  pub allocated : (p : apr.Pool) (n : ℕ) (m : apr.Mem) → (apr.pcalloc p n m).0 ≡ true
  pub malloced : (n : ℕ) (m : apr.Mem) → (apr.malloc n m).0 ≡ true
  pub empty : apr.Hash
  pub hash_made : (p : Option apr.Pool) (m : apr.Mem) → (apr.hash_make p m).0 ≡ some empty
  pub get-empty : (k : Text) → apr.hash_get empty k ≡ none

abbrev pub first : Option Text → Option Text → Option Text
first none o = o
first (some t) o = some t

-- The value that the last entry of a key has.
abbrev pub find : Text → List (Text × Text) → Option Text
find k [] = none
find k ((j, v) ∷ entries) = first (find k entries) (if same_text j k then some v else none)

-- Hash tables are finite maps from strings to strings.
pub record HashLaws (apr : Apr) : Type 0 where
  pub get-set :
      (h : apr.Hash) (k j : Text) (v : Option Text)
      → apr.hash_get (apr.hash_set h k v) j ≡ (if same_text k j then v else apr.hash_get h j)
  pub get-copy : (h : apr.Hash) (k : Text) → apr.hash_get (apr.hash_copy h) k ≡ apr.hash_get h k
  pub get-overlay :
      (a b : apr.Hash) (k : Text)
      → apr.hash_get (apr.hash_overlay a b) k ≡ first (apr.hash_get a k) (apr.hash_get b k)
  pub get-clear : (h : apr.Hash) (k : Text) → apr.hash_get (apr.hash_clear h) k ≡ none
  pub find-entries : (h : apr.Hash) (k : Text) → find k (apr.hash_entries h) ≡ apr.hash_get h k
