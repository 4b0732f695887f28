-- ===== src/Platform/Interface.antt =====
-- What the code calls and does not implement: the Apache Portable Runtime and the C allocator, as an
-- interface. `Net` is the state of the sockets and their peers, `Mem` that of the allocators and of
-- the process environment. A status is an apr_status_t, where APR_SUCCESS is 0.
use libstomp.Prelude.{ℕ, Bool, Option, List, Text, Buffer, ℤ}

-- The fields of apr_uri_t that the code reads.
pub record Uri : Type 0 where
  pub hostname : Option Text
  pub port : ℕ
  pub path : Option Text

-- A null pointer is `none`, and `terminate` and the other functions of one argument return nothing.
pub record Apr : Type 1 where
  pub Net : Type 0
  pub Mem : Type 0
  pub Pool : Type 0
  pub Socket : Type 0
  pub SockAddr : Type 0
  pub Hash : Type 0
  -- status codes; `strerror rc n` is the text that apr_strerror writes into n bytes
  pub enomem : ℕ
  pub egeneral : ℕ
  pub timeup : ℕ
  pub is_eagain : ℕ → Bool
  pub strerror : ℕ → ℕ → Text
  -- memory: `true` where the allocation succeeds
  pub initialize : Mem → ℕ × Mem
  pub terminate : Mem → Mem
  pub malloc : ℕ → Mem → Bool × Mem
  pub pool_create : Option Pool → Mem → (ℕ × Pool) × Mem
  pub pool_destroy : Pool → Mem → Mem
  pub pcalloc : Pool → ℕ → Mem → Bool × Mem
  pub env_get : Text → Mem → ℕ × Mem
  -- sockets: the status with the number of bytes taken, or with the bytes delivered
  pub socket_send : Socket → Buffer → Net → (ℕ × ℕ) × Net
  pub socket_recv : Socket → ℕ → Net → (ℕ × Buffer) × Net
  pub wait_for_io : Socket → Net → ℕ × Net
  pub sockaddr_info_get : Option Text → ℕ → Net → (ℕ × Option SockAddr) × Net
  pub sin_family : SockAddr → ℕ
  pub sa_hostname : SockAddr → Option Text
  pub socket_create : ℕ → Net → (ℕ × Option Socket) × Net
  pub socket_connect : Socket → Option SockAddr → Net → ℕ × Net
  pub socket_nonblock : Socket → Net → ℕ × Net
  pub socket_remote : Socket → Net → (ℕ × Option SockAddr) × Net
  pub socket_local : Socket → Net → (ℕ × Option SockAddr) × Net
  pub sockaddr_ip_get : SockAddr → Net → (ℕ × Option Text) × Net
  pub timeout_set : Socket → ℤ → Net → ℕ × Net
  pub socket_shutdown : Socket → Net → ℕ × Net
  pub socket_close : Socket → Net → ℕ × Net
  -- text and time
  pub itoa : ℤ → Text
  pub atoi64 : Text → ℤ
  pub uri_parse : Text → ℕ × Uri
  pub time_now_msec : Mem → ℤ × Mem
  -- hash tables; a null value removes its key, and the entries come in the order of iteration
  pub hash_make : Option Pool → Mem → Option Hash × Mem
  pub hash_set : Hash → Text → Option Text → Hash
  pub hash_get : Hash → Text → Option Text
  pub hash_entries : Hash → List (Text × Text)
  pub hash_copy : Hash → Hash
  pub hash_overlay : Hash → Hash → Hash
  pub hash_clear : Hash → Hash
  pub hash_pool : Hash → Option Pool
