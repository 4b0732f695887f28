-- ===== src/Platform/Script.antt =====
-- A platform that runs: a peer whose bytes are scripted, sends that take a few bytes at a time until
-- a number of sends is used up, and memory that does not fail. It meets the laws of memory and of
-- hash tables; those of sockets are in Platform.Script.Wiring.
pub mod Wiring
use libstomp.Prelude.{
  ℕ, zero, suc, ◌+◌, ◌-◌, ◌*◌, ◌≤◌, ◌<◌, ◌≡◌, ◌≢◌, refl, sym, Bool, true, false, none, some, [],
  ◌∷◌, ◌++◌, Text, Buffer, length, take, drop, ◌==◌, if◌then◌else◌, ℤ, pos, negsuc, decimal,
  take-append_length, length-take_le, drop-append_length, append-nil, Bool-cases, inl, inr, arith,
}
use Prim.Native.Nat.{min}
use libstomp.Platform.Interface.{Apr}
use libstomp.Platform.Laws.{
  Objects, Closing, Codes, Finished, Wire, HasMemory, Unsplit, HashLaws, find,
}
use libstomp.Platform.Table.{Table, insert, overlay, find-insert, find-overlay}

pub record Peer : Type 0 where
  pub input : Text
  pub output : Text
  pub chunk : ℕ
  pub sends_left : ℕ

-- 104 is ECONNRESET.
unfoldable pub absorb : Buffer → Peer → (ℕ × ℕ) × Peer
absorb bs w =
    let n = min (w.chunk + 1) (length bs) in
    elim (w.sends_left == 0) [
      | true ↦ ((104, 0), w)
      | false ↦ ((0, n), record w { output = w.output ++ take n bs; sends_left = w.sends_left - 1 })
    ]

-- 70014 is APR_EOF, also for a receive of no bytes.
unfoldable pub deliver : ℕ → Peer → (ℕ × Buffer) × Peer
deliver zero w = ((70014, []), w)
deliver (suc n) w = elim w.input [
  | [] ↦ ((70014, []), w)
  | b ∷ bs ↦ ((0, take (suc n) (b ∷ bs)), record w { input = drop (suc n) (b ∷ bs) })
]

from_digits : ℕ → Text → ℕ
from_digits n [] = n
from_digits n (c ∷ t) = from_digits (n * 10 + (c - 48)) t

unfoldable pub to_number : Text → ℤ
unfolding from_digits
to_number [] = pos 0
to_number (c ∷ t) =
    let n = from_digits 0 t in
    if c == 45 then (if n == 0 then pos 0 else negsuc (n - 1)) else pos (from_digits 0 (c ∷ t))

-- 70007 is APR_TIMEUP.
unfoldable pub wait_status : Text → ℕ
wait_status [] = 70007
wait_status (b ∷ bs) = 0

pub wait_status_ready : (t : Text) → t ≢ [] → wait_status t ≡ 0
unfolding wait_status
wait_status_ready [] h = absurd (h refl)
wait_status_ready (b ∷ bs) h = refl

-- The environment of the process has STOMP_DEBUG where `debug` is true.
abbrev pub script : Bool → Apr
script debug = record {
  Net = Peer;
  Mem = Unit;
  Pool = Unit;
  Socket = Unit;
  SockAddr = Unit;
  Hash = Table;
  enomem = 12;
  egeneral = 20014;
  timeup = 70007;
  is_eagain = λ rc. rc == 11;
  strerror = λ rc n. take (n - 1) (decimal (pos rc));
  initialize = λ m. (0, m);
  terminate = λ m. m;
  malloc = λ n m. (true, m);
  pool_create = λ p m. ((0, tt), m);
  pool_destroy = λ p m. m;
  pcalloc = λ p n m. (true, m);
  env_get = λ name m. (if debug then 0 else 2, m);
  socket_send = λ s bs w. absorb bs w;
  socket_recv = λ s n w. deliver n w;
  wait_for_io = λ s w. (wait_status w.input, w);
  sockaddr_info_get = λ host port w. ((0, some tt), w);
  sin_family = λ sa. 2;
  sa_hostname = λ sa. none;
  socket_create = λ family w. ((0, some tt), w);
  socket_connect = λ s sa w. (0, w);
  socket_nonblock = λ s w. (0, w);
  socket_remote = λ s w. ((0, some tt), w);
  socket_local = λ s w. ((0, some tt), w);
  sockaddr_ip_get = λ sa w. ((0, none), w);
  timeout_set = λ s t w. (0, w);
  socket_shutdown = λ s w. (0, w);
  socket_close = λ s w. (0, w);
  itoa = decimal;
  atoi64 = to_number;
  uri_parse = λ uri. (0, record { hostname = none; port = 61613; path = some uri });
  time_now_msec = λ m. (pos 1500, m);
  hash_make = λ p m. (some [], m);
  hash_set = insert;
  hash_get = λ h k. find k h;
  hash_entries = λ h. h;
  hash_copy = λ h. h;
  hash_overlay = overlay;
  hash_clear = λ h. [];
  hash_pool = λ h. some tt;
}

abbrev pub script_memory : (debug : Bool) → HasMemory (script debug)
script_memory debug = record {
  pool_created = λ p m. refl;
  allocated = λ p n m. refl;
  malloced = λ n m. refl;
  empty = [];
  hash_made = λ p m. refl;
  get-empty = λ k. refl;
}

pub script_hash : (debug : Bool) → HashLaws (script debug)
script_hash debug = record {
  get-set = find-insert;
  get-copy = λ h k. refl;
  get-overlay = find-overlay;
  get-clear = λ h k. refl;
  find-entries = λ h k. refl;
}

pub script_objects : (debug : Bool) → Objects (script debug)
script_objects debug = record {
  address_found = λ host port w h. (tt, refl);
  socket_made = λ family w h. (tt, refl);
  remote_found = λ s w h. (tt, refl);
  local_found = λ s w h. (tt, refl);
}

pub script_codes : (debug : Bool) → Codes (script debug)
script_codes debug = record {
  enomem_error = λ e. omega arith;
  egeneral_error = λ e. omega arith;
  timeup_error = λ e. omega arith;
}
