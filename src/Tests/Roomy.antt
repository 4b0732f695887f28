-- ===== src/Tests/Roomy.antt =====
-- A platform whose sends take everything, and a connection on it.
use libstomp.Prelude.{refl, ◌++◌, [], text, length, take-length, some, none, arith, sym, ap, false}
use libstomp.Platform.{Apr, Wire, HasMemory, Unsplit, Accepting}
use libstomp.Platform.Script.Wiring.{script_wire, script_unsplit}
use libstomp.Machine.{State}
use libstomp.Io.Base.{Connection}
use libstomp.Tests.Fixtures.{quiet, clean}

abbrev pub roomy : Apr
roomy = record quiet {
  socket_send = λ s bs w. ((0, length bs), record w { output = w.output ++ bs });
}

abbrev pub roomy_wire : Wire roomy
roomy_wire = record {
  input = λ s w. w.input;
  output = λ s w. w.output;
  sent_le = λ s bs w. omega arith;
  output-send = λ s bs w. ap (λ t. w.output ++ t) (sym (take-length bs));
  input-send = λ s bs w. refl;
  send_progress = λ s b bs w h. omega arith;
  recv_next = (script_wire false).recv_next;
  input-recv = (script_wire false).input-recv;
  output-recv = (script_wire false).output-recv;
  recv_le = (script_wire false).recv_le;
  wait_ready = (script_wire false).wait_ready;
  input-wait = λ s w. refl;
  output-wait = λ s w. refl;
  input-timeout = λ s r t w. refl;
  output-timeout = λ s r t w. refl;
}

pub roomy-Accepting : Accepting roomy
roomy-Accepting = record { send_accepted = λ s bs w. refl }

abbrev pub line : Connection roomy
line = record {
  socket = some tt;
  local_sa = none;
  local_ip = none;
  remote_sa = none;
  remote_ip = none;
}

abbrev pub fresh : State roomy
fresh = record {
  net = record { input = text "x"; output = []; chunk = 0; sends_left = 0 };
  mem = tt;
  io_error = clean;
  engine_error = clean;
}

abbrev pub roomy_memory : HasMemory roomy
roomy_memory = record {
  pool_created = λ p m. refl;
  allocated = λ p n m. refl;
  malloced = λ n m. refl;
  empty = [];
  hash_made = λ p m. refl;
  get-empty = λ k. refl;
}

abbrev pub roomy_unsplit : Unsplit roomy roomy_wire
roomy_unsplit = record {
  recv_whole = (script_unsplit false).recv_whole;
  input-recv_whole = (script_unsplit false).input-recv_whole;
}
