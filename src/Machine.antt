-- ===== src/Machine.antt =====
-- The process state: the platform's, and the two static variables named `error`, of stomp_io.c and of
-- stomp_engine.c. Output to stdout and stderr is not part of it.
use libstomp.Exec.{done, Exec}
use libstomp.Platform.{Apr}
use libstomp.Status.{Status}

pub record State (apr : Apr) : Type 0 where
  pub net : apr.Net
  pub mem : apr.Mem
  pub io_error : Status
  pub engine_error : Status

abbrev pub M : ⦃apr : Apr⦄ → Type 0 → Type 0
M ⦃apr⦄ A = Exec (State apr) A

-- A call of the platform on its sockets, and one on its memory.
module _ ⦃apr : Apr⦄ {A : Type 0} where
  abbrev pub on_net : (apr.Net → A × apr.Net) → M A
  on_net f s = let (a, w) = f s.net in done (a, record s { net = w })

  abbrev pub on_mem : (apr.Mem → A × apr.Mem) → M A
  on_mem f s = let (a, w) = f s.mem in done (a, record s { mem = w })

module _ ⦃apr : Apr⦄ where
  abbrev pub update_mem : (apr.Mem → apr.Mem) → M (Unit {0})
  update_mem f s = done (tt, record s { mem = f s.mem })
