-- ===== src/Example/Engine/Server.antt =====
-- The main function of example/engine/server.c.
use libstomp.Prelude.{ℕ, ◌-◌, Option, none, some, text, size_mod}
use libstomp.Exec.{◌>>=◌}
use libstomp.Platform.{Apr}
use libstomp.Machine.{M}
use libstomp.Io.Base.{Connection, Frame}
use libstomp.Messenger.Requests.{new_headers, request}
use libstomp.Example.Engine.{with_connection, send_or_die, read_response, hang_up}

module _ ⦃apr : Apr⦄ where
  abbrev pub subscribe_frame : apr.Hash → Frame apr
  subscribe_frame h =
      request (text "SUB") (apr.hash_set h (text "destination") (some (text "/queue/FOO.BAR")))

  -- It has no headers.
  abbrev pub goodbye : Frame apr
  goodbye = record {
    command = text "DISCONNECT";
    headers = none;
    body = none;
    body_length = size_mod - 1;
  }

module _ ⦃apr : Apr⦄ (fuel : ℕ) (garbage : ℕ) where
  unfoldable pub subscribe : Connection apr → apr.Pool → M ℕ
  unfolding new_headers send_or_die read_response hang_up
  subscribe connection pool = do
    h ← new_headers pool
    send_or_die fuel garbage connection pool (subscribe_frame h) (
        read_response fuel garbage connection pool
          (send_or_die fuel garbage connection pool goodbye (hang_up connection pool)))

  unfoldable pub talk : Connection apr → apr.Pool → M ℕ
  unfolding new_headers send_or_die read_response subscribe
  talk connection pool = do
    h ← new_headers pool
    send_or_die fuel garbage connection pool (request (text "CONNECT") h)
        (read_response fuel garbage connection pool (subscribe connection pool))

  unfoldable pub main : Option (Connection apr) → M ℕ
  unfolding with_connection talk
  main connection = with_connection connection talk
