-- ===== src/Example/Engine/Client.antt =====
-- The main function of example/engine/client.c.
use libstomp.Prelude.{ℕ, Option, some, [], ◌∷◌, ◌++◌, text}
use libstomp.Exec.{◌>>=◌}
use libstomp.Platform.{Apr}
use libstomp.Machine.{M}
use libstomp.Io.Base.{Connection, Frame}
use libstomp.Messenger.Requests.{new_headers, request}
use libstomp.Example.Engine.{with_connection, send_or_die, read_response, hang_up}

module _ ⦃apr : Apr⦄ where
  abbrev pub login_frame : apr.Hash → Frame apr
  login_frame h = request (text "CONNECT") (
      apr.hash_set (apr.hash_set h (text "login") (some (text "hchirino"))) (text "passcode")
        (some (text "letmein")))

  -- The length -1 is that of `request` too, and the body has its terminator.
  abbrev pub message_frame : apr.Hash → Frame apr
  message_frame h =
      record (request (text "SEND")
        (apr.hash_set h (text "destination") (some (text "/queue/test.stomp.queue")))) {
          body = some (text "This is the message" ++ 0 ∷ []);
        }

module _ ⦃apr : Apr⦄ (fuel : ℕ) (garbage : ℕ) where
  unfoldable pub send_message : Connection apr → apr.Pool → M ℕ
  unfolding new_headers send_or_die hang_up
  send_message connection pool = do
    h ← new_headers pool
    send_or_die fuel garbage connection pool (message_frame h) (hang_up connection pool)

  unfoldable pub talk : Connection apr → apr.Pool → M ℕ
  unfolding new_headers send_or_die read_response send_message
  talk connection pool = do
    h ← new_headers pool
    send_or_die fuel garbage connection pool (login_frame h)
        (read_response fuel garbage connection pool (send_message connection pool))

  unfoldable pub main : Option (Connection apr) → M ℕ
  unfolding with_connection talk
  main connection = with_connection connection talk
