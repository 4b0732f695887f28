-- ===== src/Example/Engine.antt =====
-- example/engine/client.c and example/engine/server.c: what the two programs share. A program is a
-- computation of its exit status. atexit() has it call apr_terminate when it ends.
pub mod Client
pub mod Server
pub mod Steps
pub mod Talks
use libstomp.Prelude.{
  ℕ, ◌-◌, true, false, Option, none, some, Text, Buffer, text, strlen, ◌==◌, size_mod,
}
use libstomp.Exec.{◌>>=◌, ◌>>◌, deref, pure, crash}
use libstomp.Platform.{Apr}
use libstomp.Machine.{M, on_mem, update_mem}
use libstomp.Io.Base.{Connection, Frame}
use libstomp.Io.Frame.{stomp_write}
use libstomp.Io.Read.{Incoming, frame, no_frame, stomp_read}
use libstomp.Engine.{stomp_engine_connect, stomp_engine_disconnect}

-- The status that the parent sees of exit(-2).
abbrev pub died : ℕ
died = 254

module _ ⦃apr : Apr⦄ where
  -- exit(code), with terminate() at exit
  unfoldable pub exit : ℕ → M ℕ
  exit code = do update_mem apr.terminate; pure code

  -- die(-2, message, rc), whose message goes to stderr
  unfoldable pub die : M ℕ
  unfolding exit
  die = exit died

  -- check_status(rc, message), and what follows it
  unfoldable pub check_status : ℕ → M ℕ → M ℕ
  unfolding die
  check_status rc next = elim (rc == 0) [ true ↦ next | false ↦ die ]

  -- "%s" of frame->body
  unfoldable pub print_body : Option Buffer → M (Unit {0})
  print_body none = pure tt
  print_body (some body) = do _ ← deref (strlen body); pure tt

  -- "Disconnecting..."
  unfoldable pub hang_up : Connection apr → apr.Pool → M ℕ
  unfolding check_status exit stomp_engine_disconnect
  hang_up connection pool = do
    (rc, _) ← stomp_engine_disconnect (some connection)
    check_status rc (do update_mem (apr.pool_destroy pool); exit 0)

  -- A main function up to "Connecting......", and then `talk`. `connection` is not initialised.
  unfoldable pub with_connection : Option (Connection apr) → (Connection apr → apr.Pool → M ℕ) → M ℕ
  unfolding check_status stomp_engine_connect
  with_connection connection talk = do
    rc ← on_mem apr.initialize
    elim (rc == 0) [
      | false ↦ pure died
      | true ↦ do
        (rc, pool) ← on_mem (apr.pool_create none)
        check_status rc (do
          (rc, opened) ← stomp_engine_connect connection (some (text "localhost")) 61613 pool
          check_status rc (do c ← deref opened; talk c pool))
    ]

module _ ⦃apr : Apr⦄ (fuel : ℕ) (garbage : ℕ) (connection : Connection apr) (pool : apr.Pool) where
  -- "Sending ..."
  unfoldable pub send_or_die : Frame apr → M ℕ → M ℕ
  unfolding check_status
  send_or_die f next = do rc ← stomp_write fuel connection f pool; check_status rc next

  -- A stomp_read that fails leaves `frame` as it was, uninitialised.
  unfoldable pub show_response : Incoming apr → M ℕ → M ℕ
  unfolding check_status print_body
  show_response (no_frame rc) next = check_status rc crash
  show_response (frame f) next = do print_body f.body; next

  -- "Reading Response."
  unfoldable pub read_response : M ℕ → M ℕ
  unfolding show_response
  read_response next = do reply ← stomp_read fuel connection pool garbage; show_response reply next
