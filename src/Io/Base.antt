-- ===== src/Io/Base.antt =====
-- stomp_connection.h, stomp_frame.h, and the parts of stomp_io.c that the reader and the writer
-- share: the static `error`, and the calls on the connection's socket.
use libstomp.Prelude.{ℕ, ◌≡◌, Option, some, ◌++◌, Text, Buffer, text}
use libstomp.Exec.{done, ◌>>=◌, deref}
use libstomp.Platform.{Apr}
use libstomp.Status.{Status, failure, stomp_status_set}
use libstomp.Machine.{State, M, on_net}

-- A null pointer is `none`.
pub record Connection (apr : Apr) : Type 0 where
  pub socket : Option apr.Socket
  pub local_sa : Option apr.SockAddr
  pub local_ip : Option Text
  pub remote_sa : Option apr.SockAddr
  pub remote_ip : Option Text

pub record Frame (apr : Apr) : Type 0 where
  pub command : Text
  pub headers : Option apr.Hash
  pub body : Option Buffer
  pub body_length : ℕ

module _ ⦃apr : Apr⦄ where
  -- stomp_status_set(&error, STOMP_FAILURE, …), with the text that the format gives
  unfoldable pub io_status_set : Text → M (Unit {0})
  unfolding stomp_status_set
  io_status_set t s =
      done (tt, record s { io_error = stomp_status_set s.io_error failure (some t) })

  abbrev pub error_text : ℕ → Text → Text
  error_text rc msg_prefix = msg_prefix ++ (text ": " ++ apr.strerror rc 80)

  unfoldable pub set_error : ℕ → Text → M (Unit {0})
  unfolding io_status_set
  set_error rc msg_prefix = io_status_set (error_text rc msg_prefix)

  unfoldable pub stomp_io_last_status : M Status
  stomp_io_last_status s = done (s.io_error, s)

  abbrev pub send : Connection apr → Buffer → M (ℕ × ℕ)
  send connection bs = deref connection.socket >>= λ s. on_net (apr.socket_send s bs)

  abbrev pub recv : Connection apr → ℕ → M (ℕ × Buffer)
  recv connection n = deref connection.socket >>= λ s. on_net (apr.socket_recv s n)

  module _ (connection : Connection apr) {s : apr.Socket} (e : connection.socket ≡ some s)
      (st : State apr) where
    pub send_lem :
        (bs : Buffer)
        → send connection bs st
          ≡ done
              ((apr.socket_send s bs st.net).0, record st { net = (apr.socket_send s bs st.net).1 })
    send_lem bs = rw e

    pub recv_lem :
        (n : ℕ)
        → recv connection n st
          ≡ done
              ((apr.socket_recv s n st.net).0, record st { net = (apr.socket_recv s n st.net).1 })
    recv_lem n = rw e
