-- ===== src/Engine.antt =====
-- src/stomp_engine.c: opening and closing the connection, and its timeout.

pub mod Connect
use libstomp.Prelude.{
  ℕ, true, false, not, ◌&&◌, Option, none, some, ◌++◌, Text, text, printed, ◌==◌, ℤ,
}
use libstomp.Exec.{done, ◌>>=◌, ◌>>◌, deref, pure}
use libstomp.Platform.{Apr}
use libstomp.Status.{Status, failure, stomp_status_set}
use libstomp.Machine.{M, on_net, on_mem}
use libstomp.Io.Base.{Connection}

-- sizeof (stomp_connection)
abbrev pub connection_size : ℕ
connection_size = 40

module _ ⦃apr : Apr⦄ where
  -- stomp_status_set(&error, STOMP_FAILURE, …), on the `error` of stomp_engine.c
  unfoldable pub engine_status_set : Text → M (Unit {0})
  unfolding stomp_status_set
  engine_status_set t s =
      done (tt, record s { engine_error = stomp_status_set s.engine_error failure (some t) })

  unfoldable pub stomp_engine_last_status : M Status
  stomp_engine_last_status s = done (s.engine_error, s)

  -- A step of stomp_engine_connect: an error ends it, with a message in `error`.
  abbrev pub or_return : {A : Type 0} → ℕ → Text → M (ℕ × A) → M (ℕ × A) → M (ℕ × A)
  or_return rc message failed next = elim (rc == 0) [
    | true ↦ next
    | false ↦ do engine_status_set message; failed
  ]

  -- msgbuf, after apr_strerror(rc, msgbuf, 80)
  abbrev pub msgbuf : ℕ → Text
  msgbuf rc = apr.strerror rc 80

  -- The result is the status with the new value of `*connection_ref`. Four of the formats have one
  -- `%s` for two arguments, and print the first of them, the host name.
  module _ (connection_ref : Option (Connection apr)) (hostname : Option Text) where
    abbrev failed_with : ℕ → M (ℕ × Option (Connection apr))
    failed_with rc = pure (rc, connection_ref)

    unfoldable pub describe_socket :
        apr.Socket → Option apr.SockAddr → M (ℕ × Option (Connection apr))
    unfolding engine_status_set
    describe_socket socket remote_sa = do
      sa ← deref remote_sa
      (rc, local_sa) ← on_net (apr.socket_local socket)
      or_return rc
          (text "unable to get the address associated with the socket: " ++ printed hostname)
          (failed_with rc)
          (do
            local ← deref local_sa
            (rc, local_ip) ← on_net (apr.sockaddr_ip_get local)
            or_return rc (text "unable to resolve socket address: " ++ printed hostname)
                (failed_with rc)
                (pure (
                  rc,
                  some (record {
                    socket = some socket;
                    local_sa = local_sa;
                    local_ip = local_ip;
                    remote_sa = remote_sa;
                    remote_ip = apr.sa_hostname sa;
                  }),
                )))

    unfoldable pub connect_socket :
        apr.Socket → Option apr.SockAddr → M (ℕ × Option (Connection apr))
    unfolding engine_status_set describe_socket
    connect_socket socket remote_sa = do
      rc ← on_net (apr.socket_connect socket remote_sa)
      elim (not (rc == 0) && not (apr.is_eagain rc)) [
        | true ↦ do engine_status_set (text "unable to connect: " ++ msgbuf rc); failed_with rc
        | false ↦ do
          rc ← on_net (apr.socket_nonblock socket)
          or_return rc (text "unable to set socket options: " ++ printed hostname) (failed_with rc)
              (do
                (rc, peer_sa) ← on_net (apr.socket_remote socket)
                or_return rc (text "unable to get socket information: " ++ printed hostname)
                    (failed_with rc) (describe_socket socket peer_sa))
      ]

    unfoldable pub stomp_engine_connect : ℕ → apr.Pool → M (ℕ × Option (Connection apr))
    unfolding engine_status_set connect_socket
    stomp_engine_connect port pool = do
      allocated ← on_mem (apr.pcalloc pool connection_size)
      elim allocated [
        | false ↦ do
          engine_status_set (text "Not enough memory to create a connection")
          failed_with apr.enomem
        | true ↦ do
          (rc, remote_sa) ← on_net (apr.sockaddr_info_get hostname port)
          or_return rc
              (text "unable to resolve hostname ("
                ++ (printed hostname ++ (text "): " ++ msgbuf rc)))
              (failed_with rc)
              (do
                sa ← deref remote_sa
                (rc, socket) ← on_net (apr.socket_create (apr.sin_family sa))
                or_return rc (text "unable to create socket: " ++ printed hostname) (failed_with rc)
                    (do socket ← deref socket; connect_socket socket remote_sa))
      ]

  unfoldable pub stomp_engine_set_timeout : Option (Connection apr) → ℤ → M ℕ
  stomp_engine_set_timeout connection timeout = do
    c ← deref connection
    socket ← deref c.socket
    on_net (apr.timeout_set socket timeout)

  -- `connection_ref` itself is not null. Where `*connection_ref` is null, nothing is closed.
  -- `result` stays APR_SUCCESS, so that the status of the shutdown is looked at nowhere.
  unfoldable pub stomp_engine_disconnect : Option (Connection apr) → M (ℕ × Option (Connection apr))
  unfolding engine_status_set
  stomp_engine_disconnect none = do
    engine_status_set (text "invalid connection object")
    pure (apr.egeneral, none)
  stomp_engine_disconnect (some connection) = do
    socket ← deref connection.socket
    _ ← on_net (apr.socket_shutdown socket)
    rc ← on_net (apr.socket_close socket)
    pure (rc, none)
