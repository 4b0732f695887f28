-- ===== src/Engine/Connect.antt =====
-- What stomp_engine_connect leaves behind, on every branch.
use libstomp.Prelude.{
  ℕ, ◌≡◌, ◌≢◌, ◌⊎◌, Option, none, some, Text, ◌==◌, ==_iff, not, ◌&&◌, Bool-cases, inl, inr, refl,
  arith,
}
use libstomp.Exec.{Returns}
use libstomp.Platform.{Apr, Codes, Objects}
use libstomp.Status.{stomp_status_set, failure}
use libstomp.Machine.{State, M}
use libstomp.Io.Base.{Connection}
use libstomp.Engine.{
  connection_size, engine_status_set, or_return, failed_with, describe_socket, connect_socket,
  stomp_engine_connect,
}

module _ ⦃apr : Apr⦄ (objects : Objects apr) (old : Option (Connection apr))
    (hostname : Option Text) where
  -- The status goes with the connection: an error leaves the old one and a message, and success
  -- gives a connection whose socket is open.
  abbrev pub Connected : State apr → (ℕ × Option (Connection apr)) × State apr → Type 0
  Connected st ((rc, new), st') =
      ((rc ≢ 0)
        × (new ≡ old)
        × (st'.engine_error.code ≡ failure)
        × (st'.engine_error.message ≢ none))
      ⊎ ((rc ≡ 0)
          × ((c : Connection apr) × (s : apr.Socket) × (new ≡ some c) × (c.socket ≡ some s))
          × (st'.engine_error ≡ st.engine_error))

  describe_socket-Connected :
      (socket : apr.Socket) (sa : apr.SockAddr) (st : State apr)
      → Returns (Connected st) (describe_socket old hostname socket (some sa) st)
  unfolding describe_socket engine_status_set stomp_status_set
  describe_socket-Connected socket sa st = ground (arith, objects.local_found socket st.net)

  -- One step: an error ends it with a message.
  or_return-Connected :
      (st u : State apr) (rc : ℕ) (message : Text) (next : M (ℕ × Option (Connection apr)))
      → u.engine_error ≡ st.engine_error
      → (rc ≡ 0 → Returns (Connected st) (next u))
      → Returns (Connected st) (or_return rc message (failed_with old hostname rc) next u)
  unfolding engine_status_set stomp_status_set
  or_return-Connected st u rc message next kept rest = elim (Bool-cases (rc == 0)) [
    | inl fine ↦ rw (fine, Returns) (rest ((==_iff rc 0).0 fine))
    | inr failed ↦ rw (failed, Returns) (inl (ground arith, refl, refl, λ e. cc))
  ]

  connect_socket-Connected :
      (socket : apr.Socket) (sa : Option apr.SockAddr) (st : State apr)
      → Returns (Connected st) (connect_socket old hostname socket sa st)
  unfolding connect_socket engine_status_set stomp_status_set
  connect_socket-Connected socket sa st =
      let u : State apr = record st { net = (apr.socket_connect socket sa st.net).1 } in
      let v : State apr = record u { net = (apr.socket_nonblock socket u.net).1 } in
      let w : State apr = record v { net = (apr.socket_remote socket v.net).1 } in
      elim (Bool-cases (
        not ((apr.socket_connect socket sa st.net).0 == 0)
        && not (apr.is_eagain (apr.socket_connect socket sa st.net).0))) [
          | inl refused ↦ rw (refused, Returns) (inl (ground arith, refl, refl, λ e. cc))
          | inr going ↦
              rw (going, Returns)
                (or_return-Connected st v (apr.socket_nonblock socket u.net).0 _ _ refl λ _.
                  or_return-Connected st w (apr.socket_remote socket v.net).0.0 _ _ refl λ z.
                    let (a, e) = objects.remote_found socket v.net z in
                    rw e (describe_socket-Connected socket a w))
        ]

  -- stomp_engine_connect ends, whatever its calls return, where a call that succeeds gives an
  -- object. Either it returns an error, leaves `*connection_ref` as it was and sets the status of the
  -- engine to STOMP_FAILURE with a message; or it returns APR_SUCCESS with a connection that has a
  -- socket, and leaves that status alone.
  pub stomp_engine_connect-Connected :
      Codes apr
      → (port : ℕ) (pool : apr.Pool) (st : State apr)
      → Returns (Connected st) (stomp_engine_connect old hostname port pool st)
  unfolding stomp_engine_connect engine_status_set stomp_status_set
  stomp_engine_connect-Connected codes port pool st =
      let u : State apr = record st { mem = (apr.pcalloc pool connection_size st.mem).1 } in
      let v : State apr = record u { net = (apr.sockaddr_info_get hostname port u.net).1 } in
      elim (Bool-cases (apr.pcalloc pool connection_size st.mem).0) [
        | inr failed ↦ rw (failed, Returns) (inl (codes.enomem_error, refl, refl, λ e. cc))
        | inl fine ↦
            rw (fine, Returns)
              (or_return-Connected st v (apr.sockaddr_info_get hostname port u.net).0.0 _ _ refl
                λ z.
                  let (a, e) = objects.address_found hostname port u.net z in
                  let w : State apr = record v {
                    net = (apr.socket_create (apr.sin_family a) v.net).1;
                  } in
                  rw (e, Returns)
                    (or_return-Connected st w (apr.socket_create (apr.sin_family a) v.net).0.0 _ _
                      refl
                      λ z'.
                        let (socket, e') = objects.socket_made (apr.sin_family a) v.net z' in
                        rw (e', Returns)
                          (connect_socket-Connected socket
                            (apr.sockaddr_info_get hostname port u.net).0.1 w)))
      ]
