-- ===== src/Example/Engine/Talks.antt =====
-- What the two programs of example/engine say to a broker once they are connected.
use libstomp.Prelude.{
  ℕ, ◌<◌, ◌≡◌, refl, some, [], ◌++◌, append-nil, Text, Buffer, text, length, strlen, ℤ, pos, negsuc,
  arith, to_int, to_size, is_positive,
}
use mathlib.Core.Path.{subst}
use libstomp.Platform.{Apr, Wire, HasMemory, Unsplit, Closing}
use libstomp.Machine.{M}
use libstomp.Io.Base.{Connection, Frame}
use libstomp.Io.Frame.{content_length}
use libstomp.Io.Frame.Writes.{BodyFits, frame_text}
use libstomp.Io.Read.Arrived.{Arrives}
use libstomp.Exec.{◌>>=◌}
use libstomp.Messenger.Requests.{request, new_headers}
use libstomp.Messenger.Requests.Frames.{request-content_length, request_text}
use libstomp.Example.Engine.{send_or_die, read_response, hang_up}
use libstomp.Example.Engine.Steps.{
  Converses, hang_up-Converses, send_or_die-Converses, read_response-Converses,
  new_headers-Converses,
}
use libstomp.Example.Engine.Client.{login_frame, message_frame, send_message}
use libstomp.Example.Engine.Client as Client
use libstomp.Example.Engine.Server.{subscribe_frame, goodbye, subscribe}
use libstomp.Example.Engine.Server as Server

module _ ⦃apr : Apr⦄ where
  -- All that the client says: a login and a message, of 20 bytes with its terminator.
  abbrev pub client_text : apr.Hash → Text
  client_text h = frame_text (login_frame h) (negsuc 0) ++ frame_text (message_frame h) (pos 20)

  -- All that the server says: a greeting, a subscription and a goodbye.
  abbrev pub server_text : apr.Hash → Text
  server_text h =
      request_text (text "CONNECT") h
      ++ (frame_text (subscribe_frame h) (negsuc 0) ++ frame_text goodbye (negsuc 0))

  message_frame-content_length : (h : apr.Hash) → content_length (message_frame h) ≡ some (pos 20)
  unfolding content_length to_int is_positive strlen text
  message_frame-content_length h = refl

  message_frame-BodyFits : (h : apr.Hash) → BodyFits (message_frame h).body (pos 20)
  unfolding text to_size
  message_frame-BodyFits h = omega arith

  goodbye-content_length : content_length goodbye ≡ some (negsuc 0)
  unfolding content_length to_int is_positive
  goodbye-content_length = refl

module _ ⦃apr : Apr⦄ (wire : Wire apr) (memory : HasMemory apr) (unsplit : Unsplit apr wire)
    (closing : Closing apr wire) (s : apr.Socket) (c : Connection apr)
    (open_socket : c.socket ≡ some s) (fuel : ℕ) (garbage : ℕ) (pool : apr.Pool) where
  -- The last frame of a program.
  last_frame-Converses :
      (f : Frame apr) (k : ℤ) (input : Text)
      → content_length f ≡ some k
      → BodyFits f.body k
      → length (frame_text f k) < fuel
      → Converses wire s (send_or_die fuel garbage c pool f (hang_up c pool)) (frame_text f k) input
  last_frame-Converses f k input announced fits enough =
      subst (λ t. Converses wire s (send_or_die fuel garbage c pool f (hang_up c pool)) t input)
        (append-nil _)
        (send_or_die-Converses wire s c open_socket fuel garbage pool (hang_up c pool) [] f k input
          announced fits enough (hang_up-Converses wire s c open_socket closing pool input))

  -- A greeting on a new table, the reply to it, and what follows.
  greeting-Converses :
      (first : apr.Hash → Frame apr) (next : M ℕ) (bs : Text) {command rest input : Text}
      {body : Buffer} {n : ℕ}
      → ((h : apr.Hash) → content_length (first h) ≡ some (negsuc 0))
      → BodyFits (first memory.empty).body (negsuc 0)
      → Arrives memory fuel command body rest input
      → strlen body ≡ some n
      → length (frame_text (first memory.empty) (negsuc 0)) < fuel
      → Converses wire s next bs rest
      → Converses wire s
          (new_headers pool >>= λ h.
            send_or_die fuel garbage c pool (first h) (read_response fuel garbage c pool next))
          (frame_text (first memory.empty) (negsuc 0) ++ bs)
          input
  greeting-Converses first next bs announced fits arrives ends enough rest =
      new_headers-Converses wire memory s pool _ _ _ (
        send_or_die-Converses wire s c open_socket fuel garbage pool
          (read_response fuel garbage c pool next) bs (first memory.empty) (negsuc 0) _
          (announced memory.empty) fits enough
          (read_response-Converses wire s c open_socket fuel garbage pool next bs memory unsplit
            arrives ends rest))

  -- A frame has arrived whose lines the reader takes, and whose body has a terminator; there is
  -- memory, fuel for the frames, a receive of one byte or more brings all that it asks for, and to
  -- close a socket sends nothing. Then the client program ends, once it is connected. With the exit
  -- status 0 it has sent its CONNECT frame and its SEND frame, whole and in this order; with any
  -- other status it has sent a prefix of these two.
  pub client-Converses :
      {command rest input : Text} {body : Buffer} {n : ℕ}
      → Arrives memory fuel command body rest input
      → strlen body ≡ some n
      → length (frame_text (login_frame memory.empty) (negsuc 0)) < fuel
      → length (frame_text (message_frame memory.empty) (pos 20)) < fuel
      → Converses wire s (Client.talk fuel garbage c pool) (client_text memory.empty) input
  unfolding Client.talk send_message
  client-Converses {rest} arrives ends enough enough' =
      greeting-Converses login_frame (send_message fuel garbage c pool) _
        (λ h. request-content_length _ _) tt arrives ends enough
        (new_headers-Converses wire memory s pool
          (λ h. send_or_die fuel garbage c pool (message_frame h) (hang_up c pool)) _ _
          (last_frame-Converses (message_frame memory.empty) (pos 20) rest
            (message_frame-content_length memory.empty) (message_frame-BodyFits memory.empty)
            enough'))

  -- Two frames have arrived, one after the other, whose lines the reader takes, and whose bodies
  -- have terminators; there is memory, fuel for the frames, a receive of one byte or more brings
  -- all that it asks for, and to close a socket sends nothing. Then the server program ends, once
  -- it is connected. With the exit status 0 it has sent its CONNECT, SUB and DISCONNECT frames,
  -- whole and in this order; with any other status it has sent a prefix of these three.
  pub server-Converses :
      {command command' rest input' input : Text} {body body' : Buffer} {n n' : ℕ}
      → Arrives memory fuel command body input' input
      → strlen body ≡ some n
      → Arrives memory fuel command' body' rest input'
      → strlen body' ≡ some n'
      → length (request_text (text "CONNECT") memory.empty) < fuel
      → length (frame_text (subscribe_frame memory.empty) (negsuc 0)) < fuel
      → length (frame_text goodbye (negsuc 0)) < fuel
      → Converses wire s (Server.talk fuel garbage c pool) (server_text memory.empty) input
  unfolding Server.talk subscribe
  server-Converses {rest} arrives ends arrives' ends' enough enough' enough'' =
      greeting-Converses (request (text "CONNECT")) (subscribe fuel garbage c pool) _
        (λ h. request-content_length _ _) tt arrives ends enough
        (greeting-Converses subscribe_frame
          (send_or_die fuel garbage c pool goodbye (hang_up c pool)) _
          (λ h. request-content_length _ _) tt arrives' ends' enough'
          (last_frame-Converses goodbye (negsuc 0) rest goodbye-content_length tt enough''))
