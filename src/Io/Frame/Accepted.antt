-- ===== src/Io/Frame/Accepted.antt =====
-- stomp_write where no send fails: the frame goes out whole.
use libstomp.Prelude.{
  ℕ, zero, suc, ◌<◌, ◌≡◌, refl, ◌∙◌, ap, inl, inr, leb, ltb, length, drop, take, Option, none, some,
  List, [], ◌∷◌, ◌++◌, Text, Buffer, text, ◌==◌, ℤ, to_size,
}
use libstomp.Exec.{
  done, ◌⊳◌, ◌>>◌, pure, deref, Ensures, Ensures-bind, Ensures-bind_with, Ensures-if, Ensures-elim,
  Ensures-done,
}
use libstomp.Platform.{Apr, Wire, Accepting}
use libstomp.Machine.{State, M, on_mem, update_mem}
use libstomp.Io.Base.{Connection, Frame, send, set_error, io_status_set}
use libstomp.Io.Write.{write_rest, stomp_write_buffer}
use libstomp.Io.Delivery.{Delivered}
use libstomp.Io.Frame.{
  newline, frame_end, content_length, write_text, write_headers, write_content_length,
  write_all_headers, write_body, write_parts, stomp_write,
}
use libstomp.Io.Frame.Writes.{BodyFits, frame_text, stomp_write-Sends}

module _ ⦃apr : Apr⦄ where
  -- Where it ends with a status, that is APR_SUCCESS.
  abbrev Succeeds : M ℕ → Type 0
  Succeeds m = Ensures (λ rc. rc ≡ 0) m

  Succeeds-then : (m k : M ℕ) → Succeeds m → Succeeds k → Succeeds (m ⊳ k)
  Succeeds-then m k h h' =
      Ensures-bind_with m _ h λ rc e. Ensures-if (rc == 0) k (pure rc) h' (record { at = λ st. e })

  Succeeds-pure : Succeeds (pure 0)
  Succeeds-pure = record { at = λ st. refl }

  Succeeds-release : (f : apr.Mem → apr.Mem) → Succeeds (update_mem f >> pure 0)
  Succeeds-release f = record { at = λ st. refl }

module _ ⦃apr : Apr⦄ (accepting : Accepting apr) (fuel : ℕ) (c : Connection apr) where
  send-Succeeds : (bs : Buffer) → Ensures (λ r. r.0 ≡ 0) (send c bs)
  send-Succeeds bs =
      Ensures-bind (deref c.socket) _ λ s. record { at = λ st. accepting.send_accepted s bs st.net }

  write_rest-Succeeds : (rounds : ℕ) (bs : Buffer) → Succeeds (write_rest rounds c bs)
  unfolding write_rest io_status_set
  write_rest-Succeeds zero bs = record { at = λ st. tt }
  write_rest-Succeeds (suc rounds) [] = Succeeds-pure
  write_rest-Succeeds (suc rounds) (b ∷ bs) =
      Ensures-bind_with (send c (b ∷ bs)) _ (send-Succeeds (b ∷ bs)) λ (rc, sent) e.
        Ensures-elim (rc == 0) _ _ (write_rest-Succeeds rounds (drop sent (b ∷ bs)))
          (record { at = λ st. e })

  stomp_write_buffer-Succeeds :
      (bytes : Buffer) (size : ℕ) → Succeeds (stomp_write_buffer fuel c bytes size)
  unfolding stomp_write_buffer
  stomp_write_buffer-Succeeds bytes size =
      Ensures-if (ltb (length bytes) size) _ _ (record { at = λ st. tt })
        (write_rest-Succeeds fuel (take size bytes))

  text-Succeeds : (t : Text) → Succeeds (write_text fuel c t)
  text-Succeeds t = stomp_write_buffer-Succeeds t (length t)

  seq : (m k : M ℕ) → Succeeds m → Succeeds k → Succeeds (m ⊳ k)
  seq = Succeeds-then

  write_headers-Succeeds : (entries : List (Text × Text)) → Succeeds (write_headers fuel c entries)
  unfolding write_headers
  write_headers-Succeeds [] = Succeeds-pure
  write_headers-Succeeds ((key, value) ∷ entries) = seq _ _ (text-Succeeds key) (
      seq _ _ (text-Succeeds (58 ∷ [])) (
        seq _ _ (text-Succeeds value)
          (seq _ _ (text-Succeeds newline) (write_headers-Succeeds entries))))

  module _ (k : ℕ) (pool : apr.Pool) (announced : Option ℤ) where
    write_content_length-Succeeds : Succeeds (write_content_length fuel c k pool announced)
    unfolding write_content_length
    write_content_length-Succeeds =
        Ensures-if (leb 0 k) _ _
          (Ensures-bind (on_mem (apr.pool_create (some pool))) _ λ a.
            seq _ _ (text-Succeeds (text "content-length:")) (
              Ensures-bind (deref announced) _ λ n.
                seq _ _ (text-Succeeds (apr.itoa n))
                  (seq _ _ (text-Succeeds newline) (Succeeds-release (apr.pool_destroy a.1)))))
          Succeeds-pure

    write_all_headers-Succeeds :
        (h : Option apr.Hash) → Succeeds (write_all_headers fuel c h k pool announced)
    unfolding write_all_headers
    write_all_headers-Succeeds none = Succeeds-pure
    write_all_headers-Succeeds (some h) =
        seq _ _ (write_headers-Succeeds (apr.hash_entries h)) write_content_length-Succeeds

  write_body-Succeeds :
      (b : Option Buffer) (announced : Option ℤ) → Succeeds (write_body fuel c b announced)
  unfolding write_body
  write_body-Succeeds none announced = Succeeds-pure
  write_body-Succeeds (some b) announced =
      Ensures-bind (deref announced) _ λ n. stomp_write_buffer-Succeeds b (to_size n)

  write_parts-Succeeds :
      (f : Frame apr) (pool : apr.Pool) (announced : Option ℤ)
      → Succeeds (write_parts fuel c f pool announced)
  unfolding write_parts
  write_parts-Succeeds f pool announced = seq _ _ (text-Succeeds f.command) (
      seq _ _ (text-Succeeds newline) (
        seq _ _ (write_all_headers-Succeeds f.body_length pool announced f.headers) (
          seq _ _ (text-Succeeds newline)
            (seq _ _ (write_body-Succeeds f.body announced) (text-Succeeds frame_end)))))

  stomp_write-Succeeds : (f : Frame apr) (pool : apr.Pool) → Succeeds (stomp_write fuel c f pool)
  unfolding stomp_write
  stomp_write-Succeeds f pool =
      Ensures-bind_with (write_parts fuel c f pool (content_length f)) _
        (write_parts-Succeeds f pool (content_length f))
        λ rc e. Ensures-if (rc == 0) _ _ Succeeds-pure (
          Ensures-bind (set_error rc (text "unable to read data: %s")) (λ u. pure rc)
            λ u. record { at = λ st. e })

module _ ⦃apr : Apr⦄ (wire : Wire apr) (s : apr.Socket) where
  whole :
      (bs : Text) (st : State apr) (rc : ℕ) (u : State apr)
      → rc ≡ 0
      → Delivered wire s bs st rc u
      → wire.output s u.net ≡ wire.output s st.net ++ bs
  whole bs st rc u e (inl (z, d)) = d
  whole bs st rc u e (inr (ne, p)) = elim (ne e) [ ]

  -- Where no send fails and the loops have fuel for the text: stomp_write ends with APR_SUCCESS, the
  -- whole text of the frame is on the wire, and what has arrived is still there.
  pub stomp_write-accepted :
      (accepting : Accepting apr) (fuel : ℕ) (c : Connection apr)
      → c.socket ≡ some s
      → (f : Frame apr) (pool : apr.Pool) (n : ℤ) (st : State apr) → content_length f ≡ some n
      → BodyFits f.body n
      → length (frame_text f n) < fuel
      → (u : State apr) × (stomp_write fuel c f pool st ≡ done (0, u))
        × (wire.output s u.net ≡ wire.output s st.net ++ frame_text f n)
        × (wire.input s u.net ≡ wire.input s st.net)
  stomp_write-accepted accepting fuel c open_socket f pool n st announced fits enough =
      let r = stomp_write-Sends wire s fuel c open_socket f pool n st announced fits enough in
      let e =
        Ensures-done (λ rc. rc ≡ 0) (stomp_write fuel c f pool)
          (stomp_write-Succeeds accepting fuel c f pool) r.runs in
      (
        r.final,
        r.runs ∙ ap (λ rc. done (rc, r.final)) e,
        whole (frame_text f n) st r.status r.final e r.delivered,
        r.input_kept,
      )
