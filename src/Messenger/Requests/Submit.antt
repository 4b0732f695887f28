-- ===== src/Messenger/Requests/Submit.antt =====
-- A request hands its frame to the socket and reports whether it has gone.
use libstomp.Prelude.{
  ℕ, ◌<◌, ◌≡◌, ◌⊎◌, inl, inr, ◌∙◌, some, ◌++◌, Text, text, length, ne→==, ℤ, printed, false,
  if◌then◌else◌, ap,
}
use libstomp.Exec.{done, bind-done, deref}
use libstomp.Platform.{Apr, Wire}
use libstomp.Status.{StatusCode, success, failure}
use libstomp.Machine.{State, M}
use libstomp.Io.Base.{Connection, Frame}
use libstomp.Io.Delivery.{Delivered, Sends}
use libstomp.Io.Frame.{content_length, stomp_write}
use libstomp.Io.Frame.Writes.{BodyFits, frame_text, stomp_write-Sends}
use libstomp.Messenger.Base.{Messenger, messenger_status_set, fail_with, fail_with_engine}
use libstomp.Messenger.Requests.{not_written, submit_or, submit}

module _ ⦃apr : Apr⦄ where
  -- What the messenger has after a write that failed: the message is that of the engine.
  abbrev pub unsent : Messenger apr → State apr → Messenger apr
  unsent m st = messenger_status_set m failure (
      text "Unable to write the frame data to the underlying connection: "
      ++ printed st.engine_error.message)

  pub not_written_lem :
      (fuel garbage : ℕ) (m : Messenger apr) (st u : State apr)
      → u.engine_error ≡ st.engine_error
      → not_written fuel garbage m u ≡ done ((failure, unsent m st), u)
  unfolding fail_with_engine fail_with
  not_written_lem fuel garbage m st u e = rw e

module _ ⦃apr : Apr⦄ (wire : Wire apr) (s : apr.Socket) where
  open wire use {output}

  -- The whole of `bs` has gone and the request succeeds, or a prefix has, and it fails.
  abbrev pub Submitted :
      Messenger apr → Messenger apr → M (StatusCode × Messenger apr) → Text → State apr → Type 0
  Submitted m failed run bs st =
      (st' : State apr) × (((run st ≡ done ((success, m), st'))
          × (output s st'.net ≡ output s st.net ++ bs))
        ⊎ ((run st ≡ done ((failure, failed), st'))
            × ((p : Text) × (q : Text) × (p ++ q ≡ bs)
                × (output s st'.net ≡ output s st.net ++ p))))

  -- Steps before that leave the socket alone.
  pub Submitted-after :
      (m failed : Messenger apr) (run k : M (StatusCode × Messenger apr)) (bs : Text)
      (st u : State apr)
      → run st ≡ k u
      → output s u.net ≡ output s st.net
      → Submitted m failed k bs u
      → Submitted m failed run bs st
  Submitted-after m failed run k bs st u e kept (v, inl (r, d)) =
      (v, inl (e ∙ r, d ∙ ap (λ t. t ++ bs) kept))
  Submitted-after m failed run k bs st u e kept (v, inr (r, (p, q, h, d))) =
      (v, inr (e ∙ r, (p, q, h, d ∙ ap (λ t. t ++ p) kept)))

  module _ (fuel : ℕ) (garbage : ℕ) (m : Messenger apr) (c : Connection apr)
      (opened : m.connection ≡ some c) (open_socket : c.socket ≡ some s) where
    module _ (f : Frame apr) (pool : apr.Pool) (failing : M (StatusCode × Messenger apr))
        (lost : Messenger apr) (st : State apr)
        (fails : (u : State apr)
          → u.engine_error ≡ st.engine_error
          → failing u ≡ done ((failure, lost), u)) where
      submit_from :
          (bs : Text) (r : Sends wire s (stomp_write fuel c f pool) bs st)
          → Delivered wire s bs st r.status r.final
          → Submitted m lost (submit_or fuel garbage failing m f pool false) bs st
      unfolding submit_or
      submit_from bs r (inl (z, d)) = (
        r.final,
        inl (
          bind-done (deref m.connection) _ (ap (λ o. deref o st) opened)
              ∙ (bind-done (stomp_write fuel c f pool) _ r.runs ∙ rw (z, if◌then◌else◌)),
          d,
        ),
      )
      submit_from bs r (inr (z, d)) = (
        r.final,
        inr (
          bind-done (deref m.connection) _ (ap (λ o. deref o st) opened)
              ∙ (bind-done (stomp_write fuel c f pool) _ r.runs
                  ∙ rw (ne→== r.status 0 z) (fails r.final r.engine_kept)),
          d,
        ),
      )

      pub submit_or-Submitted :
          (n : ℤ)
          → content_length f ≡ some n
          → BodyFits f.body n
          → length (frame_text f n) < fuel
          → Submitted m lost (submit_or fuel garbage failing m f pool false) (frame_text f n) st
      submit_or-Submitted n announced fits enough =
          let r = stomp_write-Sends wire s fuel c open_socket f pool n st announced fits enough in
          submit_from (frame_text f n) r r.delivered

    pub submit-Submitted :
        (f : Frame apr) (pool : apr.Pool) (n : ℤ) (st : State apr)
        → content_length f ≡ some n
        → BodyFits f.body n
        → length (frame_text f n) < fuel
        → Submitted m (unsent m st) (submit fuel garbage m f pool false) (frame_text f n) st
    unfolding submit
    submit-Submitted f pool n st =
        submit_or-Submitted f pool (not_written fuel garbage m) (unsent m st) st
          (not_written_lem fuel garbage m st) n
