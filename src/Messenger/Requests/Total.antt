-- ===== src/Messenger/Requests/Total.antt =====
-- Requests end on every input, well-formed or not, but for one reply that faults.
use libstomp.Prelude.{
  ℕ, ◌<◌, ◌≡◌, inl, inr, sym, ◌∙◌, ap, Bool, true, false, Bool-cases, Option-cases, none, some,
  Buffer, text, length, strlen, has_prefix, if◌then◌else◌, ◌==◌, int_limit, ℤ, arith,
}
use mathlib.Core.Path.{subst}
use libstomp.Exec.{Outcome, done, fault, out_of_fuel, bind-done, deref, Returns-value}
use libstomp.Platform.{Apr, Wire, HasMemory, Finished, Codes}
use libstomp.Status.{StatusCode, success}
use libstomp.Machine.{State, M}
use libstomp.Io.Base.{Connection, Frame}
use libstomp.Io.Frame.{content_length, stomp_write}
use libstomp.Io.Frame.Writes.{BodyFits, frame_text, stomp_write-Sends}
use libstomp.Io.Read.{Incoming, frame, no_frame, stomp_read, stomp_io_can_read}
use libstomp.Io.Read.Ready.{WaitEnds, stomp_io_can_read-Ends}
use libstomp.Io.Read.Total.{FrameEnds, stomp_read-FrameEnds}
use libstomp.Messenger.Base.{Messenger, fail_with, fail_with_engine}
use libstomp.Messenger.Requests.{
  bad_receipt, check_receipt, receipt_from, stomp_process_receipt, submit_or,
}

module _ ⦃apr : Apr⦄ (wire : Wire apr) (s : apr.Socket) (fuel : ℕ) (garbage : ℕ) (m : Messenger apr)
    (c : Connection apr) (st : State apr) (asks : Bool) where
  -- A receipt was asked for. From what had arrived, a frame has been read that is not a receipt,
  -- and whose body has no terminator.
  pub record Unterminated : Type 0 where
    pub asked : asks ≡ true
    pub before : State apr
    pub after : State apr
    pub reply : Frame apr
    pub bytes : Buffer
    pub arrived : wire.input s before.net ≡ wire.input s st.net
    pub runs : stomp_read fuel c m.pool garbage before ≡ done (frame reply, after)
    pub its_body : reply.body ≡ some bytes
    pub no_receipt : has_prefix reply.command (text "RECEIPT") ≡ false
    pub unmeasured : strlen bytes ≡ none

  -- It ends with a value, or it faults on such a reply. It never uses up its fuel.
  abbrev pub Ends : {A : Type 0} → Outcome A → Type 0
  Ends (done a) = Unit
  Ends fault = Unterminated
  Ends out_of_fuel = ⊥

  pub Ends-eq : {A : Type 0} {o o' : Outcome A} → o ≡ o' → Ends o' → Ends o
  Ends-eq e = subst Ends (sym e)

module _ ⦃apr : Apr⦄ (wire : Wire apr) (memory : HasMemory apr) (finished : Finished apr wire)
    (codes : Codes apr) (s : apr.Socket) (fuel : ℕ) (garbage : ℕ) (m : Messenger apr)
    (c : Connection apr) (opened : m.connection ≡ some c) (open_socket : c.socket ≡ some s)
    (st : State apr) (enough : length (wire.input s st.net) < fuel)
    (small : length (wire.input s st.net) < int_limit) where
  abbrev Halts : Bool → Outcome ((StatusCode × Messenger apr) × State apr) → Type 0
  Halts asks = Ends wire s fuel garbage m c st asks

  module _ (u v : State apr) (f : Frame apr) (arrived : wire.input s u.net ≡ wire.input s st.net)
      (runs : stomp_read fuel c m.pool garbage u ≡ done (frame f, v)) where
    bad_receipt-Ends :
        (b : Buffer)
        → f.body ≡ some b
        → has_prefix f.command (text "RECEIPT") ≡ false
        → Halts true (bad_receipt fuel garbage m f.command (some b) v)
    unfolding bad_receipt fail_with
    bad_receipt-Ends b e no_receipt = elim (Option-cases (strlen b)) [
      | inl z ↦
          rw (z, Ends)
            (record {
              asked = λ i. true;
              before = u;
              after = v;
              reply = f;
              bytes = b;
              arrived = arrived;
              runs = runs;
              its_body = e;
              no_receipt = no_receipt;
              unmeasured = z;
            })
      | inr (n, z) ↦ rw (z, Ends) tt
    ]

    check_frame-Ends :
        (b : Buffer) → f.body ≡ some b → Halts true (check_receipt fuel garbage m (frame f) v)
    unfolding check_receipt
    check_frame-Ends b e = elim (Bool-cases (has_prefix f.command (text "RECEIPT"))) [
      | inl e' ↦ rw (e', if◌then◌else◌, Ends) tt
      | inr e' ↦
          Ends-eq wire s fuel garbage m c st true
            {o' = bad_receipt fuel garbage m f.command (some b) v}
            (rw (e', if◌then◌else◌) (ap (λ o. bad_receipt fuel garbage m f.command o v) e))
            (bad_receipt-Ends b e e')
    ]

  check_receipt-Ends :
      (u v : State apr) (r : Incoming apr)
      → wire.input s u.net ≡ wire.input s st.net
      → stomp_read fuel c m.pool garbage u ≡ done (r, v)
      → FrameEnds wire s u (r, v)
      → Halts true (check_receipt fuel garbage m r v)
  unfolding check_receipt fail_with_engine fail_with
  check_receipt-Ends u v (no_frame rc) arrived runs r = tt
  check_receipt-Ends u v (frame f) arrived runs (h, (b, e, fits), le, q) =
      check_frame-Ends u v f arrived runs b e

  receipt_from-Ends :
      (can_read : Bool) (u : State apr)
      → wire.input s u.net ≡ wire.input s st.net
      → Halts true (receipt_from fuel garbage m c can_read u)
  unfolding receipt_from fail_with
  receipt_from-Ends false u arrived = tt
  receipt_from-Ends true u arrived =
      let ((r, v), runs, ends) =
        Returns-value (FrameEnds wire s u) (stomp_read fuel c m.pool garbage u) (
          stomp_read-FrameEnds wire memory finished codes s c open_socket fuel m.pool garbage u
            (omega (arith, ap length arrived)) (omega (arith, ap length arrived))) in
      Ends-eq wire s fuel garbage m c st true {o' = check_receipt fuel garbage m r v}
        (bind-done (stomp_read fuel c m.pool garbage) (check_receipt fuel garbage m) runs)
        (check_receipt-Ends u v r arrived runs ends)

  stomp_process_receipt-Ends :
      (u : State apr)
      → wire.input s u.net ≡ wire.input s st.net
      → Halts true (stomp_process_receipt fuel garbage m u)
  unfolding stomp_process_receipt
  stomp_process_receipt-Ends u arrived =
      let ((b, v), runs, (kept, q)) =
        Returns-value (WaitEnds wire s u) (stomp_io_can_read c u)
          (stomp_io_can_read-Ends wire s c open_socket u) in
      Ends-eq wire s fuel garbage m c st true {o' = receipt_from fuel garbage m c b v}
        (bind-done (deref m.connection) _ (ap (λ o. deref o u) opened)
          ∙ bind-done (stomp_io_can_read c) (receipt_from fuel garbage m c) runs)
        (receipt_from-Ends b v (kept ∙ arrived))

  -- The end of a request on a state that has the same input.
  pub submit_or-Ends :
      (failing : M (StatusCode × Messenger apr)) (f : Frame apr) (pool : apr.Pool) (asks : Bool)
      (n : ℤ) (u : State apr)
      → ((v : State apr) → Halts asks (failing v))
      → content_length f ≡ some n
      → BodyFits f.body n
      → length (frame_text f n) < fuel
      → wire.input s u.net ≡ wire.input s st.net
      → Halts asks (submit_or fuel garbage failing m f pool asks u)
  unfolding submit_or
  submit_or-Ends failing f pool asks n u fails announced fits room arrived =
      let r = stomp_write-Sends wire s fuel c open_socket f pool n u announced fits room in
      let begun =
        bind-done (deref m.connection) _ (ap (λ o. deref o u) opened)
        ∙ bind-done (stomp_write fuel c f pool) _ r.runs in
      elim (Bool-cases (r.status == 0)) [
        | inr z ↦
            Ends-eq wire s fuel garbage m c st asks {o' = failing r.final} (begun ∙ rw z)
              (fails r.final)
        | inl z ↦ elim (Bool-cases asks) [
          | inl e ↦
              Ends-eq wire s fuel garbage m c st asks
                {o' = stomp_process_receipt fuel garbage m r.final}
                (begun ∙ rw (z, e, if◌then◌else◌))
                (subst (λ b. Halts b (stomp_process_receipt fuel garbage m r.final)) (sym e)
                  (stomp_process_receipt-Ends r.final (r.input_kept ∙ arrived)))
          | inr e ↦
              Ends-eq wire s fuel garbage m c st asks {o' = done ((success, m), r.final)}
                (begun ∙ rw (z, e, if◌then◌else◌)) tt
        ]
      ]
