-- ===== src/Messenger/Exchange/Receive.antt =====
-- stomp_receive takes the next frame from the wire into a message and into the properties of the
-- exchange.
use libstomp.Prelude.{
  ◌≢◌, [], append-nonempty, ℕ, ◌+◌, ◌<◌, ◌≡◌, refl, sym, ◌∙◌, ap, some, List, ◌∷◌, ◌++◌, Text,
  Buffer, text, length, c_str, take-length, to_size, has_prefix, if◌then◌else◌, size_mod, arith,
}
use mathlib.Core.Path.{subst}
use libstomp.Exec.{done, bind-done, deref}
use libstomp.Platform.{Apr, Wire, HasMemory, Unsplit}
use libstomp.Status.{success, failure}
use libstomp.Machine.{State}
use libstomp.Io.Base.{Connection, Frame}
use libstomp.Io.Input.{Reads, Reads-trans, Reads-mem}
use libstomp.Io.Frame.{frame_end}
use libstomp.Io.Frame.Writes.{header_text}
use libstomp.Io.Read.{frame, stomp_read, stomp_io_can_read}
use libstomp.Io.Read.Ready.{stomp_io_can_read_ready, waited-Reads}
use libstomp.Io.Read.Table.{IsHead, set_all}
use libstomp.Io.Read.Frames.{stomp_read_announced}
use libstomp.Properties.{ExchangeProperties}
use libstomp.Message.{Message, stomp_message_format}
use libstomp.Message.Text.{Terminated, stomp_message_format_lem}
use libstomp.Messenger.Base.{Messenger}
use libstomp.Messenger.Exchange.{stomp_receive, receive_from, accept, overlay_properties}

-- The messenger whose exchange has the headers of a frame over its properties.
abbrev pub with_headers : ⦃apr : Apr⦄ → Messenger apr → apr.Hash → apr.Hash → Messenger apr
with_headers ⦃apr⦄ m h table = record m {
  exchange_properties = some (record { hash = some (apr.hash_overlay h table) });
}

module _ ⦃apr : Apr⦄ (m : Messenger apr) (properties : ExchangeProperties apr) (table : apr.Hash)
    (exchange : m.exchange_properties ≡ some properties) (made : properties.hash ≡ some table) where
  pub overlay_properties_lem :
      (h : apr.Hash) (st : State apr)
      → overlay_properties m (some h) st ≡ done (with_headers m h table, st)
  unfolding overlay_properties
  overlay_properties_lem h st =
      bind-done (deref m.exchange_properties) _ (ap (λ o. deref o st) exchange)
      ∙ bind-done (deref properties.hash) _ (ap (λ o. deref o st) made)

  pub accept_lem :
      (f : Frame apr) (bs : Text) (h : apr.Hash) (message message' : Message apr) (u v : State apr)
      → f.body ≡ some bs
      → f.headers ≡ some h
      → stomp_message_format message bs f.body_length u ≡ done (message', v)
      → accept m message (frame f) u
        ≡ done (
          (
            if has_prefix f.command (text "MESSAGE") then success else failure,
            with_headers m h table,
            message',
          ),
          v,
        )
  unfolding accept
  accept_lem f bs h message message' u v e e' run =
      bind-done (deref f.body) _ (ap (λ o. deref o u) e)
      ∙ bind-done (stomp_message_format message bs f.body_length) _ run
      ∙ bind-done (overlay_properties m f.headers) _
          (ap (λ o. overlay_properties m o v) e' ∙ overlay_properties_lem h v)

module _ ⦃apr : Apr⦄ (wire : Wire apr) (memory : HasMemory apr) (unsplit : Unsplit apr wire)
    (s : apr.Socket) (fuel : ℕ) (garbage : ℕ) (m : Messenger apr) (c : Connection apr)
    (opened : m.connection ≡ some c) (open_socket : c.socket ≡ some s)
    (properties : ExchangeProperties apr) (table : apr.Hash)
    (exchange : m.exchange_properties ≡ some properties) (made : properties.hash ≡ some table) where
  -- A frame that announces the length of its body, which is not empty, has arrived, whose lines the
  -- reader takes, and whose length can be raised; there is memory, fuel for its lines, and a
  -- receive of one byte or more brings all that it asks for. Then stomp_receive ends. It returns
  -- STOMP_SUCCESS for a command that starts with MESSAGE and STOMP_FAILURE for any other, in both
  -- cases with the status of the messenger as it was. The message holds the body up to its first
  -- terminator, in an object one byte longer than the body. The headers of the frame, its
  -- content-length too, are laid over the properties of the exchange. The whole frame is read,
  -- nothing is sent, and neither the io nor the engine has an error.
  pub stomp_receive_announced :
      (message : Message apr) (command bs rest announced : Text) (entries : List (Text × Text))
      (st : State apr)
      → IsHead fuel command entries
      → apr.hash_get (set_all memory.empty entries) (text "content-length") ≡ some announced
      → to_size (apr.atoi64 announced) ≡ length bs
      → bs ≢ []
      → length bs + 1 < size_mod
      → wire.input s st.net
        ≡ command ++ 10 ∷ (header_text entries ++ 10 ∷ (bs ++ (frame_end ++ rest)))
      → (u : State apr) × (b : Buffer) × (stomp_receive fuel garbage m message st
          ≡ done (
            (
              if has_prefix command (text "MESSAGE") then success else failure,
              with_headers m (set_all memory.empty entries) table,
              record message { size = length (c_str bs) + 1; body = some b },
            ),
            u,
          ))
        × Terminated (c_str bs) (length bs + 1) b
        × Reads wire s st rest u
  unfolding stomp_receive receive_from
  stomp_receive_announced message command bs rest announced entries st a present e ne small
        arrived =
      let w : State apr = record st { net = (apr.wait_for_io s st.net).1 } in
      let before = waited-Reads wire s c open_socket st _ arrived in
      let r =
        stomp_read_announced wire memory s c open_socket fuel message.pool unsplit garbage command
          bs rest announced entries w a present e ne before.input_left in
      let v : State apr = record r.0 { mem = (apr.malloc (length bs + 1) r.0.mem).1 } in
      let f =
        subst
          (λ t.
            (x : Buffer) × (stomp_message_format message bs (length bs) r.0
              ≡ done (record message { size = length (c_str t) + 1; body = some x }, v))
            × Terminated (c_str t) (length bs + 1) x)
          (take-length bs)
          (stomp_message_format_lem memory message bs (length bs) r.0 (omega arith) small) in
      (
        v,
        f.0,
        bind-done (deref m.connection) _ (ap (λ o. deref o st) opened)
            ∙ bind-done (stomp_io_can_read c) _ (
                stomp_io_can_read_ready wire s c open_socket st
                  (λ empty. append-nonempty command 10 _ (sym arrived ∙ empty)))
            ∙ bind-done (stomp_read fuel c message.pool garbage) _ r.1
            ∙ accept_lem m properties table exchange made
                (record {
                  command = command;
                  headers = some (set_all memory.empty entries);
                  body = some bs;
                  body_length = length bs;
                })
                bs (set_all memory.empty entries) message _ r.0 v refl refl f.1,
        f.2,
        Reads-trans wire s before
            (Reads-trans wire s r.2 (Reads-mem wire s r.0 v.mem r.2.input_left)),
      )
