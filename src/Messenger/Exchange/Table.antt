-- ===== src/Messenger/Exchange/Table.antt =====
-- The headers of the SEND frames, name by name.
use libstomp.Prelude.{
  ℕ, ◌+◌, ◌<◌, ◌≡◌, ◌≢◌, refl, ◌∙◌, ap, Bool, true, false, Option, none, some, List, [], ◌∷◌, ◌++◌,
  Text, Buffer, text, same_text, ltb, length, strlen, if◌then◌else◌, ℤ, is_natural, to_int, to_size,
  size_mod,
}
use libstomp.Exec.{done}
use libstomp.Platform.{Apr, Wire, HasMemory, Unsplit, HashLaws, find, first}
use libstomp.Status.{StatusCode}
use libstomp.Machine.{State}
use libstomp.Io.Base.{Connection}
use libstomp.Io.Frame.{newline, frame_end, content_length}
use libstomp.Io.Frame.Writes.{header_text, length_text, body_text, frame_text, BodyFits}
use libstomp.Io.Read.Table.{IsHead, set_all}
use libstomp.Io.Read.Arrived.{Arrives}
use libstomp.Properties.{ExchangeProperties}
use libstomp.Message.{Message}
use libstomp.Messenger.Base.{Messenger, SendHeader}
use libstomp.Messenger.Requests.{narrowed, stomp_write_receipt, stomp_write_transaction_id}
use libstomp.Messenger.Requests.Destination.{endpoint}
use libstomp.Messenger.Requests.Receipt.{verdict, Confirmed}
use libstomp.Messenger.Requests.Submit.{Submitted, unsent}
use libstomp.Messenger.Exchange.{send_headers, wants_receipt, stomp_send, stomp_receive}
use libstomp.Messenger.Exchange.Receive.{with_headers, stomp_receive_announced}
use libstomp.Messenger.Exchange.Send.{sent_frame, stomp_send-Submitted, stomp_send-Confirmed}

module _ ⦃apr : Apr⦄ where
  -- A value that stands over what a name had.
  abbrev over : Text → Text → Option Text → Option Text → Option Text
  over name k value before = if same_text name k then value else before

  -- What a name stands for in a SEND frame: the receipt and the transaction if they are asked for, the
  -- destination, and otherwise what it stands for in the exchange.
  abbrev pub sent_value :
      Option SendHeader → Option Text → (Text → Option Text) → Text → Option Text
  sent_value none path view k = over (text "destination") k path (view k)
  sent_value (some d) path view k =
      let transacted =
        if is_natural d.transaction_id
        then over (text "transaction") k (some (apr.itoa (narrowed d.transaction_id)))
            (over (text "destination") k path (view k))
        else over (text "destination") k path (view k) in
      if ltb 0 d.receipt
      then over (text "receipt") k (some (apr.itoa (to_int d.receipt))) transacted
      else transacted

module _ ⦃apr : Apr⦄ (laws : HashLaws apr) (k : Text) where
  get-set_over :
      (h : apr.Hash) (name : Text) (value o : Option Text)
      → apr.hash_get h k ≡ o
      → apr.hash_get (apr.hash_set h name value) k ≡ (if same_text name k then value else o)
  get-set_over h name value o e =
      laws.get-set h name k value ∙ ap (λ o. if same_text name k then value else o) e

  get-if :
      (b : Bool) (h h' : apr.Hash) (o o' : Option Text)
      → apr.hash_get h k ≡ o
      → apr.hash_get h' k ≡ o'
      → apr.hash_get (if b then h else h') k ≡ (if b then o else o')
  get-if true h h' o o' e e' = e
  get-if false h h' o o' e e' = e'

  transaction_over :
      (h : apr.Hash) (id : ℤ) (o : Option Text)
      → apr.hash_get h k ≡ o
      → apr.hash_get (stomp_write_transaction_id h id) k ≡ (
          if is_natural id
          then over (text "transaction") k (some (apr.itoa (narrowed id))) o
          else o)
  unfolding stomp_write_transaction_id
  transaction_over h id o e =
      get-if (is_natural id) _ _ _ _ (get-set_over h (text "transaction") _ o e) e

  receipt_over :
      (h : apr.Hash) (receipt : ℕ) (o : Option Text)
      → apr.hash_get h k ≡ o
      → apr.hash_get (stomp_write_receipt h receipt) k ≡ (
          if ltb 0 receipt then over (text "receipt") k (some (apr.itoa (to_int receipt))) o else o)
  unfolding stomp_write_receipt
  receipt_over h receipt o e =
      get-if (ltb 0 receipt) _ _ _ _ (get-set_over h (text "receipt") _ o e) e

  destination_over :
      (table : apr.Hash) (path : Option Text)
      → apr.hash_get (apr.hash_set (apr.hash_copy table) (text "destination") path) k
        ≡ over (text "destination") k path (apr.hash_get table k)
  destination_over table path =
      get-set_over (apr.hash_copy table) (text "destination") path _ (laws.get-copy table k)

  send_headers-Table :
      (header : Option SendHeader) (table : apr.Hash) (path : Option Text)
      → apr.hash_get
          (send_headers (apr.hash_set (apr.hash_copy table) (text "destination") path) header)
          k
        ≡ sent_value header path (apr.hash_get table) k
  send_headers-Table none table path = destination_over table path
  send_headers-Table (some d) table path =
      receipt_over _ d.receipt _
        (transaction_over _ d.transaction_id _ (destination_over table path))

if_both : {A : Type 0} (b : Bool) (x y z : A) → x ≡ z → y ≡ z → (if b then x else y) ≡ z
if_both true x y z e e' = e
if_both false x y z e e' = e'

module _ ⦃apr : Apr⦄ (laws : HashLaws apr) where
  content_length_kept :
      (header : Option SendHeader) (path : Option Text) (view : Text → Option Text)
      → sent_value header path view (text "content-length") ≡ view (text "content-length")
  unfolding text same_text
  content_length_kept none path view = refl
  content_length_kept (some d) path view =
      let v = view (text "content-length") in
      let transacted = if_both (is_natural d.transaction_id) v v v refl refl in
      if_both (ltb 0 d.receipt) _ _ v transacted transacted

module _ ⦃apr : Apr⦄ where
  -- The text of a SEND frame with those headers, the content-length that it announces by itself, and
  -- that body.
  abbrev pub send_text : List (Text × Text) → ℤ → Option Buffer → Text
  send_text entries n body =
      text "SEND"
      ++ (newline
          ++ ((header_text entries ++ length_text n)
              ++ (newline ++ (body_text body n ++ frame_end))))

module _ ⦃apr : Apr⦄ (wire : Wire apr) (memory : HasMemory apr) (unsplit : Unsplit apr wire)
    (laws : HashLaws apr) (s : apr.Socket) (fuel : ℕ) (garbage : ℕ) (m : Messenger apr)
    (c : Connection apr) (opened : m.connection ≡ some c) (open_socket : c.socket ≡ some s)
    (properties : ExchangeProperties apr) (table : apr.Hash)
    (exchange : m.exchange_properties ≡ some properties) (made : properties.hash ≡ some table)
    (b : ℕ) (path : Text) (rooted : m.uri.path ≡ some (b ∷ path)) where
  -- Hash tables are finite maps. A messenger with a connection, an endpoint and a table of
  -- properties sends a message and asks for a receipt; a frame has arrived, whose lines the reader
  -- takes, and whose body has a terminator; there is memory, fuel for the frames, and a receive of
  -- one byte or more brings all that it asks for. Then stomp_send ends, and the frame that it
  -- sends, whole or in part, has headers in which a name stands, for every name, for the receipt
  -- and the transaction where the call asks for them, for the destination, and otherwise for what
  -- the exchange has; the content-length is written behind them. If the whole frame has gone, the
  -- reply has been read and the call succeeds exactly for a RECEIPT; if a prefix has, the call
  -- fails with the message of the engine and reads nothing.
  pub stomp_send-Table :
      {command : Text} {body : Buffer} {rest : Text} {input : Text}
      (arrives : Arrives memory fuel command body rest input) (k : ℕ) (ends : strlen body ≡ some k)
      (header : Option SendHeader) (message : Message apr) (n : ℤ) (st : State apr)
      → wire.input s st.net ≡ input
      → wants_receipt header ≡ true
      → content_length (sent_frame m table b path header message) ≡ some n
      → BodyFits message.body n
      → length (frame_text (sent_frame m table b path header message) n) < fuel
      → (entries : List (Text × Text)) × ((name : Text)
          → find name entries
            ≡ sent_value header (some (endpoint m b path)) (apr.hash_get table) name)
        × Confirmed wire s m
            (verdict m command body)
            rest
            input
            (stomp_send fuel garbage m header message)
            (send_text entries n message.body)
            st
  stomp_send-Table arrives k ends header message n st arrived asks announced fits enough =
      let path' = some (endpoint m b path) in
      let h = send_headers (apr.hash_set (apr.hash_copy table) (text "destination") path') header in
      (
        apr.hash_entries h,
        λ name. laws.find-entries h name ∙ send_headers-Table laws name header table path',
        stomp_send-Confirmed wire s fuel garbage m c opened open_socket properties table exchange
            made b path rooted memory unsplit arrives k ends header message n st arrived asks
            announced fits enough,
      )

  -- Hash tables are finite maps. A frame that announces the length of its body, which is not empty,
  -- has arrived for a messenger with a connection, an endpoint and a table of properties. The
  -- reader takes its lines, and its length can be raised; there is memory, fuel for the frames, and
  -- a receive of one byte or more brings all that it asks for. Then stomp_receive ends and takes
  -- the frame. If the messenger that it leaves sends another message next, without a receipt,
  -- stomp_send ends: the SEND frame, of which the whole or a prefix goes, has the content-length
  -- that was received among its headers, and behind them the content-length of its own body.
  pub received_length_sent :
      (message : Message apr) (command bs rest announced : Text) (entries : List (Text × Text))
      (st : State apr) (header : Option SendHeader) (next : Message apr) (n : ℤ)
      → IsHead fuel command entries
      → apr.hash_get (set_all memory.empty entries) (text "content-length") ≡ some announced
      → to_size (apr.atoi64 announced) ≡ length bs
      → bs ≢ []
      → length bs + 1 < size_mod
      → wire.input s st.net
        ≡ command ++ 10 ∷ (header_text entries ++ 10 ∷ (bs ++ (frame_end ++ rest)))
      → wants_receipt header ≡ false
      → content_length (
          sent_frame
            (with_headers m (set_all memory.empty entries) table)
            (apr.hash_overlay (set_all memory.empty entries) table)
            b
            path
            header
            next)
        ≡ some n
      → BodyFits next.body n
      → length (
          frame_text
            (sent_frame
              (with_headers m (set_all memory.empty entries) table)
              (apr.hash_overlay (set_all memory.empty entries) table)
              b
              path
              header
              next)
            n)
        < fuel
      → (m' : Messenger apr) × (u : State apr) × (code : StatusCode) × (message' : Message apr)
        × (sent : List (Text × Text)) × (stomp_receive fuel garbage m message st
            ≡ done ((code, m', message'), u))
        × (find (text "content-length") sent ≡ some announced)
        × Submitted wire s m'
            (unsent m' u)
            (stomp_send fuel garbage m' header next)
            (send_text sent n next.body)
            u
  received_length_sent message command bs rest announced entries st header next n a present e ne
        small arrived silent announces fits enough =
      let received = set_all memory.empty entries in
      let t = apr.hash_overlay received table in
      let m' = with_headers m received table in
      let path' = some (endpoint m' b path) in
      let h = send_headers (apr.hash_set (apr.hash_copy t) (text "destination") path') header in
      let r =
        stomp_receive_announced wire memory unsplit s fuel garbage m c opened open_socket properties
          table exchange made message command bs rest announced entries st a present e ne small
          arrived in
      (
        m',
        r.0,
        _,
        _,
        apr.hash_entries h,
        r.2,
        laws.find-entries h (text "content-length")
            ∙ send_headers-Table laws (text "content-length") header t path'
            ∙ content_length_kept laws header path' (apr.hash_get t)
            ∙ laws.get-overlay received table (text "content-length")
            ∙ ap (λ o. first o (apr.hash_get table (text "content-length"))) present,
        stomp_send-Submitted wire s fuel garbage m' c opened open_socket (record { hash = some t })
            t refl refl b path rooted header next n r.0 silent announces fits enough,
      )
