-- ===== src/Mesh/Connection/Delivery.antt =====
-- What one node writes arrives at the other.
use nodemesh.Base.{◌≡◌, refl, true, false, List, [], ◌∷◌, map, All, is_empty}
use nodemesh.Text.{Text}
use nodemesh.Dict.{Dict}
use nodemesh.Amp.Message.{AmpMessage, new, to_wire, get, wire_body}
use nodemesh.Amp.Message.Headers.{AreHeaders}
use nodemesh.Amp.Message.RoundTrip.{parse-wire_lem}
use nodemesh.Mesh.Connection.{
  text, Arm, outbound, keepalive, inbound, forwarded, on_text, on_read, Log, run_connection,
}

-- What a node has to write: a message from its channel, or a keepalive.
pub data Item : Type 0 where
  message : AmpMessage → Item
  beat : Item

-- The arms of the writer, whose writes succeed.
abbrev pub to_arm : Item → Arm
to_arm (message m) = outbound m true
to_arm beat = keepalive true

-- The arms of the reader of some frames, whose dispatcher listens.
abbrev pub read_arm : Text → Arm
read_arm t = inbound (text t) true

-- The messages among the items.
abbrev pub messages : List Item → List AmpMessage
messages [] = []
messages (message m ∷ is) = m ∷ messages is
messages (beat ∷ is) = messages is

-- A message that the wire preserves.
abbrev pub IsSendable : Item → Type 0
IsSendable (message m) = AreHeaders m.headers × (is_empty m.headers ≡ false)
IsSendable beat = Unit

-- The same headers, and the body with its final line feed.
abbrev pub IsReceived : AmpMessage → AmpMessage → Type 0
IsReceived m m' = ((key : Text) → get m' key ≡ get m key) × (m'.body ≡ wire_body m.body)

-- As many messages, in the same order.
abbrev pub AreReceived : List AmpMessage → List AmpMessage → Type 0
AreReceived [] [] = Unit
AreReceived (m ∷ ms) (m' ∷ ms') = IsReceived m m' × AreReceived ms ms'
AreReceived _ _ = ⊥

on_text-to_wire :
    (m : AmpMessage)
    → AreHeaders m.headers
    → is_empty m.headers ≡ false
    → (m' : AmpMessage) × (on_text (to_wire m) true ≡ forwarded m') × IsReceived m m'
unfolding on_text
on_text-to_wire m h ne =
    let back = new m.headers (wire_body m.body) in
    (back, read m.headers h ne, (λ key. (unfold get in refl), refl))
  where
    read :
        (hs : Dict Text)
        → AreHeaders hs
        → is_empty hs ≡ false
        → on_text (to_wire (new hs m.body)) true ≡ forwarded (new hs (wire_body m.body))
    read [] h ne = absurd (cc ne)
    read (e ∷ hs) h ne = rw (parse-wire_lem e hs m.body h, on_text)

-- What the reader of the written frames does.
abbrev pub received : List Item → Log
received is = run_connection (map read_arm (run_connection (map to_arm is)).written)

abbrev IsDelivery : List Item → Log → Type 0
IsDelivery is l = (l.is_over ≡ false) × AreReceived (messages is) l.passed_on

received-IsDelivery : (is : List Item) → All IsSendable is → IsDelivery is (received is)
unfolding run_connection on_read
received-IsDelivery [] h = (refl, tt)
received-IsDelivery (message m ∷ is) h =
    let (m', e, r) = on_text-to_wire m h.0.0 h.0.1 in
    let rest = received-IsDelivery is h.1 in rw e (rest.0, (r, rest.1))
received-IsDelivery (beat ∷ is) h = received-IsDelivery is h.1

-- No write stops the writer.
writing_goes_on : (is : List Item) → (run_connection (map to_arm is)).is_over ≡ false
unfolding run_connection
writing_goes_on [] = refl
writing_goes_on (message m ∷ is) = writing_goes_on is
writing_goes_on (beat ∷ is) = writing_goes_on is

-- One node writes messages and keepalives, each message with a header and with header lines that
-- survive the wire, and every write succeeds; the other node reads these frames. Then neither
-- loop ends, and the reader passes on exactly the messages, in their order, each with the same value
-- at every key; the keepalives are not passed on.
pub received_lem :
    (is : List Item)
    → All IsSendable is
    → ((run_connection (map to_arm is)).is_over ≡ false)
      × ((received is).is_over ≡ false)
      × AreReceived (messages is) (received is).passed_on
received_lem is h = let d = received-IsDelivery is h in (writing_goes_on is, d.0, d.1)
