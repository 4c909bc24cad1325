-- ===== src/Tests/Relays.antt =====
-- Relay tables, packets, and the messages that stand for SFU commands (crates/sfu).
use nodemesh.Base.{ℕ, ◌≡◌, refl, List, [], ◌∷◌, Option, none, some}
use nodemesh.Text.{Text, codes, text_eq}
use nodemesh.Amp.Message.{AmpMessage, new}
use nodemesh.Sfu.Relay.{
  RelayPacket, OutboundRelays, new_outbound, video, subscribe, unsubscribe, from_media_data,
}
use nodemesh.Sfu.Command.{relay_subscribe, parse_command}

-- A code for bytes that is easy to read back.
abbrev encode : List ℕ → Text
encode bytes = b'=' ∷ bytes

abbrev decode : Text → Option (List ℕ)
decode [] = none
decode (c ∷ s) = some s

abbrev packet : RelayPacket
packet = from_media_data encode 1700 (codes "lobby") video 96 3000 (1 ∷ 2 ∷ [])

abbrev table : OutboundRelays
table = subscribe new_outbound (codes "lobby") (codes "mko")

table_subscriptions : table.subscriptions ≡ (codes "lobby", codes "mko" ∷ []) ∷ []
unfolding subscribe
table_subscriptions = refl

unsubscribe_last : unsubscribe table (codes "lobby") (codes "mko") ≡ new_outbound
unfolding subscribe unsubscribe
unsubscribe_last = refl

abbrev request : AmpMessage
request =
    new
      ((codes "command", codes "relay-subscribe")
        ∷ (codes "room", codes "lobby")
        ∷ (codes "from", codes "sfu.mesh.mko.amp")
        ∷ [])
      []

abbrev no_packet : Text → Option RelayPacket
no_packet s = none

parse_request :
    parse_command no_packet request ≡ some (relay_subscribe (codes "lobby") (codes "mko"))
unfolding parse_command nodemesh.Amp.Message.get text_eq nodemesh.Amp.Address.parse
parse_request = refl
