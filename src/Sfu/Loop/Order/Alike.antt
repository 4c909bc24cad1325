-- ===== src/Sfu/Loop/Order/Alike.antt =====
-- States of `sfu_loop` (crates/sfu/src/lib.rs) that differ in the order of their maps.
use nodemesh.Base.{◌≡◌, refl, sym, Option, some}
use nodemesh.Sfu.Room.{RoomRegistry}
use nodemesh.Sfu.Relay.{OutboundRelays}
use nodemesh.Sfu.Sessions.{Sessions}
use nodemesh.Sfu.Loop.{State, Turned, running, stopped}
use nodemesh.Sfu.Loop.Order.{reorder, IsReordering}
use nodemesh.Sfu.Loop.Order.Tables.{AgreeRooms, AgreeRelays}

module _ (a : Sessions) where
  -- The same sessions, events and packets to send, and maps with the same entries.
  pub record AreAlike (f g : State a) : Type 0 where
    pub same_sessions : g.sessions ≡ f.sessions
    pub same_events : g.events ≡ f.events
    pub same_transmits : g.transmits ≡ f.transmits
    pub same_rooms : AgreeRooms f.rooms g.rooms
    pub same_relays : AgreeRelays f.outbound_relays g.outbound_relays

  -- The loop goes on in both, or has ended in both.
  abbrev pub AreAlikeTurned : Turned (State a) → Turned (State a) → Type 0
  AreAlikeTurned (running f) (running g) = AreAlike f g
  AreAlikeTurned (stopped f) (stopped g) = AreAlike f g
  AreAlikeTurned (running f) (stopped g) = ⊥
  AreAlikeTurned (stopped f) (running g) = ⊥

  -- Both come to their end, and alike.
  abbrev pub EndAlike : Option (Turned (State a)) → Option (Turned (State a)) → Type 0
  EndAlike o o' =
      (t : Turned (State a)) × (t' : Turned (State a)) × (o ≡ some t)
      × (o' ≡ some t')
      × AreAlikeTurned t t'

  pub reorder-AreAlike :
      (f : State a) (rooms : RoomRegistry) (relays : OutboundRelays)
      → IsReordering f rooms relays
      → AreAlike f (reorder rooms relays f)
  reorder-AreAlike f rooms relays h = record {
    same_sessions = refl;
    same_events = refl;
    same_transmits = refl;
    same_rooms = h.same_rooms;
    same_relays = h.same_relays;
  }

  pub AreAlike-IsReordering :
      (f g : State a) → AreAlike f g → IsReordering f g.rooms g.outbound_relays
  AreAlike-IsReordering f g h = record { same_rooms = h.same_rooms; same_relays = h.same_relays }

  pub AreAlike-reorder : (f g : State a) → AreAlike f g → reorder g.rooms g.outbound_relays f ≡ g
  AreAlike-reorder f g h = λ i. record {
    sessions = sym h.same_sessions i;
    rooms = g.rooms;
    outbound_relays = g.outbound_relays;
    events = sym h.same_events i;
    transmits = sym h.same_transmits i;
  }
