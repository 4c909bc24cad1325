-- ===== src/Sfu/Loop/Order/Turns.antt =====
-- A turn of the loop does the same whatever the order of its maps.
use nodemesh.Base.{
  ℕ, ◌+◌, ◌≡◌, refl, subst, inl, inr, Bool, List, Option, none, some, Bool-cases, Option-cases,
  and_then, map_option, length,
}
use nodemesh.Text.{Text}
use nodemesh.Sfu.Room.{RoomRegistry, parse_role}
use nodemesh.Sfu.Relay.{OutboundRelays}
use nodemesh.Sfu.Command.{
  SfuCommand, sdp_offer, relay_subscribe, relay_unsubscribe, relay_data, shutdown,
}
use nodemesh.Sfu.Cleanup.Outcome.{cleanup_lem}
use nodemesh.Sfu.Sessions.{Sessions, KeepsRooms}
use nodemesh.Sfu.Loop.{
  State, Arm, command, commands_closed, datagram, receive_error, tick, Turned, running, stopped,
  add_session, on_offer, on_command, clean, clean_turned, turn,
}
use nodemesh.Sfu.Loop.Processing.{Goes, on_packet-Goes, on_tick-Goes, relay-Kept}
use nodemesh.Sfu.Loop.Invariant.{IsFabric, IsTurned, Kept-IsFabric, on_command-IsTurned}
use nodemesh.Sfu.Loop.Order.{reorder, IsReordering}
use nodemesh.Sfu.Loop.Order.Alike.{
  AreAlike, AreAlikeTurned, EndAlike, reorder-AreAlike, AreAlike-IsReordering, AreAlike-reorder,
}
use nodemesh.Sfu.Loop.Order.Tables.{
  AgreeRelays, join_room-Agree, subscribe-Agree, unsubscribe-Agree, cleanup-Agree,
}
use nodemesh.Sfu.Loop.Order.Events.{
  Kept-IsReordering, on_packet-reorder, on_tick-reorder, handle_relay_data-reorder,
}

module _ (a : Sessions) (keeps : KeepsRooms a) (encode : List ℕ → Text)
    (decode : Text → Option (List ℕ)) (now : ℕ) where
  clean-reorder :
      (f : State a) (rooms : RoomRegistry) (relays : OutboundRelays)
      → IsFabric a f
      → IsReordering f rooms relays
      → EndAlike a
          (clean a encode decode now f)
          (clean a encode decode now (reorder rooms relays f))
  unfolding clean
  clean-reorder f rooms relays i h =
      let (ss', q, run, kept, living, views) = cleanup_lem a.is_alive f.sessions f.rooms i.rooms in
      let (q', run', k) =
        cleanup-Agree a.is_alive (length f.sessions + 1) 0 f.sessions h.same_rooms run in
      (
        running (record f { sessions = ss'; rooms = q }),
        running (record f { sessions = ss'; rooms = q'; outbound_relays = relays }),
        rw run,
        rw run',
        record {
          same_sessions = refl;
          same_events = refl;
          same_transmits = refl;
          same_rooms = k;
          same_relays = h.same_relays;
        },
      )

  clean-EndAlike :
      (f g : State a)
      → IsFabric a f
      → AreAlike a f g
      → EndAlike a (clean a encode decode now f) (clean a encode decode now g)
  clean-EndAlike f g i h =
      subst (λ x. EndAlike a (clean a encode decode now f) (clean a encode decode now x))
        (AreAlike-reorder a f g h)
        (clean-reorder f g.rooms g.outbound_relays i (AreAlike-IsReordering a f g h))

  clean_turned-EndAlike :
      (t t' : Turned (State a))
      → IsTurned a t
      → AreAlikeTurned a t t'
      → EndAlike a (clean_turned a encode decode now t) (clean_turned a encode decode now t')
  clean_turned-EndAlike (running f) (running g) i h = clean-EndAlike f g i h
  clean_turned-EndAlike (stopped f) (stopped g) i h = (stopped f, stopped g, refl, refl, h)
  clean_turned-EndAlike (running f) (stopped g) i h = absurd h
  clean_turned-EndAlike (stopped f) (running g) i h = absurd h

  -- What leaves the maps alone, and is the same in either order, is followed by the same cleanup.
  cleaned_after :
      (f : State a) (rooms : RoomRegistry) (relays : OutboundRelays) (o o' : Option (State a))
      → IsFabric a f
      → IsReordering f rooms relays
      → Goes a keeps now f o
      → o' ≡ map_option (reorder rooms relays) o
      → EndAlike a
          (and_then o (clean a encode decode now))
          (and_then o' (clean a encode decode now))
  cleaned_after f rooms relays o o' i h (g, e, k) e' =
      rw (e', e)
        (clean-reorder g rooms relays (Kept-IsFabric a f g k i)
          (Kept-IsReordering a keeps encode decode now rooms relays f g k h))

  module _ (f : State a) (rooms : RoomRegistry) (relays : OutboundRelays)
      (h : IsReordering f rooms relays) where
    on_offer-reorder :
        (request_id from_addr to_addr sdp : Text) (room role : Option Text) (listening : Bool)
        → AreAlikeTurned a
            (on_offer a encode decode now f request_id from_addr to_addr sdp room role listening)
            (on_offer a encode decode now
              (reorder rooms relays f)
              request_id
              from_addr
              to_addr
              sdp
              room
              role
              listening)
    unfolding on_offer add_session
    on_offer-reorder request_id from_addr to_addr sdp room role listening =
        let r = and_then role parse_role in
        elim (Option-cases (a.offer now request_id from_addr to_addr sdp room r)) [
          | inl e ↦ rw (e, on_offer) (reorder-AreAlike a f rooms relays h)
          | inr ((s, answer), e) ↦ elim (Bool-cases listening) [
            | inl l ↦
                rw (e, on_offer)
                  (rw l (record {
                    same_sessions = refl;
                    same_events = refl;
                    same_transmits = refl;
                    same_rooms = join_room-Agree (length f.sessions) room r h.same_rooms;
                    same_relays = h.same_relays;
                  }))
            | inr l ↦
                rw (e, on_offer)
                  (rw l (record {
                    same_sessions = refl;
                    same_events = refl;
                    same_transmits = refl;
                    same_rooms = h.same_rooms;
                    same_relays = h.same_relays;
                  }))
          ]
        ]

    with_relays :
        (r q : OutboundRelays)
        → AgreeRelays r q
        → AreAlike a
            (record f { outbound_relays = r })
            (record f { rooms = rooms; outbound_relays = q })
    with_relays r q k = record {
      same_sessions = refl;
      same_events = refl;
      same_transmits = refl;
      same_rooms = h.same_rooms;
      same_relays = k;
    }

    on_command-reorder :
        (c : SfuCommand) (listening : Bool)
        → AreAlikeTurned a
            (on_command a encode decode now f c listening)
            (on_command a encode decode now (reorder rooms relays f) c listening)
    unfolding on_command
    on_command-reorder (sdp_offer request_id from_addr to_addr sdp room role) listening =
        on_offer-reorder request_id from_addr to_addr sdp room role listening
    on_command-reorder (relay_subscribe room node) listening =
        with_relays _ _ (subscribe-Agree room node h.same_relays)
    on_command-reorder (relay_unsubscribe room node) listening =
        with_relays _ _ (unsubscribe-Agree room node h.same_relays)
    on_command-reorder (relay_data packet) listening =
        rw (handle_relay_data-reorder a keeps encode decode now rooms relays f packet h) (
          reorder-AreAlike a _ rooms relays (
            Kept-IsReordering a keeps encode decode now rooms relays f _
              (relay-Kept a keeps encode decode now f packet) h))
    on_command-reorder shutdown listening = reorder-AreAlike a f rooms relays h

    pub turn-reorder :
        (arm : Arm a.Packet)
        → IsFabric a f
        → EndAlike a
            (turn a encode decode now f arm)
            (turn a encode decode now (reorder rooms relays f) arm)
    unfolding turn
    turn-reorder (command c listening) i =
        clean_turned-EndAlike _ _ (on_command-IsTurned a keeps encode decode now f c listening i)
          (on_command-reorder c listening)
    turn-reorder commands_closed i =
        (stopped f, stopped _, refl, refl, reorder-AreAlike a f rooms relays h)
    turn-reorder (datagram none) i =
        (running f, running _, refl, refl, reorder-AreAlike a f rooms relays h)
    turn-reorder (datagram (some packet)) i =
        cleaned_after f rooms relays _ _ i h (on_packet-Goes a keeps encode decode now f packet)
          (on_packet-reorder a keeps encode decode now rooms relays f packet i h)
    turn-reorder receive_error i = clean-reorder f rooms relays i h
    turn-reorder tick i =
        cleaned_after f rooms relays _ _ i h (on_tick-Goes a keeps encode decode now f)
          (on_tick-reorder a keeps encode decode now rooms relays f i h)
