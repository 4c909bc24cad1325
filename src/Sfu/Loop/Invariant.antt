-- ===== src/Sfu/Loop/Invariant.antt =====
-- What holds of the SFU between two turns of its loop, and that every turn comes to its end.
use nodemesh.Base.{
  ℕ, suc, ◌+◌, ◌≡◌, refl, ap, sym, ◌∙◌, subst, inl, inr, Bool, List, [], ◌∷◌, ◌++◌, Option, none,
  some, arith, Bool-cases, Option-cases, and_then, length, length-append, unwrap_or,
}
use nodemesh.Text.{Text}
use nodemesh.Dict.{lookup, Distinct}
use nodemesh.Sfu.Room.{Role, new, join, parse_role}
use nodemesh.Sfu.Room.Registry.{remove_session-Distinct}
use nodemesh.Sfu.Room.Invariant.{AreRooms, new-AreRooms, join-AreRooms, AreRooms-suc}
use nodemesh.Sfu.Relay.{new_outbound}
use nodemesh.Sfu.Relay.Table.{IsTable, relays-IsTable}
use nodemesh.Sfu.Command.{
  SfuCommand, sdp_offer, relay_subscribe, relay_unsubscribe, relay_data, shutdown,
}
use nodemesh.Sfu.Cleanup.Kept.{cleanup_inv}
use nodemesh.Sfu.Cleanup.Outcome.{cleanup_lem}
use nodemesh.Sfu.Sessions.{Sessions, KeepsRooms}
use nodemesh.Sfu.Placement.{ArePlaced}
use nodemesh.Sfu.Placement.Changes.{
  IsPlaced-same, append-ArePlaced, join-ArePlaced, remove_session-ArePlaced,
}
use nodemesh.Sfu.Loop.{
  State, Arm, command, commands_closed, datagram, receive_error, tick, Turned, running, stopped,
  join_room, add_session, on_offer, on_command, clean, clean_turned, turn,
}
use nodemesh.Sfu.Loop.Kept.{Kept}
use nodemesh.Sfu.Loop.Processing.{Goes, on_packet-Goes, on_tick-Goes, relay-Kept}

module _ (a : Sessions) where
  -- The rooms are rooms over the sessions, each session stands where it asked to be, and the table of
  -- relays has no empty entry.
  pub record IsFabric (f : State a) : Type 0 where
    pub rooms : AreRooms (length f.sessions) f.rooms
    pub placed : ArePlaced a.room_of f.sessions f.rooms
    pub table : IsTable f.outbound_relays

  abbrev pub start : State a
  start = record {
    sessions = [];
    rooms = new;
    outbound_relays = new_outbound;
    events = [];
    transmits = [];
  }

  -- Turned into such a state, whether the loop goes on or not.
  abbrev pub IsTurned : Turned (State a) → Type 0
  IsTurned (running f) = IsFabric f
  IsTurned (stopped f) = IsFabric f

  abbrev pub Turns : Option (Turned (State a)) → Type 0
  Turns o = (t : Turned (State a)) × (o ≡ some t) × IsTurned t

  start-IsFabric : IsFabric start
  start-IsFabric = record {
    rooms = new-AreRooms;
    placed = λ k r e. absurd (unfold lookup in ground (arith, e));
    table = record {
      distinct = tt;
      each = λ room nodes e. absurd (unfold lookup in ground (arith, e));
    };
  }

  pub Kept-IsFabric : (f f' : State a) → Kept a.room_of f f' → IsFabric f → IsFabric f'
  Kept-IsFabric f f' k i = record {
    rooms =
        subst (AreRooms (length f'.sessions)) (sym k.rooms)
          (subst (λ n. AreRooms n f.rooms) (sym k.sessions.same_length) i.rooms);
    placed = subst (ArePlaced a.room_of f'.sessions) (sym k.rooms) (λ name r e.
        IsPlaced-same a.room_of f.sessions f'.sessions name r (λ j n h. k.sessions.same_room j ∙ h)
          (i.placed name r e));
    table = subst IsTable (sym k.relays) i.table;
  }

  one_more : (f : State a) (s : a.S) → suc (length f.sessions) ≡ length (f.sessions ++ (s ∷ []))
  one_more f s = omega (arith, length-append f.sessions (s ∷ []))

  stays :
      (f : State a) (s : a.S)
      → IsFabric f
      → AreRooms (length (f.sessions ++ (s ∷ []))) f.rooms
        × ArePlaced a.room_of (f.sessions ++ (s ∷ [])) f.rooms
  stays f s i = (
    subst (λ n. AreRooms n f.rooms) (one_more f s)
        (AreRooms-suc (length f.sessions) f.rooms i.rooms),
    append-ArePlaced a.room_of f.sessions s f.rooms i.placed,
  )

  -- A session more, which has joined the room that it asked for, if it asked for one with a role.
  join_room-IsFabric :
      (f : State a) (s : a.S) (room : Option Text) (role : Option Role)
      → a.room_of s ≡ room
      → IsFabric f
      → AreRooms (length (f.sessions ++ (s ∷ []))) (join_room f.rooms (length f.sessions) room role)
        × ArePlaced a.room_of
            (f.sessions ++ (s ∷ []))
            (join_room f.rooms (length f.sessions) room role)
  unfolding join_room
  join_room-IsFabric f s (some name) (some role) e i = (
    subst (λ n. AreRooms n (join f.rooms name (length f.sessions) role)) (one_more f s)
        (join-AreRooms (length f.sessions) f.rooms name role i.rooms),
    join-ArePlaced a.room_of f.sessions s f.rooms name role e i.rooms i.placed,
  )
  join_room-IsFabric f s none (some role) e i = stays f s i
  join_room-IsFabric f s (some name) none e i = stays f s i
  join_room-IsFabric f s none none e i = stays f s i

module _ (a : Sessions) (keeps : KeepsRooms a) (encode : List ℕ → Text)
    (decode : Text → Option (List ℕ)) (now : ℕ) where
  on_offer-IsTurned :
      (f : State a) (request_id from_addr to_addr sdp : Text) (room role : Option Text)
      (listening : Bool)
      → IsFabric a f
      → IsTurned a
          (on_offer a encode decode now f request_id from_addr to_addr sdp room role listening)
  unfolding on_offer add_session
  on_offer-IsTurned f request_id from_addr to_addr sdp room role listening i =
      let r = and_then role parse_role in
      elim (Option-cases (a.offer now request_id from_addr to_addr sdp room r)) [
        | inl e ↦ rw (e, on_offer) i
        | inr ((s, answer), e) ↦
            let asked = keeps.offer_room now request_id from_addr to_addr sdp room r e in
            elim (Bool-cases listening) [
              | inl l ↦
                  let j =
                    join_room-IsFabric a f (a.drain now s).session room r
                      (keeps.drain_room now s ∙ asked) i in
                  rw (e, on_offer) (rw l (record { rooms = j.0; placed = j.1; table = i.table }))
              | inr l ↦
                  let j = stays a f s i in
                  rw (e, on_offer) (rw l (record { rooms = j.0; placed = j.1; table = i.table }))
            ]
      ]

  pub on_command-IsTurned :
      (f : State a) (c : SfuCommand) (listening : Bool)
      → IsFabric a f
      → IsTurned a (on_command a encode decode now f c listening)
  unfolding on_command
  on_command-IsTurned f (sdp_offer request_id from_addr to_addr sdp room role) listening i =
      on_offer-IsTurned f request_id from_addr to_addr sdp room role listening i
  on_command-IsTurned f (relay_subscribe room node) listening i = record {
    rooms = i.rooms;
    placed = i.placed;
    table = (relays-IsTable f.outbound_relays room node i.table).0;
  }
  on_command-IsTurned f (relay_unsubscribe room node) listening i = record {
    rooms = i.rooms;
    placed = i.placed;
    table = (relays-IsTable f.outbound_relays room node i.table).1;
  }
  on_command-IsTurned f (relay_data packet) listening i =
      Kept-IsFabric a f _ (relay-Kept a keeps encode decode now f packet) i
  on_command-IsTurned f shutdown listening i = i

  -- The dead sessions are removed, and the loop that does it ends.
  pub clean-Turns : (f : State a) → IsFabric a f → Turns a (clean a encode decode now f)
  unfolding clean
  clean-Turns f i =
      let (ss', reg', run, alive, rooms, views) =
        cleanup_lem a.is_alive f.sessions f.rooms i.rooms in
      let placed =
        cleanup_inv a.is_alive (λ ss reg. Distinct reg.rooms × ArePlaced a.room_of ss reg)
          (λ ss reg j s e p. (
            remove_session-Distinct reg j p.0,
            remove_session-ArePlaced a.room_of ss j reg p.0 p.1,
          ))
          (length f.sessions + 1) 0 f.sessions f.rooms ss' reg' (i.rooms.distinct, i.placed) run in
      (
        running (record f { sessions = ss'; rooms = reg' }),
        rw run,
        record { rooms = rooms; placed = placed.1; table = i.table },
      )

  cleaned_after :
      (f : State a) (o : Option (State a))
      → IsFabric a f
      → Goes a keeps now f o
      → Turns a (and_then o (clean a encode decode now))
  cleaned_after f o i (f', e, k) =
      let (t, e', h) = clean-Turns f' (Kept-IsFabric a f f' k i) in
      (t, ap (λ x. and_then x (clean a encode decode now)) e ∙ e', h)

  cleaned : (t : Turned (State a)) → IsTurned a t → Turns a (clean_turned a encode decode now t)
  cleaned (running f) i = clean-Turns f i
  cleaned (stopped f) i = (stopped f, refl, i)

  pub turn-Turns :
      (f : State a) (arm : Arm a.Packet) → IsFabric a f → Turns a (turn a encode decode now f arm)
  unfolding turn
  turn-Turns f (command c listening) i = cleaned _ (on_command-IsTurned f c listening i)
  turn-Turns f commands_closed i = (stopped f, refl, i)
  turn-Turns f (datagram none) i = (running f, refl, i)
  turn-Turns f (datagram (some packet)) i =
      cleaned_after f _ i (on_packet-Goes a keeps encode decode now f packet)
  turn-Turns f receive_error i = clean-Turns f i
  turn-Turns f tick i = cleaned_after f _ i (on_tick-Goes a keeps encode decode now f)

module _ (a : Sessions) (encode : List ℕ → Text) (decode : Text → Option (List ℕ)) where
  -- The states between the turns of the loop, each at its time.
  pub data Reaches : State a → Type 0 where
    begins : Reaches (start a)
    turns :
        {f f' : State a} (now : ℕ) (arm : Arm a.Packet)
        → Reaches f
        → turn a encode decode now f arm ≡ some (running f')
        → Reaches f'

  unturned :
      (f' : State a) (o : Option (Turned (State a)))
      → o ≡ some (running f')
      → Turns a o
      → IsFabric a f'
  unturned f' o e (t, e', i) = same t (ap (λ x. unwrap_or x t) (sym e' ∙ e)) i
    where
      same : (t : Turned (State a)) → t ≡ running f' → IsTurned a t → IsFabric a f'
      same t q i = subst (IsTurned a) q i

  Reaches-IsFabric : (keeps : KeepsRooms a) {f : State a} → Reaches f → IsFabric a f
  Reaches-IsFabric keeps begins = start-IsFabric a
  Reaches-IsFabric keeps (turns {f} {f'} now arm r e) =
      unturned f' _ e (turn-Turns a keeps encode decode now f arm (Reaches-IsFabric keeps r))

  -- Whatever turns the loop has taken, its rooms are rooms over its sessions, each index in a room is a
  -- session that asked for that room and stands there once, and the table of relays has no empty
  -- entry; and whatever comes next, the turn ends without a panic, the loop over the dead sessions
  -- included. The operations on sessions have to leave them in their rooms.
  pub Reaches_lem :
      (keeps : KeepsRooms a) {f : State a}
      → Reaches f
      → IsFabric a f
        × ((now : ℕ) (arm : Arm a.Packet)
            → (t : Turned (State a)) × (turn a encode decode now f arm ≡ some t) × IsTurned a t)
  Reaches_lem keeps {f} r =
      let i = Reaches-IsFabric keeps r in
      (i, λ now arm. turn-Turns a keeps encode decode now f arm i)
