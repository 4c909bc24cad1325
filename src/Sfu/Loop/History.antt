-- ===== src/Sfu/Loop/History.antt =====
-- The table of relays after any run of `sfu_loop` (crates/sfu/src/lib.rs): it tells what the last command
-- about a room and a node was.
use nodemesh.Base.{
  ℕ, ◌+◌, ◌≡◌, refl, ap, sym, ◌∙◌, inl, inr, Bool, true, false, not, ◌&&◌, ◌||◌, List, [], ◌∷◌,
  ◌++◌, Option, none, some, arith, if◌then◌else◌, Bool-cases, Option-cases, and_then, unwrap_or,
  length,
}
use nodemesh.Text.{Text, text_eq}
use nodemesh.Sfu.Room.{RoomRegistry, parse_role}
use nodemesh.Sfu.Relay.{OutboundRelays, subscribe, unsubscribe, subscribers}
use nodemesh.Sfu.Relay.Nodes.{empty-contains}
use nodemesh.Sfu.Relay.Table.{
  IsTable, is_subscribed, is_subscribed-subscribe, is_subscribed-unsubscribe,
}
use nodemesh.Sfu.Command.{
  SfuCommand, sdp_offer, relay_subscribe, relay_unsubscribe, relay_data, shutdown,
}
use nodemesh.Sfu.Cleanup.{cleanup}
use nodemesh.Sfu.Sessions.{Sessions, KeepsRooms}
use nodemesh.Sfu.Loop.{
  State, Arm, command, commands_closed, datagram, receive_error, tick, Turned, running, stopped,
  add_session, on_offer, on_command, with_cleaned, clean, clean_turned, turn,
}
use nodemesh.Sfu.Loop.Processing.{Goes, on_packet-Goes, on_tick-Goes, relay-Kept}
use nodemesh.Sfu.Loop.Invariant.{Reaches, begins, turns, Reaches_lem}

-- What the last command about a room and a node was, the newest command first: a subscription, or not.
unfoldable pub wants : List SfuCommand → (room node : Text) → Bool
wants [] room node = false
wants (relay_subscribe r n ∷ cs) room node =
    if text_eq r room && text_eq n node then true else wants cs room node
wants (relay_unsubscribe r n ∷ cs) room node =
    if text_eq r room && text_eq n node then false else wants cs room node
wants (sdp_offer request_id from_addr to_addr sdp r role ∷ cs) room node = wants cs room node
wants (relay_data packet ∷ cs) room node = wants cs room node
wants (shutdown ∷ cs) room node = wants cs room node

-- What a turn tells the loop.
abbrev pub told : {P : Type 0} → Arm P → List SfuCommand
told (command c listening) = c ∷ []
told commands_closed = []
told (datagram packet) = []
told receive_error = []
told tick = []

-- The table after a command.
abbrev relays_after : OutboundRelays → List SfuCommand → OutboundRelays
relays_after r (relay_subscribe room node ∷ cs) = subscribe r room node
relays_after r (relay_unsubscribe room node ∷ cs) = unsubscribe r room node
relays_after r cs = r

module _ (a : Sessions) where
  abbrev relays_of : Turned (State a) → OutboundRelays
  relays_of (running f) = f.outbound_relays
  relays_of (stopped f) = f.outbound_relays

  -- Whatever the result, it has this table.
  abbrev HasRelays : OutboundRelays → Option (Turned (State a)) → Type 0
  HasRelays r o = (t : Turned (State a)) → o ≡ some t → relays_of t ≡ r

  some-HasRelays :
      (r : OutboundRelays) (t : Turned (State a)) → relays_of t ≡ r → HasRelays r (some t)
  some-HasRelays r t h u e = ap relays_of (ap (λ o. unwrap_or o t) (sym e)) ∙ h

module _ (a : Sessions) (keeps : KeepsRooms a) (encode : List ℕ → Text)
    (decode : Text → Option (List ℕ)) (now : ℕ) where
  clean-HasRelays : (f : State a) → HasRelays a f.outbound_relays (clean a encode decode now f)
  unfolding clean
  clean-HasRelays f = go (cleanup a.is_alive (length f.sessions + 1) 0 f.sessions f.rooms)
    where
      go :
          (o : Option (List a.S × RoomRegistry))
          → HasRelays a f.outbound_relays (with_cleaned a encode decode now f o)
      go none t e = absurd (ground (arith, e))
      go (some (ss, reg)) t e = some-HasRelays a f.outbound_relays _ refl t e

  on_offer-relays :
      (f : State a) (request_id from_addr to_addr sdp : Text) (room role : Option Text)
      (listening : Bool)
      → relays_of a
          (on_offer a encode decode now f request_id from_addr to_addr sdp room role listening)
        ≡ f.outbound_relays
  unfolding on_offer add_session
  on_offer-relays f request_id from_addr to_addr sdp room role listening =
      elim (Option-cases
        (a.offer now request_id from_addr to_addr sdp room (and_then role parse_role))) [
          | inl e ↦ rw (e, on_offer) refl
          | inr ((s, answer), e) ↦ elim (Bool-cases listening) [
            | inl l ↦ rw (e, on_offer) (rw l refl)
            | inr l ↦ rw (e, on_offer) (rw l refl)
          ]
        ]

  on_command-relays :
      (f : State a) (c : SfuCommand) (listening : Bool)
      → relays_of a (on_command a encode decode now f c listening)
        ≡ relays_after f.outbound_relays (c ∷ [])
  unfolding on_command
  on_command-relays f (sdp_offer request_id from_addr to_addr sdp room role) listening =
      on_offer-relays f request_id from_addr to_addr sdp room role listening
  on_command-relays f (relay_subscribe room node) listening = refl
  on_command-relays f (relay_unsubscribe room node) listening = refl
  on_command-relays f (relay_data packet) listening =
      (relay-Kept a keeps encode decode now f packet).relays
  on_command-relays f shutdown listening = refl

  clean_turned-HasRelays :
      (r : OutboundRelays) (t : Turned (State a))
      → relays_of a t ≡ r
      → HasRelays a r (clean_turned a encode decode now t)
  clean_turned-HasRelays r (running f) h u e = clean-HasRelays f u e ∙ h
  clean_turned-HasRelays r (stopped f) h u e = some-HasRelays a r (stopped f) h u e

  cleaned-HasRelays :
      (f : State a) (o : Option (State a))
      → Goes a keeps now f o
      → HasRelays a f.outbound_relays (and_then o (clean a encode decode now))
  cleaned-HasRelays f o (g, e, k) t h =
      clean-HasRelays g t (ap (λ x. and_then x (clean a encode decode now)) (sym e) ∙ h) ∙ k.relays

  turn-HasRelays :
      (f : State a) (arm : Arm a.Packet)
      → HasRelays a (relays_after f.outbound_relays (told arm)) (turn a encode decode now f arm)
  unfolding turn
  turn-HasRelays f (command c listening) =
      clean_turned-HasRelays _ (on_command a encode decode now f c listening)
        (on_command-relays f c listening)
  turn-HasRelays f commands_closed = some-HasRelays a _ _ refl
  turn-HasRelays f (datagram none) = some-HasRelays a _ _ refl
  turn-HasRelays f (datagram (some packet)) =
      cleaned-HasRelays f _ (on_packet-Goes a keeps encode decode now f packet)
  turn-HasRelays f receive_error = clean-HasRelays f
  turn-HasRelays f tick = cleaned-HasRelays f _ (on_tick-Goes a keeps encode decode now f)

-- A command does to the table what it does to the history.
relays_after-wants :
    (r : OutboundRelays) (c : SfuCommand) (cs : List SfuCommand) (room node : Text)
    → IsTable r
    → is_subscribed r room node ≡ wants cs room node
    → is_subscribed (relays_after r (c ∷ [])) room node ≡ wants (c ∷ cs) room node
unfolding wants
relays_after-wants r (relay_subscribe k n) cs room node t h =
    is_subscribed-subscribe r k n room node ∙ either (text_eq k room && text_eq n node) h
  where
    either : (b : Bool) {x y : Bool} → x ≡ y → (b || x) ≡ (if b then true else y)
    either true e = refl
    either false e = e
relays_after-wants r (relay_unsubscribe k n) cs room node t h =
    is_subscribed-unsubscribe r k n room node t ∙ both (text_eq k room && text_eq n node) h
  where
    both : (b : Bool) {x y : Bool} → x ≡ y → (not b && x) ≡ (if b then false else y)
    both true e = refl
    both false e = e
relays_after-wants r (sdp_offer request_id from_addr to_addr sdp k role) cs room node t h = h
relays_after-wants r (relay_data packet) cs room node t h = h
relays_after-wants r shutdown cs room node t h = h

module _ (a : Sessions) (keeps : KeepsRooms a) (encode : List ℕ → Text)
    (decode : Text → Option (List ℕ)) where
  -- The commands of a run, the newest first.
  unfoldable pub commands : {f : State a} → Reaches a encode decode f → List SfuCommand
  commands begins = []
  commands (turns now arm r e) = told arm ++ commands r

  told-wants :
      {P : Type 0} (arm : Arm P) (r : OutboundRelays) (cs : List SfuCommand) (room node : Text)
      → IsTable r
      → is_subscribed r room node ≡ wants cs room node
      → is_subscribed (relays_after r (told arm)) room node ≡ wants (told arm ++ cs) room node
  told-wants (command c listening) r cs room node t h = relays_after-wants r c cs room node t h
  told-wants commands_closed r cs room node t h = h
  told-wants (datagram packet) r cs room node t h = h
  told-wants receive_error r cs room node t h = h
  told-wants tick r cs room node t h = h

  pub is_subscribed-commands :
      {f : State a} (r : Reaches a encode decode f) (room node : Text)
      → is_subscribed f.outbound_relays room node ≡ wants (commands r) room node
  unfolding commands wants
  is_subscribed-commands begins room node = unfold subscribers in empty-contains node [] refl
  is_subscribed-commands (turns {f} now arm r e) room node =
      ap (λ q. is_subscribed q room node) (turn-HasRelays a keeps encode decode now f arm _ e)
      ∙ told-wants arm f.outbound_relays (commands r) room node
          (Reaches_lem a encode decode keeps r).0.table (is_subscribed-commands r room node)
