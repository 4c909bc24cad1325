-- ===== src/Sfu/Loop/Subscriptions.antt =====
-- From the relay commands of other nodes to the packets that they get: `SfuCommand::RelaySubscribe` and
-- `RelayUnsubscribe` in `sfu_loop`, and the media of a publisher after any run of it.
use nodemesh.Base.{
  ℕ, ◌≡◌, ◌%◌, ◌^◌, refl, ap, ◌∙◌, List, [], ◌++◌, Option, none, some, map, unwrap_or, get_elem?,
}
use nodemesh.Text.{Text}
use nodemesh.Dict.{lookup}
use nodemesh.Sfu.Room.{Room}
use nodemesh.Sfu.Relay.{MediaKind, contains, subscribers, from_media_data}
use nodemesh.Sfu.Relay.Nodes.{NoDup}
use nodemesh.Sfu.Command.{relay_media}
use nodemesh.Sfu.Media.{MediaData, on_media_data}
use nodemesh.Sfu.Media.Fanout.{on_media_data_lem}
use nodemesh.Sfu.Sessions.{Sessions, KeepsRooms}
use nodemesh.Sfu.Loop.{State, deliver}
use nodemesh.Sfu.Loop.Invariant.{Reaches, Reaches_lem}
use nodemesh.Sfu.Loop.Order.{find_publisher_room-published}
use nodemesh.Sfu.Loop.History.{wants, commands, is_subscribed-commands}

module _ (a : Sessions) (keeps : KeepsRooms a) (encode : List ℕ → Text)
    (decode : Text → Option (List ℕ)) where
  -- The nodes that get media are those that asked for them last. After any run of the loop, media of the
  -- publisher of a room make one packet for each node whose last command about the room was a
  -- subscription, behind the events that there were, and for no other node; no node gets two. The
  -- kind of the media has to be known; the operations on sessions have to leave them in their rooms.
  pub on_media_data-commands :
      {f : State a} (reached : Reaches a encode decode f) (now p : ℕ) (x : a.S) (name : Text)
      (room : Room) (media : MediaData) (kind : MediaKind)
      → lookup name f.rooms.rooms ≡ some room
      → room.publisher ≡ some p
      → get_elem? f.sessions p ≡ some x
      → a.kind_of x media.mid ≡ some kind
      → (f' : State a) × (nodes : List Text) × (on_media_data encode now a.kind_of
            (deliver a now)
            f
            p
            media
          ≡ some f')
        × (f'.events
            ≡ f.events
              ++ map
                  (λ node. relay_media node (
                    from_media_data encode now name kind media.pt
                      (media.numer % 2 ^ 32)
                      media.bytes))
                  nodes)
        × ((node : Text)
            → contains node nodes ≡ wants (commands a keeps encode decode reached) name node)
        × NoDup nodes
  on_media_data-commands {f} reached now p x name room media kind l b hx hk =
      let i = (Reaches_lem a encode decode keeps reached).0 in
      let (f', run, delivered, events) =
        on_media_data_lem encode now a.kind_of (deliver a now) f p media x kind room hx hk (
          find_publisher_room-published a.room_of f.sessions f.rooms p name room i.rooms.distinct
            i.placed l b) in
      let named = (i.rooms.each name room l).named in
      (
        f',
        unwrap_or (subscribers f.outbound_relays name) [],
        run,
        events
            ∙ ap
                (λ k.
                  f.events
                  ++ map
                      (λ node. relay_media node (
                        from_media_data encode now k kind media.pt (media.numer % 2 ^ 32)
                          media.bytes))
                      (unwrap_or (subscribers f.outbound_relays k) []))
                named,
        λ node. is_subscribed-commands a keeps encode decode reached name node,
        found (subscribers f.outbound_relays name) refl,
      )
    where
      found :
          (o : Option (List Text)) → subscribers f.outbound_relays name ≡ o → NoDup (unwrap_or o [])
      found none e = tt
      found (some nodes) e =
          ((Reaches_lem a encode decode keeps reached).0.table.each name nodes
            (unfold subscribers in e)).1
