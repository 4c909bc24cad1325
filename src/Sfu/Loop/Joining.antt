-- ===== src/Sfu/Loop/Joining.antt =====
-- From the offer of a browser to the media that it sees: `SfuCommand::SdpOffer` in `sfu_loop`, and the
-- media that the publisher of the room sends after it.
use nodemesh.Base.{
  ℕ, zero, suc, ◌+◌, ◌≡◌, ◌≤◌, refl, ap, sym, ◌∙◌, subst, inl, inr, Bool, true, List, [], ◌∷◌, ◌++◌,
  Option, some, arith, Option-cases, All, map_option, unwrap_or, get_elem?, length, map, none,
  and_then,
}
use nodemesh.Text.{Text, codes, text_eq, text_eq_refl}
use nodemesh.Dict.{lookup}
use nodemesh.Amp.Message.{AmpMessage}
use nodemesh.Sfu.Room.{Room, RoomRegistry, find_publisher_room, subscriber, enter, join, parse_role}
use nodemesh.Sfu.Room.Registry.{lookup-join}
use nodemesh.Sfu.Relay.{MediaKind}
use nodemesh.Sfu.Command.{sdp_offer, send_message}
use nodemesh.Sfu.Cleanup.{cleanup}
use nodemesh.Sfu.Cleanup.Sound.{get_elem?-lt}
use nodemesh.Sfu.Media.{MediaData, on_media_data}
use nodemesh.Sfu.Media.Delivery.{count, times}
use nodemesh.Sfu.Media.Fanout.{on_media_data_lem}
use nodemesh.Sfu.Sessions.{Sessions, KeepsRooms}
use nodemesh.Sfu.Placement.Counting.{count-append}
use nodemesh.Sfu.Loop.{
  State, command, running, deliver, add_session, on_offer, on_command, clean, turn, process_event,
  process_events,
}
use nodemesh.Sfu.Loop.Invariant.{IsFabric, Reaches, turns, Reaches_lem}
use nodemesh.Sfu.Loop.Processing.{process_event-Goes}
use nodemesh.Sfu.Session.{media_data}
use nodemesh.Sfu.Loop.Order.{find_publisher_room-published}

module _ {ℓ} {S : Type ℓ} where
  get_elem?-last : (ss : List S) (s : S) → get_elem? (ss ++ (s ∷ [])) (length ss) ≡ some s
  get_elem?-last [] s = refl
  get_elem?-last (x ∷ ss) s = get_elem?-last ss s

  get_elem?-front :
      (ss : List S) (s : S) (i : ℕ) {x : S}
      → get_elem? ss i ≡ some x
      → get_elem? (ss ++ (s ∷ [])) i ≡ some x
  get_elem?-front [] s i h = absurd (ground (arith, h))
  get_elem?-front (y ∷ ss) s zero h = h
  get_elem?-front (y ∷ ss) s (suc i) h = get_elem?-front ss s i h

  get_elem?-All :
      (P : S → Type 0) (ss : List S) (i : ℕ) {s : S} → All P ss → get_elem? ss i ≡ some s → P s
  get_elem?-All P [] i a h = absurd (ground (arith, h))
  get_elem?-All P (x ∷ ss) zero a h = subst P (ap (λ o. unwrap_or o x) h) a.0
  get_elem?-All P (x ∷ ss) (suc i) a h = get_elem?-All P ss i a.1 h

  -- Where everybody lives, the cleanup loop changes nothing.
  cleanup-alive :
      (is_alive : S → Bool) (fuel i : ℕ) (ss : List S) (reg : RoomRegistry)
      → suc (length ss) ≤ fuel + i
      → i ≤ length ss
      → All (λ s. is_alive s ≡ true) ss
      → cleanup is_alive fuel i ss reg ≡ some (ss, reg)
  unfolding cleanup
  cleanup-alive is_alive zero i ss reg n l h = absurd (omega arith)
  cleanup-alive is_alive (suc fuel) i ss reg n l h = elim (Option-cases (get_elem? ss i)) [
    | inl e ↦ rw (e, cleanup)
    | inr (s, e) ↦
        rw (e, cleanup)
          (rw (get_elem?-All (λ s. is_alive s ≡ true) ss i h e, cleanup)
            (cleanup-alive is_alive fuel (i + 1) ss reg (omega arith)
              (omega (arith, get_elem?-lt ss i e)) h))
  ]

module _ (a : Sessions) (later : ℕ) where
  -- What a subscriber is after the media of `x`, that are delivered in order, each once; media of a mid
  -- that `x` has no kind for are not delivered.
  abbrev received_one : Option MediaKind → MediaData → a.S → a.S
  received_one none media y = y
  received_one (some kind) media y = (deliver a later media kind y).0

  abbrev pub received : a.S → List MediaData → a.S → a.S
  received x [] y = y
  received x (media ∷ rest) y = received x rest (received_one (a.kind_of x media.mid) media y)

module _ (a : Sessions) (keeps : KeepsRooms a) (encode : List ℕ → Text)
    (decode : Text → Option (List ℕ)) (later : ℕ) where
  process_events-received :
      (ms : List MediaData) (f : State a) (p n : ℕ) (x y : a.S) (room : Room)
      → get_elem? f.sessions p ≡ some x
      → get_elem? f.sessions n ≡ some y
      → find_publisher_room f.rooms.rooms p ≡ some room
      → count p room.subscribers ≡ 0
      → count n room.subscribers ≡ 1
      → (g : State a) × (process_events a encode decode later f p (map media_data ms) ≡ some g)
        × (get_elem? g.sessions n ≡ some (received a later x ms y))
  unfolding process_events process_event on_media_data
  process_events-received [] f p n x y room hx hy hr zero_times once = (f, refl, hy)
  process_events-received (m ∷ ms) f p n x y room hx hy hr zero_times once =
      elim (Option-cases (a.kind_of x m.mid)) [
        | inl e ↦
            let (g, run, at) = process_events-received ms f p n x y room hx hy hr zero_times once in
            (
              g,
              rw (hx, on_media_data) (rw (e, on_media_data) run),
              at ∙ ap (λ o. some (received a later x ms (received_one a later o m y))) (sym e),
            )
        | inr (kind, e) ↦
            let (g, ran, delivered, events) =
              on_media_data_lem encode later a.kind_of (deliver a later) f p m x kind room hx e
                hr in
            let (g', ran', kept) =
              process_event-Goes a keeps encode decode later f p (media_data m)
                (get_elem?-lt f.sessions p hx) in
            let same : g' ≡ g = ap (λ o. unwrap_or o g) (sym ran' ∙ ran) in
            let y' = (deliver a later m kind y).0 in
            let hx' =
              delivered p
              ∙ ap
                  (map_option
                    (times (count p room.subscribers) (λ z. (deliver a later m kind z).0)))
                  hx
              ∙ ap (λ k. some (times k (λ z. (deliver a later m kind z).0) x)) zero_times in
            let hy' =
              delivered n
              ∙ ap
                  (map_option
                    (times (count n room.subscribers) (λ z. (deliver a later m kind z).0)))
                  hy
              ∙ ap (λ k. some (times k (λ z. (deliver a later m kind z).0) y)) once in
            let hr' =
              ap (λ (h : State a). find_publisher_room h.rooms.rooms p) (sym same)
              ∙ ap (λ (reg : RoomRegistry). find_publisher_room reg.rooms p) kept.rooms
              ∙ hr in
            let (h, run, at) =
              process_events-received ms g p n x y' room hx' hy' hr' zero_times once in
            (
              h,
              ap
                    (λ o.
                      and_then o
                        (λ f'. process_events a encode decode later f' p (map media_data ms)))
                    ran
                  ∙ run,
              at ∙ ap (λ o. some (received a later x ms (received_one a later o m y))) (sym e),
            )
      ]

module _ (a : Sessions) (keeps : KeepsRooms a) (encode : List ℕ → Text)
    (decode : Text → Option (List ℕ)) (now : ℕ) where
  -- The state after the offer of a subscriber.
  abbrev pub joined : State a → Text → a.S → AmpMessage → State a
  joined f name s answer = add_session a encode decode now f s answer (some name) (some subscriber)

  turn-joined :
      (f : State a) (request_id from_addr to_addr sdp name : Text) {s : a.S} {answer : AmpMessage}
      → a.offer now request_id from_addr to_addr sdp (some name) (some subscriber)
        ≡ some (s, answer)
      → All (λ x. a.is_alive x ≡ true) (f.sessions ++ ((a.drain now s).session ∷ []))
      → turn a encode decode now f (
          command
            (sdp_offer request_id from_addr to_addr sdp (some name) (some (codes "subscriber")))
            true)
        ≡ some (running (joined f name s answer))
  unfolding turn on_command on_offer clean add_session parse_role text_eq
  turn-joined f request_id from_addr to_addr sdp name {s} {answer} e alive =
      rw (e, on_offer)
        (rw
          (cleanup-alive a.is_alive (length (f.sessions ++ ((a.drain now s).session ∷ [])) + 1) 0
            (f.sessions ++ ((a.drain now s).session ∷ []))
            (join f.rooms name (length f.sessions) subscriber) (omega arith) (omega arith) alive)
          refl)

  -- The new session stands once among the subscribers.
  joined-once :
      (f f' : State a) (name : Text) (r : Room) (s : a.S) (answer : AmpMessage)
      → IsFabric a f'
      → joined f name s answer ≡ f'
      → lookup name f.rooms.rooms ≡ some r
      → (lookup name f'.rooms.rooms ≡ some (enter subscriber (length f.sessions) r))
        × (count (length f.sessions) (enter subscriber (length f.sessions) r).subscribers ≡ 1)
  unfolding add_session enter
  joined-once f f' name r s answer i e l =
      let n = length f.sessions in
      let found : lookup name f'.rooms.rooms ≡ some (enter subscriber n r) =
        ap (λ (g : State a). lookup name g.rooms.rooms) (sym e)
        ∙ lookup-join f.rooms name n subscriber name
        ∙ rw (text_eq_refl name, l) refl in
      let once = (i.placed name _ found).once n in
      let itself : count n (n ∷ []) ≡ 1 = ground arith in
      (found, omega (arith, once, count-append n r.subscribers (n ∷ []), itself))

  -- A browser that joins a room sees its publisher. Its offer, as a subscriber of a room with a
  -- publisher, makes a new session behind the others and an answer behind the events, in one turn of
  -- the loop. Whatever media of the publisher are processed next, any number of them one after the
  -- other, are delivered to the new session in order, each once, but for those whose kind is not known.
  -- The offer has to be taken by the library, and all sessions, the new one too, have to be alive in
  -- that turn; the operations on sessions have to leave them in their rooms.
  pub joined-delivered :
      {f : State a} (request_id from_addr to_addr sdp name : Text) {s : a.S} {answer : AmpMessage}
      (p : ℕ) (x : a.S) (r : Room)
      → Reaches a encode decode f
      → a.offer now request_id from_addr to_addr sdp (some name) (some subscriber)
        ≡ some (s, answer)
      → All (λ y. a.is_alive y ≡ true) (f.sessions ++ ((a.drain now s).session ∷ []))
      → lookup name f.rooms.rooms ≡ some r
      → r.publisher ≡ some p
      → get_elem? f.sessions p ≡ some x
      → (f' : State a) × (turn a encode decode now f (
            command
              (sdp_offer request_id from_addr to_addr sdp (some name) (some (codes "subscriber")))
              true)
          ≡ some (running f'))
        × (f'.events ≡ f.events ++ (send_message answer ∷ []))
        × (get_elem? f'.sessions (length f.sessions) ≡ some (a.drain now s).session)
        × ((later : ℕ) (ms : List MediaData)
            → (g : State a) × (process_events a encode decode later f' p (map media_data ms)
                ≡ some g)
              × (get_elem? g.sessions (length f.sessions)
                  ≡ some (received a later x ms (a.drain now s).session)))
  unfolding add_session enter
  joined-delivered {f} request_id from_addr to_addr sdp name {s} {answer} p x r reached e alive l b
        hx =
      let f' = joined f name s answer in
      let new = (a.drain now s).session in
      let ran = turn-joined f request_id from_addr to_addr sdp name e alive in
      let i = (Reaches_lem a encode decode keeps (turns now _ reached ran)).0 in
      let (found, one) = joined-once f f' name r s answer i refl l in
      let room = enter subscriber (length f.sessions) r in
      let published =
        find_publisher_room-published a.room_of f'.sessions f'.rooms p name room i.rooms.distinct
          i.placed found b in
      (
        f',
        ran,
        refl,
        get_elem?-last f.sessions new,
        λ later ms.
            process_events-received a keeps encode decode later ms f' p (length f.sessions) x new
              room (get_elem?-front f.sessions new p hx) (get_elem?-last f.sessions new) published
              ((i.placed name room found).apart p b) one,
      )
