-- ===== src/Sfu/Placement/Changes.antt =====
-- What joins, leavings and changes of sessions keep of the placement.
use nodemesh.Base.{
  ℕ, ◌≡◌, ◌≤◌, ◌<◌, refl, ap, sym, ◌∙◌, subst, inl, inr, true, List, [], ◌∷◌, ◌++◌, Option, none,
  some, arith, ◌==◌, Bool-cases, Option-cases, and_then, unwrap_or, if◌then◌else◌, get_elem?,
  length, All,
}
use nodemesh.Text.{Text, text_eq, text_eq_iff, text_eq-cases}
use nodemesh.Dict.{lookup, Distinct}
use nodemesh.Sfu.Room.{
  Role, publisher, subscriber, Room, RoomRegistry, new_room, enter, join, leave, remove_session,
}
use nodemesh.Sfu.Room.Registry.{occupied, lookup-remove_session, lookup-join}
use nodemesh.Sfu.Room.Indices.{remove_at}
use nodemesh.Sfu.Room.Invariant.{PublisherBelow, AreRooms, occupied-some}
use nodemesh.Sfu.Media.Delivery.{count}
use nodemesh.Sfu.Placement.{room_at, IsPlaced, ArePlaced}
use nodemesh.Sfu.Placement.Counting.{
  unshift, get_elem?-unshift, count-shift, shift_publisher-unshift, count-append, count-fresh,
  get_elem?-append_lt, get_elem?-append_last, get_elem?-lt,
}

module _ {ℓ} {S : Type ℓ} (room_of : S → Option Text) where
  -- Where the sessions' rooms are what they were, so is the placement.
  pub IsPlaced-same :
      (ss ss' : List S) (k : Text) (r : Room)
      → ((i : ℕ) (k : Text) → room_at room_of ss i ≡ some k → room_at room_of ss' i ≡ some k)
      → IsPlaced room_of ss k r
      → IsPlaced room_of ss' k r
  IsPlaced-same ss ss' k r same p = record {
    subscribed = λ i h. same i k (p.subscribed i h);
    published = λ i h. same i k (p.published i h);
    once = p.once;
    apart = p.apart;
  }

  pub room_at-append :
      (ss : List S) (s : S) (i : ℕ) {k : Text}
      → room_at room_of ss i ≡ some k
      → room_at room_of (ss ++ (s ∷ [])) i ≡ some k
  room_at-append ss s i {k} h = elim (Option-cases (get_elem? ss i)) [
    | inl e ↦ absurd (ground (arith, rw e at h))
    | inr (x, e) ↦
        ap (λ o. and_then o room_of) (get_elem?-append_lt ss (s ∷ []) i (get_elem?-lt ss i e)) ∙ h
  ]

  -- A session leaves.
  leave-IsPlaced :
      (ss : List S) (i : ℕ) (k : Text) (r : Room)
      → IsPlaced room_of ss k r
      → IsPlaced room_of (remove_at ss i) k (leave i r)
  unfolding leave
  leave-IsPlaced ss i k r p = record {
    subscribed = λ j h.
        at_old j
          (p.subscribed (unshift i j) (subst (λ n. 0 < n) (count-shift i j r.subscribers) h));
    published =
        λ j h. at_old j (p.published (unshift i j) (shift_publisher-unshift i j r.publisher h));
    once = λ j. subst (λ n. n ≤ 1) (sym (count-shift i j r.subscribers)) (p.once (unshift i j));
    apart = λ j h.
        count-shift i j r.subscribers
        ∙ p.apart (unshift i j) (shift_publisher-unshift i j r.publisher h);
  }
    where
      at_old :
          (j : ℕ)
          → room_at room_of ss (unshift i j) ≡ some k
          → room_at room_of (remove_at ss i) j ≡ some k
      at_old j h = ap (λ o. and_then o room_of) (get_elem?-unshift ss i j) ∙ h

  pub remove_session-ArePlaced :
      (ss : List S) (i : ℕ) (reg : RoomRegistry)
      → Distinct reg.rooms
      → ArePlaced room_of ss reg
      → ArePlaced room_of (remove_at ss i) (remove_session reg i)
  remove_session-ArePlaced ss i reg d p k q h =
      kept (lookup k reg.rooms) refl (sym (lookup-remove_session reg i k d) ∙ h)
    where
      kept :
          (o : Option Room)
          → lookup k reg.rooms ≡ o
          → and_then o (λ r. occupied (leave i r)) ≡ some q
          → IsPlaced room_of (remove_at ss i) k q
      kept none e h = absurd (cc h)
      kept (some r) e h =
          let (same, _) = occupied-some (leave i r) q h in
          subst (IsPlaced room_of (remove_at ss i) k) same (leave-IsPlaced ss i k r (p k r e))

  at_last :
      (ss : List S) (s : S) (i : ℕ) (k : Text)
      → room_of s ≡ some k
      → length ss ≡ i
      → room_at room_of (ss ++ (s ∷ [])) i ≡ some k
  at_last ss s i k e q =
      subst (λ j. room_at room_of (ss ++ (s ∷ [])) j ≡ some k) q
        (ap (λ o. and_then o room_of) (get_elem?-append_last ss s) ∙ e)

  -- A session that was just added joins the room that it asked for.
  enter-IsPlaced :
      (ss : List S) (s : S) (k : Text) (r : Room) (role : Role)
      → room_of s ≡ some k
      → PublisherBelow (length ss) r.publisher
      → All (λ i. i < length ss) r.subscribers
      → IsPlaced room_of ss k r
      → IsPlaced room_of (ss ++ (s ∷ [])) k (enter role (length ss) r)
  unfolding enter
  enter-IsPlaced ss s k r publisher e pb sb p = record {
    subscribed = λ i h. room_at-append ss s i (p.subscribed i h);
    published = λ i h. at_last ss s i k e (ground (arith, h));
    once = p.once;
    apart = λ i h. count-fresh (length ss) i r.subscribers sb (ground (arith, h));
  }
  enter-IsPlaced ss s k r subscriber e pb sb p = record {
    subscribed = λ i h. elim (Bool-cases (length ss == i)) [
      | inl q ↦ at_last ss s i k e (ground arith)
      | inr q ↦
          room_at-append ss s i
            (p.subscribed i (ground (arith, q, h, count-append i r.subscribers (length ss ∷ []))))
    ];
    published = λ i h. room_at-append ss s i (p.published i h);
    once = λ i. elim (Bool-cases (length ss == i)) [
      | inl q ↦ ground (arith, q, count-append i r.subscribers (length ss ∷ []), fresh i q)
      | inr q ↦ ground (arith, q, count-append i r.subscribers (length ss ∷ []), p.once i)
    ];
    apart = λ i h.
        ground (arith, p.apart i h, count-append i r.subscribers (length ss ∷ []), below i h);
  }
    where
      fresh : (i : ℕ) → (length ss == i) ≡ true → count i r.subscribers ≡ 0
      fresh i q = count-fresh (length ss) i r.subscribers sb (ground arith)

      below : (i : ℕ) → r.publisher ≡ some i → i < length ss
      below i h = subst (PublisherBelow (length ss)) h pb

  new_room-IsPlaced : (ss : List S) (k : Text) → IsPlaced room_of ss k (new_room k)
  new_room-IsPlaced ss k = record {
    subscribed = λ i h. absurd (omega arith);
    published = λ i h. absurd (ground (arith, h));
    once = λ i. omega arith;
    apart = λ i h. refl;
  }

  pub append-ArePlaced :
      (ss : List S) (s : S) (reg : RoomRegistry)
      → ArePlaced room_of ss reg
      → ArePlaced room_of (ss ++ (s ∷ [])) reg
  append-ArePlaced ss s reg p k r h =
      IsPlaced-same ss (ss ++ (s ∷ [])) k r (λ i k' e. room_at-append ss s i e) (p k r h)

  pub join-ArePlaced :
      (ss : List S) (s : S) (reg : RoomRegistry) (name : Text) (role : Role)
      → room_of s ≡ some name
      → AreRooms (length ss) reg
      → ArePlaced room_of ss reg
      → ArePlaced room_of (ss ++ (s ∷ [])) (join reg name (length ss) role)
  join-ArePlaced ss s reg name role e rooms p k r h =
      joined (sym (lookup-join reg name (length ss) role k) ∙ h)
    where
      before :
          (o : Option Room)
          → lookup name reg.rooms ≡ o
          → IsPlaced room_of
              (ss ++ (s ∷ []))
              name
              (enter role (length ss) (unwrap_or o (new_room name)))
      before none q =
          enter-IsPlaced ss s name (new_room name) role e tt tt (new_room-IsPlaced ss name)
      before (some x) q =
          let v = rooms.each name x q in
          enter-IsPlaced ss s name x role e v.publisher_below v.subscribers_below (p name x q)

      joined :
          (if text_eq name k
              then some (enter role (length ss) (unwrap_or (lookup name reg.rooms) (new_room name)))
              else lookup k reg.rooms)
            ≡ some r
          → IsPlaced room_of (ss ++ (s ∷ [])) k r
      joined h = elim (text_eq-cases name k) [
        | inl q ↦
            let same : enter role (length ss) (unwrap_or (lookup name reg.rooms) (new_room name))
                ≡ r =
              ground (arith, text_eq_iff name k, q) in
            subst (λ x. IsPlaced room_of (ss ++ (s ∷ [])) x r) q
              (subst (IsPlaced room_of (ss ++ (s ∷ [])) name) same (before _ refl))
        | inr q ↦ append-ArePlaced ss s reg p k r (rw q at h)
      ]
