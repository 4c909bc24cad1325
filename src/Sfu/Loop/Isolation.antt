-- ===== src/Sfu/Loop/Isolation.antt =====
-- Media stay in the room of their publisher.
use nodemesh.Base.{
  ℕ, zero, suc, ◌≡◌, ◌≢◌, ◌⊎◌, ◌≤◌, refl, ap, sym, ◌∙◌, subst, inl, inr, true, List, [], ◌∷◌,
  Option, none, some, arith, Bool-cases, Option-cases, map_option, unwrap_or, get_elem?,
}
use nodemesh.Text.{Text, text_eq_refl, text_eq-cases}
use nodemesh.Dict.{Dict, lookup, Distinct, lookup-Lacks}
use nodemesh.Sfu.Room.{Room, find_publisher_room, is_publisher}
use nodemesh.Sfu.Relay.{MediaKind}
use nodemesh.Sfu.Media.{MediaData, publish, on_media_data}
use nodemesh.Sfu.Media.Delivery.{count, times, get_elem?-fan_out}
use nodemesh.Sfu.Sessions.{Sessions, KeepsRooms}
use nodemesh.Sfu.Placement.{room_at, IsPlaced}
use nodemesh.Sfu.Loop.{State, deliver}
use nodemesh.Sfu.Loop.Invariant.{Reaches, Reaches_lem}

-- The room that is found stands in the registry, under its key.
pub find_publisher_room-lookup :
    (m : Dict Room) (idx : ℕ) {r : Room}
    → Distinct m
    → find_publisher_room m idx ≡ some r
    → (k : Text) × (lookup k m ≡ some r) × (r.publisher ≡ some idx)
unfolding find_publisher_room lookup
find_publisher_room-lookup [] idx d h = absurd (ground (arith, h))
find_publisher_room-lookup ((name, room) ∷ m) idx {r} d h =
    elim (Bool-cases (is_publisher idx room.publisher)) [
      | inl e ↦
          let same : room ≡ r = ground (arith, rw e at h) in
          (
            name,
            ground (arith, text_eq_refl name, same),
            subst (λ x. x.publisher ≡ some idx) same (publishes room.publisher e),
          )
      | inr e ↦
          let (k, l, p) = find_publisher_room-lookup m idx d.1 (rw e at h) in (k, later k l, p)
    ]
  where
    publishes : (p : Option ℕ) → is_publisher idx p ≡ true → p ≡ some idx
    publishes none e = absurd (ground (arith, e))
    publishes (some i) e = ground arith

    later : (k : Text) → lookup k m ≡ some r → lookup k ((name, room) ∷ m) ≡ some r
    later k l = elim (text_eq-cases name k) [
      | inl q ↦
          absurd
            (ground (arith, lookup-Lacks name m d.0, subst (λ x. lookup x m ≡ some r) (sym q) l))
      | inr q ↦ rw q l
    ]

-- No delivery leaves a session as it was, and one delivery changes it once.
pub once-delivered {ℓ} :
    {S : Type ℓ} (step : S → S) (n : ℕ) (o after : Option S)
    → n ≤ 1
    → after ≡ map_option (times n step) o
    → (after ≡ o) ⊎ ((n ≡ 1) × (after ≡ map_option step o))
once-delivered step zero none after l e = inl e
once-delivered step zero (some s) after l e = inl e
once-delivered step (suc zero) o after l e = inr (refl, e ∙ one o)
  where
    one : (o : Option _) → map_option (times 1 step) o ≡ map_option step o
    one none = refl
    one (some s) = refl
once-delivered step (suc (suc n)) o after l e = absurd (omega arith)

module _ (a : Sessions) (keeps : KeepsRooms a) (encode : List ℕ → Text)
    (decode : Text → Option (List ℕ)) (now : ℕ) where
  -- What becomes of session `j`: nothing, or one delivery, and then it is another session in the room
  -- of the source.
  abbrev pub StaysOrGets : State a → ℕ → MediaData → ℕ → State a → Type 0
  StaysOrGets f source media j f' =
      (get_elem? f'.sessions j ≡ get_elem? f.sessions j)
      ⊎ ((kind : MediaKind) × (j ≢ source)
          × (room_at a.room_of f.sessions j ≡ room_at a.room_of f.sessions source)
          × (get_elem? f'.sessions j
              ≡ map_option (λ s. (deliver a now media kind s).0) (get_elem? f.sessions j)))

  published-StaysOrGets :
      (f : State a) (source : ℕ) (media : MediaData) (kind : MediaKind) (k : Text) (r : Room)
      (j : ℕ)
      → IsPlaced a.room_of f.sessions k r
      → r.publisher ≡ some source
      → StaysOrGets f source media j (publish encode now a.kind_of (deliver a now) f media kind r)
  unfolding publish
  published-StaysOrGets f source media kind k r j p e =
      elim (once-delivered (λ s. (deliver a now media kind s).0) (count j r.subscribers)
        (get_elem? f.sessions j) _ (p.once j)
        (get_elem?-fan_out (deliver a now media kind) f.sessions r.subscribers j)) [
          | inl same ↦ inl same
          | inr (n, got) ↦ inr (
            kind,
            λ q. absurd (omega (arith, n, p.apart j (e ∙ ap some (sym q)))),
            p.subscribed j (omega arith) ∙ sym (p.published source e),
            got,
          )
        ]

  -- In every state that the loop reaches, media of a session change no session but those in the room it
  -- asked for, and not itself; and each of those gets them at most once. The operations on sessions
  -- have to leave them in their rooms.
  pub on_media_data-isolated :
      {f f' : State a} (source : ℕ) (media : MediaData)
      → Reaches a encode decode f
      → on_media_data encode now a.kind_of (deliver a now) f source media ≡ some f'
      → (j : ℕ)
      → (get_elem? f'.sessions j ≡ get_elem? f.sessions j)
        ⊎ ((kind : MediaKind) × (j ≢ source)
            × (room_at a.room_of f.sessions j ≡ room_at a.room_of f.sessions source)
            × (get_elem? f'.sessions j
                ≡ map_option (λ s. (deliver a now media kind s).0) (get_elem? f.sessions j)))
  unfolding on_media_data
  on_media_data-isolated {f} {f'} source media r h j =
      let i = (Reaches_lem a encode decode keeps r).0 in
      elim (Option-cases (get_elem? f.sessions source)) [
        | inl e ↦ absurd (ground (arith, rw (e, on_media_data) at h))
        | inr (s, e) ↦ elim (Option-cases (a.kind_of s media.mid)) [
          | inl g ↦
              unchanged
                (ap (λ o. unwrap_or o f) (rw (g, on_media_data) at (rw (e, on_media_data) at h)))
          | inr (kind, g) ↦ elim (Option-cases (find_publisher_room f.rooms.rooms source)) [
            | inl q ↦ unchanged (
                ap (λ o. unwrap_or o f)
                  (rw (q, on_media_data) at
                    (rw (g, on_media_data) at (rw (e, on_media_data) at h))))
            | inr (room, q) ↦
                let (k, l, p) =
                  find_publisher_room-lookup f.rooms.rooms source i.rooms.distinct q in
                subst (StaysOrGets f source media j)
                  (ap (λ o. unwrap_or o f)
                    (rw (q, on_media_data) at
                      (rw (g, on_media_data) at (rw (e, on_media_data) at h))))
                  (published-StaysOrGets f source media kind k room j (i.placed k room l) p)
          ]
        ]
      ]
    where
      unchanged : f ≡ f' → StaysOrGets f source media j f'
      unchanged q = inl (ap (λ (g : State a). get_elem? g.sessions j) (sym q))
