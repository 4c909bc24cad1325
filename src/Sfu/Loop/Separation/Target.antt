-- ===== src/Sfu/Loop/Separation/Target.antt =====
-- The publisher that is asked for a keyframe, `process_events` in crates/sfu/src/lib.rs.
use nodemesh.Base.{
  ℕ, ◌≡◌, ◌<◌, refl, ap, sym, ◌∙◌, subst, inl, inr, Bool, List, [], ◌∷◌, Option, some, arith,
  Bool-cases, Option-cases, map_option, get_elem?,
}
use nodemesh.Text.{Text, text_eq_refl, text_eq-cases}
use nodemesh.Dict.{Dict, lookup, Lacks, Distinct, lookup-Lacks}
use nodemesh.Sfu.Room.{Room}
use nodemesh.Sfu.Relay.{MediaKind}
use nodemesh.Sfu.Media.{has_index, keyframe_target, find_keyframe_target}
use nodemesh.Sfu.Media.Delivery.{count, has_index-count}

-- A room of the registry that has a session among its subscribers, and another for its publisher.
abbrev pub Linked : ℕ → ℕ → Dict Room → Type 0
Linked source p m =
    (k : Text) × (r : Room) × (lookup k m ≡ some r)
    × (0 < count source r.subscribers)
    × (r.publisher ≡ some p)

Linked-later :
    (source p : ℕ) (name : Text) (room : Room) (m : Dict Room)
    → Lacks name m
    → Linked source p m
    → Linked source p ((name, room) ∷ m)
unfolding lookup
Linked-later source p name room m d (k, r, l, c, b) = (
  k,
  r,
  elim (text_eq-cases name k) [
    | inl n ↦
        absurd (ground (arith, lookup-Lacks name m d, subst (λ x. lookup x m ≡ some r) (sym n) l))
    | inr n ↦ rw n l
  ],
  c,
  b,
)

module _ {ℓ} {S : Type ℓ} (mid_of : S → MediaKind → Option ℕ) (kind_of : S → ℕ → Option MediaKind)
    (has_writer : S → ℕ → Bool) (request_keyframe : S → ℕ → S) where
  keyframe_target-publisher :
      (sessions : List S) (s : S) (mid : ℕ) (room : Room) {p pub_mid : ℕ}
      → keyframe_target mid_of kind_of has_writer request_keyframe sessions s mid room
        ≡ some (p, pub_mid)
      → room.publisher ≡ some p
  keyframe_target-publisher sessions s mid room {p} {pub_mid} h =
      elim (Option-cases room.publisher) [
        | inl e ↦ absurd (ground (arith, rw e at h))
        | inr (q, e) ↦ elim (Option-cases (get_elem? sessions q)) [
          | inl g ↦ absurd (ground (arith, rw g at (rw e at h)))
          | inr (x, g) ↦ elim (Option-cases (kind_of s mid)) [
            | inl k ↦ absurd (ground (arith, rw k at (rw g at (rw e at h))))
            | inr (kind, k) ↦ elim (Option-cases (mid_of x kind)) [
              | inl n ↦ absurd (ground (arith, rw n at (rw k at (rw g at (rw e at h)))))
              | inr (m, n) ↦
                  e ∙ ap (map_option (λ (t : ℕ × ℕ). t.0)) (rw n at (rw k at (rw g at (rw e at h))))
            ]
          ]
        ]
      ]

  -- The publisher that is asked stands in a room of the session that asks.
  pub find_keyframe_target-lookup :
      (sessions : List S) (source : ℕ) (s : S) (mid : ℕ) (m : Dict Room) {p pub_mid : ℕ}
      → Distinct m
      → find_keyframe_target mid_of kind_of has_writer request_keyframe sessions source s mid m
        ≡ some (p, pub_mid)
      → Linked source p m
  unfolding find_keyframe_target lookup
  find_keyframe_target-lookup sessions source s mid [] d h = absurd (ground (arith, h))
  find_keyframe_target-lookup sessions source s mid ((name, room) ∷ m) {p} {pub_mid} d h =
      elim (Bool-cases (has_index source room.subscribers)) [
        | inr e ↦
            Linked-later source p name room m d.0
              (find_keyframe_target-lookup sessions source s mid m d.1 (rw e at h))
        | inl e ↦
            elim (Option-cases
              (keyframe_target mid_of kind_of has_writer request_keyframe sessions s mid room)) [
                | inl g ↦ Linked-later source p name room m d.0 (
                    find_keyframe_target-lookup sessions source s mid m d.1
                      (rw (g, find_keyframe_target) at (rw e at h)))
                | inr (t, g) ↦ (
                  name,
                  room,
                  rw (text_eq_refl name) refl,
                  has_index-count source room.subscribers e,
                  keyframe_target-publisher sessions s mid room
                      (g ∙ (rw (g, find_keyframe_target) at (rw e at h))),
                )
              ]
      ]
