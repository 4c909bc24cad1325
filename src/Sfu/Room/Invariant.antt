-- ===== src/Sfu/Room/Invariant.antt =====
-- What holds of the rooms while the SFU has `n` sessions.
use nodemesh.Base.{
  ℕ, suc, ◌<◌, ◌≡◌, refl, sym, ◌∙◌, inl, inr, ◌≢◌, false, not, ◌&&◌, List, [], ◌∷◌, ◌++◌, Option,
  none, some, arith, ◌==◌, if◌then◌else◌, Bool-cases, All, All-append, subst, map, is_empty,
  and_then, is_some, unwrap_or, retain,
}
use nodemesh.Text.{Text, text_eq, text_eq_iff, text_eq-cases}
use nodemesh.Dict.{lookup, Distinct}
use nodemesh.Sfu.Room.{
  Role, publisher, subscriber, Room, RoomRegistry, new, new_room, enter, join, shift,
  shift_publisher, leave, is_vacant, remove_session,
}
use nodemesh.Sfu.Room.Registry.{
  occupied, lookup-remove_session, remove_session-Distinct, lookup-join, join-Distinct,
}

abbrev pub PublisherBelow : ℕ → Option ℕ → Type 0
PublisherBelow n none = Unit
PublisherBelow n (some i) = i < n

-- A room under its own name, with somebody in it, all of whose indices are sessions.
pub record IsRoom (n : ℕ) (k : Text) (r : Room) : Type 0 where
  pub named : r.name ≡ k
  pub publisher_below : PublisherBelow n r.publisher
  pub subscribers_below : All (λ i. i < n) r.subscribers
  pub somebody : is_vacant r ≡ false

pub record AreRooms (n : ℕ) (reg : RoomRegistry) : Type 0 where
  pub distinct : Distinct reg.rooms
  pub each : (k : Text) (r : Room) → lookup k reg.rooms ≡ some r → IsRoom n k r

pub new-AreRooms : AreRooms 0 new
unfolding lookup
new-AreRooms = record { distinct = tt; each = λ k r e. absurd (cc e) }

pub shift-lt : (n i j : ℕ) → i < suc n → j < suc n → j ≢ i → shift i j < n
unfolding shift
shift-lt n i j hi hj ne = ground arith

shift_publisher-below :
    (n i : ℕ) (p : Option ℕ)
    → i < suc n
    → PublisherBelow (suc n) p
    → PublisherBelow n (shift_publisher i p)
unfolding shift_publisher
shift_publisher-below n i none hi h = tt
shift_publisher-below n i (some j) hi h = elim (Bool-cases (j == i)) [
  | inl e ↦ rw e tt
  | inr e ↦ rw e (shift-lt n i j hi h (λ p. absurd (ground arith)))
]

subscribers-below :
    (n i : ℕ) (js : List ℕ)
    → i < suc n
    → All (λ j. j < suc n) js
    → All (λ j. j < n) (map (shift i) (retain (λ j. not (j == i)) js))
subscribers-below n i [] hi h = tt
subscribers-below n i (j ∷ js) hi h = elim (Bool-cases (j == i)) [
  | inl e ↦ rw e (subscribers-below n i js hi h.1)
  | inr e ↦
      rw e (shift-lt n i j hi h.0 (λ p. absurd (ground arith)), subscribers-below n i js hi h.1)
]

pub occupied-some : (r q : Room) → occupied r ≡ some q → (r ≡ q) × (is_vacant q ≡ false)
occupied-some r q h = elim (Bool-cases (is_vacant r)) [
  | inl e ↦ absurd (cc (rw e at h))
  | inr e ↦ let same : r ≡ q = cc (rw e at h) in (same, subst (λ x. is_vacant x ≡ false) same e)
]

-- Removing one of `n + 1` sessions leaves rooms over `n` sessions.
pub remove_session-AreRooms :
    (n i : ℕ) (reg : RoomRegistry)
    → i < suc n
    → AreRooms (suc n) reg
    → AreRooms n (remove_session reg i)
remove_session-AreRooms n i reg hi a = record {
  distinct = remove_session-Distinct reg i a.distinct;
  each = λ k q h.
      kept k q (lookup k reg.rooms) refl (sym (lookup-remove_session reg i k a.distinct) ∙ h);
}
  where
    left :
        (k : Text) (r : Room)
        → IsRoom (suc n) k r
        → is_vacant (leave i r) ≡ false
        → IsRoom n k (leave i r)
    left k r v s = record {
      named = unfold leave in v.named;
      publisher_below = unfold leave in shift_publisher-below n i r.publisher hi v.publisher_below;
      subscribers_below =
          unfold leave in subscribers-below n i r.subscribers hi v.subscribers_below;
      somebody = s;
    }

    kept :
        (k : Text) (q : Room) (o : Option Room)
        → lookup k reg.rooms ≡ o
        → and_then o (λ r. occupied (leave i r)) ≡ some q
        → IsRoom n k q
    kept k q none e h = absurd (cc h)
    kept k q (some r) e h =
        let (same, s) = occupied-some (leave i r) q h in
        subst (IsRoom n k) same
          (left k r (a.each k r e) (subst (λ x. is_vacant x ≡ false) (sym same) s))

All-lt_suc : (n : ℕ) (js : List ℕ) → All (λ j. j < n) js → All (λ j. j < suc n) js
All-lt_suc n [] h = tt
All-lt_suc n (j ∷ js) h = (omega arith, All-lt_suc n js h.1)

PublisherBelow-suc : (n : ℕ) (p : Option ℕ) → PublisherBelow n p → PublisherBelow (suc n) p
PublisherBelow-suc n none h = tt
PublisherBelow-suc n (some i) h = omega arith

-- A room that gains session `n` is a room over `n + 1` sessions.
IsEntered : ℕ → Text → Room → Type 0
IsEntered n k r = (r.name ≡ k) × PublisherBelow n r.publisher × All (λ i. i < n) r.subscribers

enter-IsRoom :
    (n : ℕ) (k : Text) (role : Role) (r : Room)
    → IsEntered n k r
    → IsRoom (suc n) k (enter role n r)
unfolding IsEntered enter
enter-IsRoom n k publisher r (e, p, s) = record {
  named = e;
  publisher_below = omega arith;
  subscribers_below = All-lt_suc n r.subscribers s;
  somebody = refl;
}
enter-IsRoom n k subscriber r (e, p, s) = record {
  named = e;
  publisher_below = PublisherBelow-suc n r.publisher p;
  subscribers_below =
      All-append _ r.subscribers (n ∷ []) (All-lt_suc n r.subscribers s) (omega arith, tt);
  somebody = not_vacant r.publisher r.subscribers;
}
  where
    not_vacant :
        (p : Option ℕ) (js : List ℕ) → (not (is_some p) && is_empty (js ++ (n ∷ []))) ≡ false
    not_vacant none [] = refl
    not_vacant none (j ∷ js) = refl
    not_vacant (some i) js = refl

IsRoom-suc : (n : ℕ) (k : Text) (r : Room) → IsRoom n k r → IsRoom (suc n) k r
IsRoom-suc n k r v = record {
  named = v.named;
  publisher_below = PublisherBelow-suc n r.publisher v.publisher_below;
  subscribers_below = All-lt_suc n r.subscribers v.subscribers_below;
  somebody = v.somebody;
}

-- A session that joins no room.
pub AreRooms-suc : (n : ℕ) (reg : RoomRegistry) → AreRooms n reg → AreRooms (suc n) reg
AreRooms-suc n reg a = record {
  distinct = a.distinct;
  each = λ k r e. IsRoom-suc n k r (a.each k r e);
}

-- A session that was pushed as number `n` joins a room, and the rooms are rooms over `n + 1` sessions.
pub join-AreRooms :
    (n : ℕ) (reg : RoomRegistry) (name : Text) (role : Role)
    → AreRooms n reg
    → AreRooms (suc n) (join reg name n role)
join-AreRooms n reg name role a = record {
  distinct = join-Distinct reg name n role a.distinct;
  each = λ k r h. joined k r (sym (lookup-join reg name n role k) ∙ h);
}
  where
    before :
        (o : Option Room)
        → lookup name reg.rooms ≡ o
        → IsEntered n name (unwrap_or o (new_room name))
    before none e = unfold IsEntered in (refl, tt, tt)
    before (some r) e =
        let v = a.each name r e in
        unfold IsEntered in (v.named, v.publisher_below, v.subscribers_below)

    joined :
        (k : Text) (r : Room)
        → (if text_eq name k
            then some (enter role n (unwrap_or (lookup name reg.rooms) (new_room name)))
            else lookup k reg.rooms)
          ≡ some r
        → IsRoom (suc n) k r
    joined k r h = elim (text_eq-cases name k) [
      | inl e ↦
          let same : enter role n (unwrap_or (lookup name reg.rooms) (new_room name)) ≡ r =
            ground (arith, text_eq_iff name k, e) in
          subst (λ x. IsRoom (suc n) x r) e
            (subst (IsRoom (suc n) name) same (enter-IsRoom n name role _ (before _ refl)))
      | inr e ↦ IsRoom-suc n k r (a.each k r (rw e at h))
    ]
