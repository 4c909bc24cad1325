-- ===== src/Sfu/Room/Registry.antt =====
-- The registry as a map from names to rooms: what `join` and `remove_session` do at every name.
use nodemesh.Base.{
  ℕ, ◌≡◌, refl, ◌∙◌, inl, inr, Bool, false, ◌||◌, List, [], ◌∷◌, Option, none, some, arith,
  if◌then◌else◌, subst, map_option, and_then, unwrap_or,
}
use nodemesh.Text.{Text, text_eq, text_eq_iff, text_eq-cases}
use nodemesh.Dict.{
  Dict, lookup, remove, Lacks, Distinct, lookup-insert, lookup-remove_self, lookup-remove_ne,
  remove-Distinct, insert-Distinct,
}
use nodemesh.Sfu.Room.{
  Role, Room, RoomRegistry, new_room, enter, join, leave, is_vacant, leave_all, vacant_names,
  remove_names, remove_session,
}

-- A room that stays a room: a vacant one is destroyed.
abbrev pub occupied : Room → Option Room
occupied r = if is_vacant r then none else some r

leave_all-Lacks : (i : ℕ) (k : Text) (m : Dict Room) → Lacks k m → Lacks k (leave_all i m)
unfolding leave_all
leave_all-Lacks i k [] h = tt
leave_all-Lacks i k (e ∷ m) h = (h.0, leave_all-Lacks i k m h.1)

leave_all-Distinct : (i : ℕ) (m : Dict Room) → Distinct m → Distinct (leave_all i m)
unfolding leave_all
leave_all-Distinct i [] d = tt
leave_all-Distinct i (e ∷ m) d = (leave_all-Lacks i e.0 m d.0, leave_all-Distinct i m d.1)

lookup-leave_all :
    (i : ℕ) (k : Text) (m : Dict Room)
    → lookup k (leave_all i m) ≡ map_option (leave i) (lookup k m)
unfolding lookup leave_all
lookup-leave_all i k [] = refl
lookup-leave_all i k ((j, r) ∷ m) = ground (arith, lookup-leave_all i k m)

remove_names-Distinct : (ns : List Text) (m : Dict Room) → Distinct m → Distinct (remove_names ns m)
unfolding remove_names
remove_names-Distinct [] m d = d
remove_names-Distinct (n ∷ ns) m d = remove_names-Distinct ns (remove n m) (remove-Distinct n m d)

abbrev has_name : Text → List Text → Bool
has_name k [] = false
has_name k (n ∷ ns) = text_eq n k || has_name k ns

lookup-remove_names :
    (k : Text) (ns : List Text) (m : Dict Room)
    → Distinct m
    → lookup k (remove_names ns m) ≡ (if has_name k ns then none else lookup k m)
unfolding remove_names
lookup-remove_names k [] m d = refl
lookup-remove_names k (n ∷ ns) m d =
    let rest = lookup-remove_names k ns (remove n m) (remove-Distinct n m d) in
    elim (text_eq-cases n k) [
      | inl e ↦ ground (
        arith,
        text_eq_iff n k,
        rest,
        subst (λ x. lookup x (remove n m) ≡ none) e (lookup-remove_self n m d),
      )
      | inr e ↦ ground (arith, rest, lookup-remove_ne n k m (λ p. differ p e))
    ]
  where
    differ : n ≡ k → text_eq n k ≡ false → ⊥
    differ p e = ground (arith, text_eq_iff n k)

vacant_names-Lacks : (k : Text) (m : Dict Room) → Lacks k m → has_name k (vacant_names m) ≡ false
unfolding vacant_names
vacant_names-Lacks k [] h = refl
vacant_names-Lacks k ((n, r) ∷ m) h = ground (arith, text_eq_iff n k, vacant_names-Lacks k m h.1)

has_name-vacant_names :
    (k : Text) (m : Dict Room)
    → Distinct m
    → (if has_name k (vacant_names m) then none else lookup k m) ≡ and_then (lookup k m) occupied
unfolding vacant_names lookup
has_name-vacant_names k [] d = refl
has_name-vacant_names k ((n, r) ∷ m) d = elim (text_eq-cases n k) [
  | inl e ↦ ground (arith, text_eq_iff n k, vacant_names-Lacks k m (subst (λ x. Lacks x m) e d.0))
  | inr e ↦ ground (arith, e, has_name-vacant_names k m d.1)
]

-- `remove_session` lets the session leave each room, and then destroys the rooms with nobody in them:
-- at every name stands what is left of the room that stood there.
pub lookup-remove_session :
    (reg : RoomRegistry) (i : ℕ) (k : Text)
    → Distinct reg.rooms
    → lookup k (remove_session reg i).rooms
      ≡ and_then (lookup k reg.rooms) (λ r. occupied (leave i r))
unfolding remove_session
lookup-remove_session reg i k d =
    let left = leave_all-Distinct i reg.rooms d in
    lookup-remove_names k (vacant_names (leave_all i reg.rooms)) (leave_all i reg.rooms) left
    ∙ has_name-vacant_names k (leave_all i reg.rooms) left
    ∙ rw (lookup-leave_all i k reg.rooms) (under (lookup k reg.rooms))
  where
    under :
        (o : Option Room)
        → and_then (map_option (leave i) o) occupied ≡ and_then o (λ r. occupied (leave i r))
    under none = refl
    under (some r) = refl

pub remove_session-Distinct :
    (reg : RoomRegistry) (i : ℕ) → Distinct reg.rooms → Distinct (remove_session reg i).rooms
unfolding remove_session
remove_session-Distinct reg i d =
    remove_names-Distinct (vacant_names (leave_all i reg.rooms)) _
      (leave_all-Distinct i reg.rooms d)

-- `join` changes the one room, which it makes if it is not there.
pub lookup-join :
    (reg : RoomRegistry) (name : Text) (idx : ℕ) (role : Role) (k : Text)
    → lookup k (join reg name idx role).rooms ≡ (
        if text_eq name k
        then some (enter role idx (unwrap_or (lookup name reg.rooms) (new_room name)))
        else lookup k reg.rooms)
unfolding join
lookup-join reg name idx role k = lookup-insert name k _ reg.rooms

pub join-Distinct :
    (reg : RoomRegistry) (name : Text) (idx : ℕ) (role : Role)
    → Distinct reg.rooms
    → Distinct (join reg name idx role).rooms
unfolding join
join-Distinct reg name idx role d = insert-Distinct name _ reg.rooms d
