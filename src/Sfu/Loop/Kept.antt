-- ===== src/Sfu/Loop/Kept.antt =====
-- What the processing of events keeps: the rooms, the relays, and the room of each session.
use nodemesh.Base.{
  ℕ, zero, suc, ◌≡◌, refl, ap, sym, ◌∙◌, inl, inr, List, [], ◌∷◌, Option, some, ◌==◌, Bool-cases,
  Option-cases, and_then, get_elem?, set, length,
}
use nodemesh.Text.{Text}
use nodemesh.Sfu.Relay.{RelayPacket, subscribers}
use nodemesh.Sfu.Media.{Fabric, fan_out, after_fan_out, to_nodes}
use nodemesh.Sfu.Media.Delivery.{
  get_elem?-set_same, get_elem?-set_other, get_elem?-same, length-set,
}
use nodemesh.Sfu.Placement.{room_at}

-- As many sessions, each in the room it was in.
pub record SameRooms {ℓ} {S : Type ℓ} (room_of : S → Option Text) (ss ss' : List S) : Type ℓ where
  pub same_length : length ss' ≡ length ss
  pub same_room : (i : ℕ) → room_at room_of ss' i ≡ room_at room_of ss i

module _ {ℓ} {S : Type ℓ} (room_of : S → Option Text) where
  pub SameRooms-refl : (ss : List S) → SameRooms room_of ss ss
  SameRooms-refl ss = record { same_length = refl; same_room = λ i. refl }

  pub SameRooms-trans :
      (ss ts us : List S)
      → SameRooms room_of ss ts
      → SameRooms room_of ts us
      → SameRooms room_of ss us
  SameRooms-trans ss ts us a b = record {
    same_length = b.same_length ∙ a.same_length;
    same_room = λ i. b.same_room i ∙ a.same_room i;
  }

  pub cons-SameRooms :
      (s s' : S) (ss ss' : List S)
      → room_of s' ≡ room_of s
      → SameRooms room_of ss ss'
      → SameRooms room_of (s ∷ ss) (s' ∷ ss')
  cons-SameRooms s s' ss ss' e h = record {
    same_length = ap suc h.same_length;
    same_room = λ i. at i;
  }
    where
      at : (i : ℕ) → room_at room_of (s' ∷ ss') i ≡ room_at room_of (s ∷ ss) i
      at zero = e
      at (suc i) = h.same_room i

  pub set-SameRooms :
      (ss : List S) (i : ℕ) (s' : S) {s : S}
      → get_elem? ss i ≡ some s
      → room_of s' ≡ room_of s
      → SameRooms room_of ss (set ss i s')
  set-SameRooms ss i s' {s} e r = record {
    same_length = length-set ss i s';
    same_room = λ j. elim (Bool-cases (i == j)) [
      | inl q ↦
          ap (λ o. and_then o room_of)
            (get_elem?-same (set ss i s') i j q (get_elem?-set_same ss i s' e))
          ∙ r
          ∙ ap (λ o. and_then o room_of) (sym (get_elem?-same ss i j q e))
      | inr q ↦ ap (λ o. and_then o room_of) (get_elem?-set_other ss i j s' q)
    ];
  }

  fan_out-SameRooms {κ} :
      {T : Type κ} (step : S → S × List T)
      → ((s : S) → room_of (step s).0 ≡ room_of s)
      → (ss : List S) (is : List ℕ) → SameRooms room_of ss (fan_out step ss is).0
  unfolding fan_out
  fan_out-SameRooms step h ss [] = SameRooms-refl ss
  fan_out-SameRooms step h ss (i ∷ is) = elim (Option-cases (get_elem? ss i)) [
    | inl e ↦ rw (e, fan_out) (fan_out-SameRooms step h ss is)
    | inr (s, e) ↦
        rw (e, fan_out)
          (SameRooms-trans ss (set ss i (step s).0) _ (set-SameRooms ss i (step s).0 e (h s))
            (fan_out-SameRooms step h (set ss i (step s).0) is))
  ]

-- A step that changes sessions and what is sent, and neither rooms nor subscriptions.
pub record Kept {ℓ κ} {S : Type ℓ} {T : Type κ} (room_of : S → Option Text) (f f' : Fabric S T)
    : Type ℓ where
  pub sessions : SameRooms room_of f.sessions f'.sessions
  pub rooms : f'.rooms ≡ f.rooms
  pub relays : f'.outbound_relays ≡ f.outbound_relays

module _ {ℓ κ} {S : Type ℓ} {T : Type κ} (room_of : S → Option Text) where
  pub Kept-refl : (f : Fabric S T) → Kept room_of f f
  Kept-refl f = record { sessions = SameRooms-refl room_of f.sessions; rooms = refl; relays = refl }

  pub Kept-trans : (f g h : Fabric S T) → Kept room_of f g → Kept room_of g h → Kept room_of f h
  Kept-trans f g h a b = record {
    sessions = SameRooms-trans room_of f.sessions g.sessions h.sessions a.sessions b.sessions;
    rooms = b.rooms ∙ a.rooms;
    relays = b.relays ∙ a.relays;
  }

  pub with_sessions-Kept :
      (f : Fabric S T) (ss : List S) (ts : List T)
      → SameRooms room_of f.sessions ss
      → Kept room_of f (record f { sessions = ss; transmits = ts })
  with_sessions-Kept f ss ts h = record { sessions = h; rooms = refl; relays = refl }

  pub to_nodes-Kept :
      (f : Fabric S T) (room : Text) (p : RelayPacket) → Kept room_of f (to_nodes f room p)
  unfolding to_nodes
  to_nodes-Kept f room p = elim (Option-cases (subscribers f.outbound_relays room)) [
    | inl e ↦ rw (e, to_nodes) (Kept-refl f)
    | inr (nodes, e) ↦
        rw (e, to_nodes)
          (record { sessions = SameRooms-refl room_of f.sessions; rooms = refl; relays = refl })
  ]

  pub after_fan_out-Kept :
      (f : Fabric S T) (step : S → S × List T) (is : List ℕ)
      → ((s : S) → room_of (step s).0 ≡ room_of s)
      → Kept room_of f (after_fan_out f (fan_out step f.sessions is))
  after_fan_out-Kept f step is h =
      with_sessions-Kept f _ _ (fan_out-SameRooms room_of step h f.sessions is)
