-- ===== src/Sfu/Loop/Order/Runs.antt =====
-- Runs of the loop with the same inputs, in which the maps are iterated in different orders.
use nodemesh.Base.{ℕ, ◌≡◌, ◌∙◌, refl, ap, sym, subst, List, Option, some, unwrap_or}
use nodemesh.Text.{Text}
use nodemesh.Dict.Order.{Agree-refl, Agree-trans}
use nodemesh.Sfu.Sessions.{Sessions, KeepsRooms}
use nodemesh.Sfu.Loop.{State, Arm, Turned, running, turn}
use nodemesh.Sfu.Loop.Invariant.{start, Reaches, begins, turns, Reaches_lem}
use nodemesh.Sfu.Loop.Order.Turns.{turn-reorder}
use nodemesh.Sfu.Loop.Order.Alike.{
  AreAlike, AreAlikeTurned, EndAlike, AreAlike-IsReordering, AreAlike-reorder,
}

module _ (a : Sessions) (encode : List ℕ → Text) (decode : Text → Option (List ℕ)) where
  -- Two runs that take the same turns at the same times. Between its turns the second one may have its
  -- maps reordered.
  pub data Shuffled : State a → State a → Type 0 where
    both_begin : Shuffled (start a) (start a)
    both_turn :
        {f g f' g' : State a} (now : ℕ) (arm : Arm a.Packet)
        → Shuffled f g
        → turn a encode decode now f arm ≡ some (running f')
        → turn a encode decode now g arm ≡ some (running g')
        → Shuffled f' g'
    reordered : {f g h : State a} → Shuffled f g → AreAlike a g h → Shuffled f h

  Shuffled-Reaches : {f g : State a} → Shuffled f g → Reaches a encode decode f
  Shuffled-Reaches both_begin = begins
  Shuffled-Reaches (both_turn now arm s e e') = turns now arm (Shuffled-Reaches s) e
  Shuffled-Reaches (reordered s h) = Shuffled-Reaches s

  AreAlike-trans : (f g h : State a) → AreAlike a f g → AreAlike a g h → AreAlike a f h
  AreAlike-trans f g h p q = record {
    same_sessions = q.same_sessions ∙ p.same_sessions;
    same_events = q.same_events ∙ p.same_events;
    same_transmits = q.same_transmits ∙ p.same_transmits;
    same_rooms = Agree-trans p.same_rooms q.same_rooms;
    same_relays = Agree-trans p.same_relays q.same_relays;
  }

  module _ (keeps : KeepsRooms a) where
    turn-EndAlike :
        (f g : State a) (now : ℕ) (arm : Arm a.Packet)
        → Reaches a encode decode f
        → AreAlike a f g
        → EndAlike a (turn a encode decode now f arm) (turn a encode decode now g arm)
    turn-EndAlike f g now arm r h =
        subst (λ x. EndAlike a (turn a encode decode now f arm) (turn a encode decode now x arm))
          (AreAlike-reorder a f g h)
          (turn-reorder a keeps encode decode now f g.rooms g.outbound_relays
            (AreAlike-IsReordering a f g h) arm (Reaches_lem a encode decode keeps r).0)

    both_running :
        {f' g' : State a} (o o' : Option (Turned (State a)))
        → o ≡ some (running f')
        → o' ≡ some (running g')
        → EndAlike a o o'
        → AreAlike a f' g'
    both_running {f'} {g'} o o' e e' (t, t', q, q', h) =
        alike t t' (ap (λ x. unwrap_or x t) (sym q ∙ e)) (ap (λ x. unwrap_or x t') (sym q' ∙ e')) h
      where
        alike :
            (t t' : Turned (State a))
            → t ≡ running f'
            → t' ≡ running g'
            → AreAlikeTurned a t t'
            → AreAlike a f' g'
        alike t t' p p' h =
            subst (λ x. AreAlikeTurned a (running f') x) p' (subst (λ x. AreAlikeTurned a x t') p h)

    Shuffled-AreAlike : {f g : State a} → Shuffled f g → AreAlike a f g
    Shuffled-AreAlike both_begin = record {
      same_sessions = refl;
      same_events = refl;
      same_transmits = refl;
      same_rooms = Agree-refl tt;
      same_relays = Agree-refl tt;
    }
    Shuffled-AreAlike (both_turn {f} {g} now arm s e e') =
        both_running _ _ e e' (turn-EndAlike f g now arm (Shuffled-Reaches s) (Shuffled-AreAlike s))
    Shuffled-AreAlike (reordered {f} {g} {h} s k) = AreAlike-trans f g h (Shuffled-AreAlike s) k

    -- The order in which the maps of rooms and relays are iterated does not matter. Two runs of the
    -- loop with the same inputs, where the maps of the second are reordered at will between its turns,
    -- have the same sessions, events and packets to send at every point, and maps with the same
    -- entries; and whatever comes next, both go on, or both stop, and are alike again. Reordered are the
    -- maps, not the lists of nodes or of indices in their entries. The operations on sessions have to
    -- leave them in their rooms.
    pub turn-Shuffled :
        {f g : State a}
        → Shuffled f g
        → AreAlike a f g
          × ((now : ℕ) (arm : Arm a.Packet)
              → (t : Turned (State a)) × (t' : Turned (State a)) × (turn a encode decode now f arm
                  ≡ some t)
                × (turn a encode decode now g arm ≡ some t')
                × AreAlikeTurned a t t')
    turn-Shuffled {f} {g} s =
        let h = Shuffled-AreAlike s in
        (h, λ now arm. turn-EndAlike f g now arm (Shuffled-Reaches s) h)
