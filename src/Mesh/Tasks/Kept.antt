-- ===== src/Mesh/Tasks/Kept.antt =====
-- What the steps of the tasks keep: each open channel is that of a task whose receiver is there, and each
-- sender in the table that of a task which has not marked its peer yet.
use nodemesh.Base.{
  ℕ, ◌≡◌, refl, ap, sym, ◌∙◌, subst, inl, inr, Bool, true, false, [], ◌∷◌, ◌++◌, Option, none, some,
  arith, ==_iff, ==_ne, Option-cases, get_elem?, set, length-append, map_option, if◌then◌else◌,
}
use nodemesh.Text.{Text, text_eq, text_eq_iff, text_eq-cases}
use nodemesh.Dict.{lookup, update, lookup-insert, lookup-update}
use nodemesh.Sfu.Media.Delivery.{length-set}
use nodemesh.Mesh.Peers.{PeerState, register, touch, disconnect, connected_peer}
use nodemesh.Mesh.Tasks.{
  Phase, running, dropped, marked, over, Task, Net, connect, finish, drop_receiver, mark, advance,
}
use nodemesh.Mesh.Tasks.Owned.{
  holds, pending, Owns, IsNet, is_open-close_channel, get_elem?-append, get_elem?-below_end,
  get_elem?-append_new, get_elem?-set_cases, Owns-set, Owns-append,
}

dropping-IsNet :
    (net : Net) (c : ℕ) (t : Task) (p : Phase)
    → get_elem? net.tasks c ≡ some t
    → holds p ≡ false
    → (pending t.phase ≡ true → pending p ≡ true)
    → IsNet net
    → IsNet (record {
      manager = drop_receiver net.manager c;
      tasks = set net.tasks c (record t { phase = p });
    })
dropping-IsNet net c t p e gone keep i = record {
  numbered = i.numbered ∙ sym (length-set net.tasks c (record t { phase = p }));
  opened = λ d u h.
      is_open-close_channel c d net.manager.open_channels
      ∙ elim (get_elem?-set_cases net.tasks c d (record t { phase = p }) e h) [
        | inl (same, q) ↦
            ground (arith, ==_iff c d, same) ∙ sym gone ∙ ap (λ (x : Task). holds x.phase) q
        | inr (b, g) ↦ rw b (i.opened d u g)
      ];
  owned = λ name s d l o. Owns-set net.tasks c d t p name e (λ n. keep) (i.owned name s d l o);
}

marking-IsNet :
    (net : Net) (c : ℕ) (t : Task) (p : Phase)
    → get_elem? net.tasks c ≡ some t
    → holds t.phase ≡ holds p
    → IsNet net
    → IsNet (record {
      manager = mark net.manager t.peer_name;
      tasks = set net.tasks c (record t { phase = p });
    })
marking-IsNet net c t p e same i = record {
  numbered = i.numbered ∙ sym (length-set net.tasks c (record t { phase = p }));
  opened = λ d u h. elim (get_elem?-set_cases net.tasks c d (record t { phase = p }) e h) [
    | inl (k, q) ↦
        i.opened d t (subst (λ j. get_elem? net.tasks j ≡ some t) k e)
        ∙ same
        ∙ ap (λ (x : Task). holds x.phase) q
    | inr (b, g) ↦ i.opened d u g
  ];
  owned = λ name s d l o. elim (text_eq-cases t.peer_name name) [
    | inl n ↦ absurd (cleared name s d (lookup name net.manager.peers) (sym (known name s n l)) o)
    | inr n ↦
        Owns-set net.tasks c d t p name e
          (λ k. absurd (ground (arith, n, text_eq_iff t.peer_name name, k)))
          (i.owned name s d
            (sym (rw n at (lookup-update t.peer_name name disconnect net.manager.peers)) ∙ l) o)
  ];
}
  where
    known :
        (name : Text) (s : PeerState)
        → t.peer_name ≡ name
        → lookup name (update t.peer_name disconnect net.manager.peers) ≡ some s
        → some s ≡ map_option disconnect (lookup name net.manager.peers)
    known name s n l =
        sym l
        ∙ lookup-update t.peer_name name disconnect net.manager.peers
        ∙ rw ((text_eq_iff t.peer_name name).1 n) refl

    cleared :
        (name : Text) (s : PeerState) (d : ℕ) (o : Option PeerState)
        → map_option disconnect o ≡ some s
        → s.outbound_tx ≡ some d
        → ⊥
    cleared name s d none h q = ground (arith, h)
    cleared name s d (some x) h q = ground (arith, h, q)

pub connect-IsNet :
    (net : Net) (inbound : Bool) (name ip : Text) (now : ℕ)
    → IsNet net
    → IsNet (connect net inbound name ip now)
unfolding connect register
connect-IsNet net inbound name ip now i = record {
  numbered = omega (arith, i.numbered, length-append net.tasks (task ∷ []));
  opened = λ d u h. elim (get_elem?-append net.tasks task d h) [
    | inl g ↦
        rw
          (==_ne net.manager.next_channel d
            (λ q. omega (arith, q, i.numbered, get_elem?-below_end net.tasks d g)))
          (i.opened d u g)
    | inr (k, q) ↦
        rw ((==_iff net.manager.next_channel d).1 (i.numbered ∙ sym k))
          (ap (λ (x : Task). holds x.phase) q)
  ];
  owned = λ other s d l o.
      let found =
        lookup-insert name other (connected_peer name ip now net.manager.next_channel)
          net.manager.peers in
      elim (text_eq-cases name other) [
        | inl n ↦ (
          task,
          subst (λ k. get_elem? (net.tasks ++ (task ∷ [])) k ≡ some task)
              (sym i.numbered ∙ channel other s d n (sym found ∙ l) o)
              (get_elem?-append_new net.tasks task),
          n,
          refl,
        )
        | inr n ↦ Owns-append net.tasks task d other (i.owned other s d (sym (rw n at found) ∙ l) o)
      ];
}
  where
    task : Task
    task = record { peer_name = name; inbound = inbound; phase = running }

    channel :
        (other : Text) (s : PeerState) (d : ℕ)
        → name ≡ other
        → (if text_eq name other
            then some (connected_peer name ip now net.manager.next_channel)
            else lookup other net.manager.peers)
          ≡ some s
        → s.outbound_tx ≡ some d
        → net.manager.next_channel ≡ d
    channel other s d n h o = ground (arith, (text_eq_iff name other).1 n, h, o)

advance-IsNet :
    (net : Net) (c : ℕ) (t : Task) (inbound : Bool) (p : Phase)
    → t.phase ≡ p
    → get_elem? net.tasks c ≡ some t
    → IsNet net
    → IsNet (advance net c t inbound p)
advance-IsNet net c t false running q e i = dropping-IsNet net c t dropped e refl (λ k. refl) i
advance-IsNet net c t false dropped q e i = marking-IsNet net c t over e (ap holds q) i
advance-IsNet net c t false marked q e i = i
advance-IsNet net c t false over q e i = i
advance-IsNet net c t true running q e i = marking-IsNet net c t marked e (ap holds q) i
advance-IsNet net c t true dropped q e i = i
advance-IsNet net c t true marked q e i =
    dropping-IsNet net c t over e refl (λ k. absurd (ground (arith, ap pending q, k))) i
advance-IsNet net c t true over q e i = i

pub finish-IsNet : (net : Net) (c : ℕ) → IsNet net → IsNet (finish net c)
unfolding finish
finish-IsNet net c i = elim (Option-cases (get_elem? net.tasks c)) [
  | inl e ↦ rw (e, finish) i
  | inr (t, e) ↦ rw (e, finish) (advance-IsNet net c t t.inbound t.phase refl e i)
]

pub touch-IsNet :
    (net : Net) (name : Text) (now : ℕ)
    → IsNet net
    → IsNet (record net { manager = touch net.manager name now })
unfolding touch
touch-IsNet net name now i = record {
  numbered = i.numbered;
  opened = i.opened;
  owned = λ other s d l o.
      let found =
        lookup-update name other (λ x. record x { last_seen = some now }) net.manager.peers in
      elim (text_eq-cases name other) [
        | inl n ↦ seen other s d (sym (rw ((text_eq_iff name other).1 n) at found) ∙ l) o
        | inr n ↦ i.owned other s d (sym (rw n at found) ∙ l) o
      ];
}
  where
    seen :
        (other : Text) (s : PeerState) (d : ℕ)
        → map_option
            (λ (x : PeerState). record x { last_seen = some now })
            (lookup other net.manager.peers)
          ≡ some s
        → s.outbound_tx ≡ some d
        → Owns net.tasks d other
    seen other s d h o = elim (Option-cases (lookup other net.manager.peers)) [
      | inl e ↦ absurd (ground (arith, rw e at h))
      | inr (x, e) ↦ i.owned other x d e (ground (arith, rw e at h, o))
    ]
