-- ===== src/Mesh/Tasks/Channels.antt =====
-- Every sender in the table is that of a task which has not marked the peer yet.
use nodemesh.Base.{
  ℕ, ◌≡◌, ◌⊎◌, refl, ap, sym, ◌∙◌, inl, inr, Bool, true, [], ◌∷◌, ◌++◌, some, arith, Bool-cases,
  Option-cases, get_elem?, if◌then◌else◌,
}
use nodemesh.Text.{Text}
use nodemesh.Dict.{lookup}
use nodemesh.Amp.Message.{AmpMessage}
use nodemesh.Mesh.Peers.{PeerState, PeerManager, ok, err, closed, is_open, push, send_to}
use nodemesh.Mesh.Tasks.{
  Phase, running, dropped, marked, over, Task, Net, NetStep, connects, finishes, touches, sends,
  Reached, start, next,
}
use nodemesh.Mesh.Tasks.Owned.{pending, IsNet}
use nodemesh.Mesh.Tasks.Kept.{connect-IsNet, finish-IsNet, touch-IsNet}

-- A send that succeeds changes only what was sent.
send_to-ok :
    (m : PeerManager) (name : Text) (msg : AmpMessage) {m' : PeerManager}
    → send_to m name msg ≡ ok m'
    → (m'.peers ≡ m.peers)
      × (m'.next_channel ≡ m.next_channel)
      × (m'.open_channels ≡ m.open_channels)
unfolding send_to push
send_to-ok m name msg {m'} h = elim (Option-cases (lookup name m.peers)) [
  | inl e ↦ absurd (ground (arith, rw (e, send_to) at h))
  | inr (s, e) ↦ elim (Option-cases s.outbound_tx) [
    | inl f ↦ absurd (ground (arith, rw (f, send_to) at (rw (e, send_to) at h)))
    | inr (c, f) ↦ elim (Bool-cases (is_open c m.open_channels)) [
      | inl b ↦
          let same : record m { sent = m.sent ++ ((c, msg) ∷ []) } ≡ m' =
            ground (arith, rw b at (rw (f, send_to) at (rw (e, send_to) at h))) in
          (
            ap (λ (x : PeerManager). x.peers) (sym same),
            ap (λ (x : PeerManager). x.next_channel) (sym same),
            ap (λ (x : PeerManager). x.open_channels) (sym same),
          )
      | inr b ↦ absurd (ground (arith, rw b at (rw (f, send_to) at (rw (e, send_to) at h))))
    ]
  ]
]

sends-IsNet :
    (net : Net) (m : PeerManager)
    → m.peers ≡ net.manager.peers
    → m.next_channel ≡ net.manager.next_channel
    → m.open_channels ≡ net.manager.open_channels
    → IsNet net
    → IsNet (record net { manager = m })
sends-IsNet net m p n o i = record {
  numbered = n ∙ i.numbered;
  opened = λ c t g. ap (is_open c) o ∙ i.opened c t g;
  owned = λ name s c l. i.owned name s c (ap (lookup name) (sym p) ∙ l);
}

NetStep-IsNet : {net net' : Net} → NetStep net net' → IsNet net → IsNet net'
NetStep-IsNet {net} (connects inbound name ip now) i = connect-IsNet net inbound name ip now i
NetStep-IsNet {net} (finishes c) i = finish-IsNet net c i
NetStep-IsNet {net} (touches name now) i = touch-IsNet net name now i
NetStep-IsNet {net} (sends {m} name msg h) i =
    let (p, n, o) = send_to-ok net.manager name msg h in sends-IsNet net m p n o i

pub Reached-IsNet : {net : Net} → Reached net → IsNet net
unfolding lookup
Reached-IsNet start = record {
  numbered = refl;
  opened = λ c t g. absurd (ground (arith, g));
  owned = λ name s c l. absurd (ground (arith, l));
}
Reached-IsNet (next r s) = NetStep-IsNet s (Reached-IsNet r)

Phase-pending : (p : Phase) → pending p ≡ true → (p ≡ running) ⊎ (p ≡ dropped)
Phase-pending running h = inl refl
Phase-pending dropped h = inr refl
Phase-pending marked h = absurd (ground (arith, h))
Phase-pending over h = absurd (ground (arith, h))

send_to-some :
    (m : PeerManager) (name : Text) (msg : AmpMessage) {s : PeerState} {c : ℕ} {b : Bool}
    → lookup name m.peers ≡ some s
    → s.outbound_tx ≡ some c
    → is_open c m.open_channels ≡ b
    → send_to m name msg
      ≡ (if b then ok (record m { sent = m.sent ++ ((c, msg) ∷ []) }) else err (closed name))
unfolding send_to push
send_to-some m name msg l o b = rw (l, send_to) (rw (o, send_to) (rw b refl))

-- However the tasks of the connections are interleaved, a peer that has a sender has that of a task for
-- this peer. While the connection of that task is up, a message for the peer goes last into its channel;
-- it is refused as closed exactly when the task has dropped its receiver and not marked the peer yet.
pub send_to-Reached :
    {net : Net} (name : Text) (msg : AmpMessage) {s : PeerState} {c : ℕ}
    → Reached net
    → lookup name net.manager.peers ≡ some s
    → s.outbound_tx ≡ some c
    → (t : Task) × (get_elem? net.tasks c ≡ some t)
      × (t.peer_name ≡ name)
      × (((t.phase ≡ running)
            × (send_to net.manager name msg
                ≡ ok (record net.manager { sent = net.manager.sent ++ ((c, msg) ∷ []) })))
          ⊎ ((t.phase ≡ dropped) × (send_to net.manager name msg ≡ err (closed name))))
send_to-Reached {net} name msg {s} {c} r l o =
    let i = Reached-IsNet r in
    let (t, g, n, q) = i.owned name s c l o in
    let sent = send_to-some net.manager name msg l o (i.opened c t g) in
    (
      t,
      g,
      n,
      elim (Phase-pending t.phase q) [
        | inl p ↦ inl (p, sent ∙ rw p refl)
        | inr p ↦ inr (p, sent ∙ rw p refl)
      ],
    )
