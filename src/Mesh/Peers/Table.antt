-- ===== src/Mesh/Peers/Table.antt =====
-- What every holder of the lock keeps of the table.
use nodemesh.Base.{
  ℕ, suc, ◌<◌, ◌≡◌, refl, sym, ◌∙◌, inl, inr, List, [], ◌∷◌, ◌++◌, Option, none, some, arith,
  if◌then◌else◌, Bool-cases, Option-cases, subst, map_option, is_some,
}
use nodemesh.Text.{Text, text_eq, text_eq_iff, text_eq-cases}
use nodemesh.Dict.{lookup, update, lookup-insert, lookup-update}
use nodemesh.Amp.Message.{AmpMessage}
use nodemesh.Mesh.Peers.{
  ok, close_channel, is_open, push, send_to, PeerState, PeerManager, new, connected_peer, register,
  touch, disconnect, mark_disconnected,
}

abbrev pub ChannelBelow : ℕ → Option ℕ → Type 0
ChannelBelow n none = Unit
ChannelBelow n (some c) = c < n

-- A peer stands under its name, is connected exactly when it has a sender, and its channel was made
-- before.
pub record IsPeer (n : ℕ) (k : Text) (s : PeerState) : Type 0 where
  pub named : s.name ≡ k
  pub connected_iff : s.connected ≡ is_some s.outbound_tx
  pub channel_below : ChannelBelow n s.outbound_tx

pub record ArePeers (m : PeerManager) : Type 0 where
  pub each : (k : Text) (s : PeerState) → lookup k m.peers ≡ some s → IsPeer m.next_channel k s

new-ArePeers : ArePeers new
unfolding lookup
new-ArePeers = record { each = λ k s e. absurd (cc e) }

ChannelBelow-suc : (n : ℕ) (o : Option ℕ) → ChannelBelow n o → ChannelBelow (suc n) o
ChannelBelow-suc n none h = tt
ChannelBelow-suc n (some c) h = omega arith

IsPeer-suc : (n : ℕ) (k : Text) (s : PeerState) → IsPeer n k s → IsPeer (suc n) k s
IsPeer-suc n k s v = record {
  named = v.named;
  connected_iff = v.connected_iff;
  channel_below = ChannelBelow-suc n s.outbound_tx v.channel_below;
}

register-ArePeers :
    (m : PeerManager) (name ip : Text) (now : ℕ) → ArePeers m → ArePeers (register m name ip now)
unfolding register
register-ArePeers m name ip now a = record {
  each = λ k s e.
      let found = lookup-insert name k (connected_peer name ip now m.next_channel) m.peers in
      elim (text_eq-cases name k) [
        | inl p ↦
            let same : connected_peer name ip now m.next_channel ≡ s =
              ground (arith, text_eq_iff name k, found) in
            subst (IsPeer (suc m.next_channel) k) same
              (record { named = p; connected_iff = refl; channel_below = omega arith })
        | inr p ↦ IsPeer-suc m.next_channel k s (a.each k s (ground (arith, p, found)))
      ];
}

update-ArePeers :
    (m : PeerManager) (name : Text) (f : PeerState → PeerState) (open_channels : List ℕ)
    → ((k : Text) (s : PeerState) → IsPeer m.next_channel k s → IsPeer m.next_channel k (f s))
    → ArePeers m
    → ArePeers (record m { peers = update name f m.peers; open_channels = open_channels })
update-ArePeers m name f open_channels keep a = record {
  each = λ k s e. go k s (lookup k m.peers) refl (sym (lookup-update name k f m.peers) ∙ e);
}
  where
    go :
        (k : Text) (s : PeerState) (o : Option PeerState)
        → lookup k m.peers ≡ o
        → (if text_eq name k then map_option f o else o) ≡ some s
        → IsPeer m.next_channel k s
    go k s none found h = absurd (ground arith)
    go k s (some x) found h = elim (Bool-cases (text_eq name k)) [
      | inl p ↦
          let same : f x ≡ s = ground (arith, p) in
          subst (IsPeer m.next_channel k) same (keep k x (a.each k x found))
      | inr p ↦
          let same : x ≡ s = ground (arith, p) in
          subst (IsPeer m.next_channel k) same (a.each k x found)
    ]

-- What the tasks do to the table, in any order: a task of an outbound connection or of an inbound one
-- that owns its sends registers and, when its connection ends, marks the peer; a read-only one notes
-- the time; a send goes through a channel that is open.
pub data Step (m : PeerManager) : PeerManager → Type 0 where
  registers : (name ip : Text) (now : ℕ) → Step m (register m name ip now)
  touches : (name : Text) (now : ℕ) → Step m (touch m name now)
  closes : (name : Text) (channel : ℕ) → Step m (mark_disconnected m name channel)
  sends :
      {m' : PeerManager} (name : Text) (msg : AmpMessage) → send_to m name msg ≡ ok m' → Step m m'

pub data Reach (m : PeerManager) : PeerManager → Type 0 where
  here : Reach m m
  next : {t u : PeerManager} → Reach m t → Step t u → Reach m u

push-ArePeers :
    (m : PeerManager) (channel : ℕ) (name : Text) (msg : AmpMessage) {m' : PeerManager}
    → push m channel name msg ≡ ok m'
    → ArePeers m
    → ArePeers m'
unfolding push
push-ArePeers m channel name msg {m'} h a = elim (Bool-cases (is_open channel m.open_channels)) [
  | inl e ↦
      let same : record m { sent = m.sent ++ ((channel, msg) ∷ []) } ≡ m' = ground (arith, e) in
      subst ArePeers same (record { each = a.each })
  | inr e ↦ absurd (ground (arith, e))
]

send_to-ArePeers :
    (m : PeerManager) (name : Text) (msg : AmpMessage) {m' : PeerManager}
    → send_to m name msg ≡ ok m'
    → ArePeers m
    → ArePeers m'
unfolding send_to
send_to-ArePeers m name msg {m'} h a = elim (Option-cases (lookup name m.peers)) [
  | inl e ↦ absurd (ground (arith, e))
  | inr (s, e) ↦ elim (Option-cases s.outbound_tx) [
    | inl f ↦ absurd (ground (arith, e, f))
    | inr (c, f) ↦ push-ArePeers m c name msg {m' = m'} (ground (arith, e, f)) a
  ]
]

Step-ArePeers : {m m' : PeerManager} → Step m m' → ArePeers m → ArePeers m'
Step-ArePeers {m} (registers name ip now) a = register-ArePeers m name ip now a
Step-ArePeers {m} (touches name now) a =
    unfold touch in
    update-ArePeers m name (λ s. record s { last_seen = some now }) m.open_channels
      (λ k s v. record {
        named = v.named;
        connected_iff = v.connected_iff;
        channel_below = v.channel_below;
      })
      a
Step-ArePeers {m} (closes name channel) a =
    unfold mark_disconnected in
    update-ArePeers m name disconnect (close_channel channel m.open_channels)
      (λ k s v. record { named = v.named; connected_iff = refl; channel_below = tt }) a
Step-ArePeers {m} (sends name msg h) a = send_to-ArePeers m name msg h a

Reach-ArePeers : {m m' : PeerManager} → ArePeers m → Reach m m' → ArePeers m'
Reach-ArePeers a here = a
Reach-ArePeers a (next r s) = Step-ArePeers s (Reach-ArePeers a r)

-- However the tasks interleave, from an empty table: every peer stands under its name, is marked as
-- connected exactly when it has a sender, and that sender's channel is one that was made.
pub Reach-new-ArePeers : {m : PeerManager} → Reach new m → ArePeers m
Reach-new-ArePeers r = Reach-ArePeers new-ArePeers r
