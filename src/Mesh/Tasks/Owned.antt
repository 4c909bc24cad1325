-- ===== src/Mesh/Tasks/Owned.antt =====
-- The task of a channel, and what a new task or a new phase changes of it.
use nodemesh.Base.{
  ℕ, zero, suc, ◌<◌, ◌≡◌, ◌≢◌, ◌⊎◌, refl, ap, sym, ◌∙◌, subst, inl, inr, Bool, true, false, ◌&&◌,
  not, List, [], ◌∷◌, ◌++◌, some, arith, ◌==◌, ==_iff, Bool-cases, get_elem?, set, length,
}
use nodemesh.Text.{Text}
use nodemesh.Dict.{lookup}
use nodemesh.Sfu.Media.Delivery.{get_elem?-set_same, get_elem?-set_other}
use nodemesh.Mesh.Peers.{PeerState, close_channel, is_open}
use nodemesh.Mesh.Tasks.{Phase, running, dropped, marked, over, Task, Net}

-- The receiver is there; the peer is not marked.
abbrev pub holds : Phase → Bool
holds running = true
holds marked = true
holds dropped = false
holds over = false

abbrev pub pending : Phase → Bool
pending running = true
pending dropped = true
pending marked = false
pending over = false

-- The task of a channel, which has not marked its peer.
abbrev pub Owns : List Task → ℕ → Text → Type 0
Owns tasks c name =
    (t : Task) × (get_elem? tasks c ≡ some t) × (t.peer_name ≡ name) × (pending t.phase ≡ true)

pub record IsNet (net : Net) : Type 0 where
  pub numbered : net.manager.next_channel ≡ length net.tasks
  pub opened :
      (c : ℕ) (t : Task)
      → get_elem? net.tasks c ≡ some t
      → is_open c net.manager.open_channels ≡ holds t.phase
  pub owned :
      (name : Text) (s : PeerState) (c : ℕ)
      → lookup name net.manager.peers ≡ some s
      → s.outbound_tx ≡ some c
      → Owns net.tasks c name

differ : (i j : ℕ) → i ≢ j → (i == j) ≡ false
differ i j ne = elim (Bool-cases (i == j)) [ inl e ↦ absurd (ne ((==_iff i j).0 e)) | inr e ↦ e ]

pub is_open-close_channel :
    (c d : ℕ) (cs : List ℕ) → is_open d (close_channel c cs) ≡ (not (c == d) && is_open d cs)
is_open-close_channel c d [] = ground arith
is_open-close_channel c d (e ∷ cs) =
    ground (arith, is_open-close_channel c d cs, ==_iff e c, ==_iff e d, ==_iff c d)

pub get_elem?-append :
    (ts : List Task) (t : Task) (c : ℕ) {s : Task}
    → get_elem? (ts ++ (t ∷ [])) c ≡ some s
    → (get_elem? ts c ≡ some s) ⊎ ((c ≡ length ts) × (t ≡ s))
get_elem?-append [] t zero h = inr (refl, ground (arith, h))
get_elem?-append [] t (suc c) h = absurd (ground (arith, h))
get_elem?-append (x ∷ ts) t zero h = inl h
get_elem?-append (x ∷ ts) t (suc c) h = elim (get_elem?-append ts t c h) [
  | inl e ↦ inl e
  | inr (e, q) ↦ inr (ap suc e, q)
]

pub get_elem?-below_end :
    (ts : List Task) (c : ℕ) {s : Task} → get_elem? ts c ≡ some s → c < length ts
get_elem?-below_end [] c h = absurd (ground (arith, h))
get_elem?-below_end (x ∷ ts) zero h = omega arith
get_elem?-below_end (x ∷ ts) (suc c) h = omega (arith, get_elem?-below_end ts c h)

get_elem?-append_old :
    (ts : List Task) (t : Task) (c : ℕ) {s : Task}
    → get_elem? ts c ≡ some s
    → get_elem? (ts ++ (t ∷ [])) c ≡ some s
get_elem?-append_old [] t c h = absurd (ground (arith, h))
get_elem?-append_old (x ∷ ts) t zero h = h
get_elem?-append_old (x ∷ ts) t (suc c) h = get_elem?-append_old ts t c h

pub get_elem?-append_new :
    (ts : List Task) (t : Task) → get_elem? (ts ++ (t ∷ [])) (length ts) ≡ some t
get_elem?-append_new [] t = refl
get_elem?-append_new (x ∷ ts) t = get_elem?-append_new ts t

-- What stands at an index after a write, told from the index.
pub get_elem?-set_cases :
    (ts : List Task) (c d : ℕ) (v : Task) {t u : Task}
    → get_elem? ts c ≡ some t
    → get_elem? (set ts c v) d ≡ some u
    → ((c ≡ d) × (v ≡ u)) ⊎ (((c == d) ≡ false) × (get_elem? ts d ≡ some u))
get_elem?-set_cases ts c d v {t} {u} e h = elim (Bool-cases (c == d)) [
  | inl q ↦
      let same : c ≡ d = (==_iff c d).0 q in
      inl (
        same,
        ground (
          arith,
          get_elem?-set_same ts c v e,
          subst (λ k. get_elem? (set ts c v) k ≡ some u) (sym same) h,
        ),
      )
  | inr q ↦ inr (q, sym (get_elem?-set_other ts c d v q) ∙ h)
]

pub Owns-set :
    (ts : List Task) (c d : ℕ) (t : Task) (p : Phase) (name : Text)
    → get_elem? ts c ≡ some t
    → (t.peer_name ≡ name → pending t.phase ≡ true → pending p ≡ true)
    → Owns ts d name
    → Owns (set ts c (record t { phase = p })) d name
Owns-set ts c d t p name e keep (u, g, n, q) = elim (Bool-cases (c == d)) [
  | inl b ↦
      let same : c ≡ d = (==_iff c d).0 b in
      let it : u ≡ t = ground (arith, g, subst (λ k. get_elem? ts k ≡ some t) same e) in
      let named : t.peer_name ≡ name = subst (λ (x : Task). x.peer_name ≡ name) it n in
      (
        record t { phase = p },
        subst (λ k. get_elem? (set ts c (record t { phase = p })) k ≡ some (record t { phase = p }))
            same (get_elem?-set_same ts c (record t { phase = p }) e),
        named,
        keep named (subst (λ (x : Task). pending x.phase ≡ true) it q),
      )
  | inr b ↦ (u, get_elem?-set_other ts c d _ b ∙ g, n, q)
]

pub Owns-append :
    (ts : List Task) (t : Task) (d : ℕ) (name : Text)
    → Owns ts d name
    → Owns (ts ++ (t ∷ [])) d name
Owns-append ts t d name (u, g, n, q) = (u, get_elem?-append_old ts t d g, n, q)
