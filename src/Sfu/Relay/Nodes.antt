-- ===== src/Sfu/Relay/Nodes.antt =====
-- The nodes that have subscribed to one room, a `HashSet` in crates/sfu/src/relay.rs.
use nodemesh.Base.{
  ◌≡◌, refl, ap, inl, inr, true, false, not, ◌&&◌, ◌||◌, List, [], ◌∷◌, ◌++◌, arith, Bool-cases,
  is_empty,
}
use nodemesh.Text.{Text, text_eq, text_eq_iff, text_eq-cases}
use nodemesh.Sfu.Relay.{contains, insert_node, remove_node}

contains-append :
    (n node : Text) (ns : List Text)
    → contains n (ns ++ (node ∷ [])) ≡ (text_eq node n || contains n ns)
unfolding contains
contains-append n node [] = refl
contains-append n node (m ∷ ns) = ground (arith, contains-append n node ns)

pub contains-insert_node :
    (n node : Text) (ns : List Text)
    → contains n (insert_node node ns) ≡ (text_eq node n || contains n ns)
unfolding insert_node
contains-insert_node n node ns = elim (text_eq-cases node n) [
  | inl e ↦ ground (arith, text_eq_iff node n, contains-append n node ns, ap (λ x. contains x ns) e)
  | inr e ↦ ground (arith, e, contains-append n node ns)
]

pub contains-remove_node :
    (n node : Text) (ns : List Text)
    → contains n (remove_node node ns) ≡ (not (text_eq node n) && contains n ns)
unfolding contains remove_node
contains-remove_node n node [] = ground arith
contains-remove_node n node (m ∷ ns) =
    ground (
      arith,
      text_eq_iff m node,
      text_eq_iff m n,
      text_eq_iff node n,
      contains-remove_node n node ns,
    )

pub empty-contains : (n : Text) (ns : List Text) → is_empty ns ≡ true → contains n ns ≡ false
unfolding contains
empty-contains n [] h = refl
empty-contains n (m ∷ ns) h = cc

pub insert_node-nonempty : (node : Text) (ns : List Text) → is_empty (insert_node node ns) ≡ false
unfolding insert_node contains
insert_node-nonempty node [] = refl
insert_node-nonempty node (m ∷ ns) = ground arith

-- No node stands twice.
abbrev pub NoDup : List Text → Type 0
NoDup [] = Unit
NoDup (n ∷ ns) = (contains n ns ≡ false) × NoDup ns

append-NoDup :
    (node : Text) (ns : List Text) → contains node ns ≡ false → NoDup ns → NoDup (ns ++ (node ∷ []))
unfolding contains
append-NoDup node [] c d = (refl, tt)
append-NoDup node (n ∷ ns) c d = (
  ground (arith, contains-append n node ns, text_eq_iff n node, text_eq_iff node n, d.0),
  append-NoDup node ns (ground arith) d.1,
)

pub insert_node-NoDup : (node : Text) (ns : List Text) → NoDup ns → NoDup (insert_node node ns)
unfolding insert_node
insert_node-NoDup node ns d = elim (Bool-cases (contains node ns)) [
  | inl e ↦ rw e d
  | inr e ↦ rw e (append-NoDup node ns e d)
]

pub remove_node-NoDup : (node : Text) (ns : List Text) → NoDup ns → NoDup (remove_node node ns)
unfolding remove_node
remove_node-NoDup node [] d = tt
remove_node-NoDup node (n ∷ ns) d = elim (Bool-cases (text_eq n node)) [
  | inl e ↦ rw e (remove_node-NoDup node ns d.1)
  | inr e ↦ rw e (
    unfold remove_node in ground (arith, contains-remove_node n node ns, d.0),
    remove_node-NoDup node ns d.1,
  )
]
