-- ===== src/Sfu/Relay.antt =====
-- crates/sfu/src/relay.rs: relay packets, and the tables of outbound and inbound relays. A `HashSet`
-- is a list in the order of its iteration.
pub mod Nodes
pub mod Table
use nodemesh.Base.{
  ℕ, ◌%◌, ◌^◌, Bool, true, false, not, ◌||◌, List, [], ◌∷◌, ◌++◌, Option, none, some, if◌then◌else◌,
  and_then, unwrap_or, retain, is_empty,
}
use nodemesh.Text.{Text, codes, text_eq}
use nodemesh.Dict.{Dict, lookup, insert, remove}

-- The two kinds of media that the source matches on.
pub data MediaKind : Type 0 where
  audio video : MediaKind

pub record RelayPacket : Type 0 where
  pub room : Text
  pub kind : Text
  pub pt : ℕ
  pub time : ℕ
  pub wallclock_ms : ℕ
  pub encoded : Text

abbrev pub kind_name : MediaKind → Text
kind_name audio = codes "audio"
kind_name video = codes "video"

-- `encode` is `BASE64_STANDARD.encode`, and `now_ms` the clock's milliseconds.
unfoldable pub from_media_data :
    (encode : List ℕ → Text) (now_ms : ℕ) (room : Text) (kind : MediaKind) (pt time : ℕ)
    → List ℕ
    → RelayPacket
from_media_data encode now_ms room kind pt time bytes = record {
  room = room;
  kind = kind_name kind;
  pt = pt;
  time = time;
  wallclock_ms = now_ms % 2 ^ 64;
  encoded = encode bytes;
}

-- `decode` is `BASE64_STANDARD.decode`.
unfoldable pub decode_data : (Text → Option (List ℕ)) → RelayPacket → Option (List ℕ)
decode_data decode p = decode p.encoded

unfoldable pub media_kind : RelayPacket → Option MediaKind
unfolding text_eq
media_kind p =
    if text_eq p.kind (codes "audio")
    then some audio
    else if text_eq p.kind (codes "video")
    then some video
    else none

unfoldable pub contains : Text → List Text → Bool
unfolding text_eq
contains node [] = false
contains node (n ∷ ns) = text_eq n node || contains node ns

-- `HashSet::insert` and `HashSet::remove`.
unfoldable pub insert_node : Text → List Text → List Text
unfolding contains
insert_node node ns = if contains node ns then ns else ns ++ (node ∷ [])

unfoldable pub remove_node : Text → List Text → List Text
unfolding text_eq
remove_node node ns = retain (λ n. not (text_eq n node)) ns

pub record OutboundRelays : Type 0 where
  pub subscriptions : Dict (List Text)

abbrev pub new_outbound : OutboundRelays
new_outbound = record { subscriptions = [] }

unfoldable pub subscribe : OutboundRelays → Text → Text → OutboundRelays
unfolding lookup insert insert_node
subscribe r room node =
    let nodes = unwrap_or (lookup room r.subscriptions) [] in
    record r { subscriptions = insert room (insert_node node nodes) r.subscriptions }

unfoldable pub unsubscribe : OutboundRelays → Text → Text → OutboundRelays
unfolding lookup insert remove remove_node
unsubscribe r room node = elim (lookup room r.subscriptions) [
  | none ↦ r
  | some nodes ↦
      let left = remove_node node nodes in
      if is_empty left
      then record r { subscriptions = remove room r.subscriptions }
      else record r { subscriptions = insert room left r.subscriptions }
]

unfoldable pub subscribers : OutboundRelays → Text → Option (List Text)
unfolding lookup
subscribers r room = lookup room r.subscriptions

pub record InboundRelays : Type 0 where
  pub sources : Dict Text

abbrev pub new_inbound : InboundRelays
new_inbound = record { sources = [] }

unfoldable pub register : InboundRelays → Text → Text → InboundRelays
unfolding insert
register r room source_node = record r { sources = insert room source_node r.sources }

unfoldable pub remove_source : InboundRelays → Text → InboundRelays
unfolding remove
remove_source r room = record r { sources = remove room r.sources }

unfoldable pub source_for : InboundRelays → Text → Option Text
unfolding lookup
source_for r room = lookup room r.sources
