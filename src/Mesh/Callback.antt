-- ===== src/Mesh/Callback.antt =====
-- crates/meshd/src/bridge/callback.rs: a message goes to Laravel by an HTTP POST. The exchange is a
-- parameter: the status of the response, `none` where there is none.
use nodemesh.Base.{ℕ, Bool, ◌&&◌, Option, none, some, if◌then◌else◌, leb, unwrap_or}
use nodemesh.Text.{Text, codes}
use nodemesh.Amp.Message.{AmpMessage, to_wire, get, from_addr}

pub record Post : Type 0 where
  pub url : Text
  pub content_type : Text
  pub mesh_from : Text
  pub mesh_peer : Text
  pub body : Text

pub data CallbackResult : Type 0 where
  ok : CallbackResult
  failed : CallbackResult
  returned : (status : ℕ) → CallbackResult

-- The request that is made of a message.
unfoldable pub callback_post : (callback_url peer_name : Text) → AmpMessage → Post
unfolding to_wire get
callback_post callback_url peer_name msg = record {
  url = callback_url;
  content_type = codes "text/x-amp";
  mesh_from = unwrap_or (from_addr msg) (codes "unknown");
  mesh_peer = peer_name;
  body = to_wire msg;
}

abbrev is_success : ℕ → Bool
is_success status = leb 200 status && leb status 299

abbrev of_status : Option ℕ → CallbackResult
of_status none = failed
of_status (some status) = if is_success status then ok else returned status

unfoldable pub forward_to_laravel :
    (post : Post → Option ℕ) → (callback_url peer_name : Text) → AmpMessage → CallbackResult
unfolding callback_post
forward_to_laravel post callback_url peer_name msg =
    of_status (post (callback_post callback_url peer_name msg))
