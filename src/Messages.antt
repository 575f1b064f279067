-- ===== src/Messages.antt =====
-- src/game/game_thread_messages.h: the error texts, the numbers of responses and commands, and the
-- notifications. A notification is the element whose `to_string` is sent.
pub mod Command
pub mod Errors
use tiny_lobby_tests.Prelude.{ℕ, Bool, true, false, String, List, [], ◌∷◌}
use tiny_lobby_tests.Prelude.Int.{ℤ, pos}
use tiny_lobby_tests.FlatMap.{FlatMap}
use tiny_lobby_tests.FlatMap
use tiny_lobby_tests.AnyType.{AnyElement, bool, int, str, null, object}

pub data Response : Type 0 where
  error lobby_hosted lobby_created lobby_unsealed lobby_sealed lobby_resized : Response
  lobby_passworded lobby_titled peer_ready peer_unready lobby_left peer_left lobby_kicked : Response
  peer_state lobby_call peer_user_data lobby_tags peer_chat peer_reconnected : Response
  joined_lobby peer_joined peer_disconnected lobby_list lobby_data peer_notify data_to : Response
  data_to_sent notify_to_sent : Response

unfoldable pub response_code : Response → ℕ
response_code error = 0
response_code lobby_hosted = 1
response_code lobby_created = 2
response_code lobby_unsealed = 3
response_code lobby_sealed = 4
response_code lobby_resized = 5
response_code lobby_passworded = 6
response_code lobby_titled = 7
response_code peer_ready = 8
response_code peer_unready = 9
response_code lobby_left = 10
response_code peer_left = 11
response_code lobby_kicked = 12
response_code peer_state = 13
response_code lobby_call = 14
response_code peer_user_data = 15
response_code lobby_tags = 16
response_code peer_chat = 17
response_code peer_reconnected = 18
response_code joined_lobby = 19
response_code peer_joined = 20
response_code peer_disconnected = 21
response_code lobby_list = 22
response_code lobby_data = 23
response_code peer_notify = 24
response_code data_to = 25
response_code data_to_sent = 26
response_code notify_to_sent = 27

-- A flat_map from an initializer list.
abbrev pub dict : List (String × AnyElement) → FlatMap AnyElement
dict [] = []
dict ((k, x) ∷ l) = FlatMap.insert k x (dict l)

-- {"c": code, "d": {...}}
unfoldable pub response : Response → List (String × AnyElement) → AnyElement
unfolding response_code
response r d = object (dict (("c", int (pos (response_code r))) ∷ ("d", object (dict d)) ∷ []))

pub notification_error : String → String → Bool → AnyElement
unfolding response_code
notification_error message id is_logical_error = object (
    dict (
      ("c", int (pos (response_code error)))
      ∷ ("m", str message)
      ∷ ("d", object (dict (("id", str id) ∷ [])))
      ∷ ("e", bool is_logical_error)
      ∷ []))

pub notification_lobby_host_changed : String → AnyElement
notification_lobby_host_changed host_id = response lobby_hosted (("h", str host_id) ∷ [])

pub notification_lobby_created : AnyElement → AnyElement → String → AnyElement
notification_lobby_created lobby peers id =
    response lobby_created (("l", lobby) ∷ ("p", peers) ∷ ("id", str id) ∷ [])

pub notification_lobby_unsealed : String → AnyElement
notification_lobby_unsealed id = response lobby_unsealed (("id", str id) ∷ [])

pub notification_lobby_sealed : String → AnyElement
notification_lobby_sealed id = response lobby_sealed (("id", str id) ∷ [])

pub notification_lobby_max_players : ℤ → String → AnyElement
notification_lobby_max_players n id = response lobby_resized (("m", int n) ∷ ("id", str id) ∷ [])

pub notification_lobby_password_protected : Bool → String → AnyElement
notification_lobby_password_protected b id =
    response lobby_passworded (("_p", bool b) ∷ ("id", str id) ∷ [])

pub notification_lobby_title : String → String → AnyElement
notification_lobby_title title id = response lobby_titled (("n", str title) ∷ ("id", str id) ∷ [])

pub notification_peer_ready : String → String → AnyElement
notification_peer_ready peer_id id = response peer_ready (("p", str peer_id) ∷ ("id", str id) ∷ [])

pub notification_peer_unready : String → String → AnyElement
notification_peer_unready peer_id id =
    response peer_unready (("p", str peer_id) ∷ ("id", str id) ∷ [])

pub notification_lobby_left : String → AnyElement
notification_lobby_left id = response lobby_left (("id", str id) ∷ [])

pub notification_peer_left : String → String → AnyElement
notification_peer_left peer_id id = response peer_left (("p", str peer_id) ∷ ("id", str id) ∷ [])

pub notification_peer_kicked : String → String → AnyElement
notification_peer_kicked peer_id id =
    response peer_left (("p", str peer_id) ∷ ("k", bool true) ∷ ("id", str id) ∷ [])

pub notification_lobby_kicked : AnyElement
unfolding response_code
notification_lobby_kicked = object (dict (("c", int (pos (response_code lobby_kicked))) ∷ []))

pub notification_peer_state : AnyElement → AnyElement
notification_peer_state peer_json = response peer_state (("p", peer_json) ∷ [])

pub notification_lobby_call : AnyElement → String → AnyElement
notification_lobby_call result id = response lobby_call (("r", result) ∷ ("id", str id) ∷ [])

pub notification_user_data : AnyElement → String → String → AnyElement
notification_user_data user_data peer_id id =
    response peer_user_data (("ud", user_data) ∷ ("p", str peer_id) ∷ ("id", str id) ∷ [])

pub notification_tags : AnyElement → String → AnyElement
notification_tags tags id = response lobby_tags (("t", tags) ∷ ("id", str id) ∷ [])

pub notification_chat : String → String → String → FlatMap AnyElement → AnyElement
notification_chat from_peer chat_data id chat_metadata = response peer_chat (
    ("fp", str from_peer)
    ∷ ("c", str chat_data)
    ∷ ("m", object chat_metadata)
    ∷ ("id", str id)
    ∷ [])

pub notification_peer_reconnected : String → AnyElement
notification_peer_reconnected peer_id = response peer_reconnected (("p", str peer_id) ∷ [])

pub notification_lobby_joined : AnyElement → AnyElement → String → AnyElement
notification_lobby_joined lobby peers id =
    response joined_lobby (("l", lobby) ∷ ("p", peers) ∷ ("id", str id) ∷ [])

pub notification_peer_joined : AnyElement → AnyElement
notification_peer_joined peer_json = response peer_joined (("p", peer_json) ∷ [])

pub notification_peer_disconnected : String → AnyElement
notification_peer_disconnected peer_id = response peer_disconnected (("p", str peer_id) ∷ [])

pub notification_lobby_list : AnyElement → String → AnyElement
notification_lobby_list lobbies id = response lobby_list (("l", lobbies) ∷ ("id", str id) ∷ [])

pub notification_lobby_stop_listing : String → AnyElement
notification_lobby_stop_listing id = response lobby_list (("l", null) ∷ ("id", str id) ∷ [])

pub notification_lobby_public_data : AnyElement → String → AnyElement
notification_lobby_public_data d id =
    response lobby_data (("d", d) ∷ ("_p", bool false) ∷ ("id", str id) ∷ [])

pub notification_lobby_private_data : AnyElement → String → AnyElement
notification_lobby_private_data d id =
    response lobby_data (("d", d) ∷ ("_p", bool true) ∷ ("id", str id) ∷ [])

pub notification_peer_notify : AnyElement → String → AnyElement
notification_peer_notify peer_data from_peer =
    response peer_notify (("d", peer_data) ∷ ("p", str from_peer) ∷ [])

pub notification_peer_public_data : AnyElement → String → String → AnyElement
notification_peer_public_data d from_peer target_peer =
    response data_to
      (("d", d) ∷ ("p", str from_peer) ∷ ("tp", str target_peer) ∷ ("_p", bool false) ∷ [])

pub notification_peer_private_data : AnyElement → String → String → AnyElement
notification_peer_private_data d from_peer target_peer =
    response data_to
      (("d", d) ∷ ("p", str from_peer) ∷ ("tp", str target_peer) ∷ ("_p", bool true) ∷ [])

pub notification_data_to_sent : String → AnyElement
notification_data_to_sent id = response data_to_sent (("id", str id) ∷ [])

pub notification_notify_sent : String → AnyElement
notification_notify_sent id = response notify_to_sent (("id", str id) ∷ [])
