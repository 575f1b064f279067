-- ===== src/Authentication.antt =====
-- What becomes of a connection that asks to be upgraded: `AuthenticationThread::run` of
-- src/authentication/authentication_thread.cpp, for one message of its queue, and
-- `LoginClient::verify_jwt` of src/authentication/login_client.cpp. The login service is an argument:
-- what it answers to a request of a path, and what the parser yyjson makes of a text, which is no
-- document, or a document that may have no root. The database is that of the peers, an argument too.
pub mod Login
pub mod Tests
use Prim.Native.Char.{code}
use Prim.Native.String
use tiny_lobby_tests.Prelude.{
  Bool, true, false, not, ◌||◌, eqb, String, Option, none, some, List, [], ◌∷◌, ◌==◌, is_some,
  if◌then◌else◌,
}
use tiny_lobby_tests.FlatMap.{FlatMap}
use tiny_lobby_tests.FlatMap
use tiny_lobby_tests.AnyType.{AnyElement, entries}
use tiny_lobby_tests.AnyType.Decode.{Result, ok, err, decode_object}
use tiny_lobby_tests.Yyjson.{Json}
use tiny_lobby_tests.WebSocket.{PerSocketData}

-- A status 400 with a text, an upgrade with the socket's data, nothing for a connection that was
-- closed meanwhile, or the exception of `std::get` on a value of another kind.
pub data Verdict : Type 0 where
  refused : String → Verdict
  upgraded : PerSocketData → Verdict
  dropped thrown : Verdict

abbrev pub refuse : String → Verdict
refuse reason = refused (String.◌++◌ "Failed to authenticate. " reason)

-- The name, the platform and the id there, in the order in which they are read.
unfoldable pub with_login :
    PerSocketData → Option AnyElement → Option AnyElement → Option AnyElement → Verdict
with_login d (some (AnyElement.str platform)) (some (AnyElement.str name))
      (some (AnyElement.str platform_id)) =
    upgraded (record d {
      platform = platform;
      name = name;
      platform_id = platform_id;
      reconnection_token = String.◌++◌ platform (String.◌++◌ ":" platform_id);
    })
with_login d _ _ _ = thrown

unfoldable pub read_login : PerSocketData → FlatMap AnyElement → Verdict
unfolding with_login
read_login d token =
    if not (FlatMap.contains "name" token)
    then refuse "Cannot find name in login result."
    else if not (FlatMap.contains "platform" token)
    then refuse "Cannot find platform in login result."
    else if not (FlatMap.contains "platform_id" token)
    then refuse "Cannot find platform_id in login result."
    else with_login d (FlatMap.find "platform" token) (FlatMap.find "name" token)
        (FlatMap.find "platform_id" token)

-- A token that is no object is passed over, and so are data that are none.
unfoldable pub read_token : PerSocketData → Option AnyElement → Verdict
unfolding read_login
read_token d none = refuse "Cannot find token in login result."
read_token d (some (AnyElement.obj fields)) = read_login d (entries fields)
read_token d (some _) = upgraded d

unfoldable pub read_data : PerSocketData → Option AnyElement → Verdict
unfolding read_token
read_data d none = refuse "Cannot find data in login result."
read_data d (some (AnyElement.obj fields)) = read_token d (FlatMap.find "token" (entries fields))
read_data d (some _) = upgraded d

unfoldable pub read_success : PerSocketData → FlatMap AnyElement → Option AnyElement → Verdict
unfolding read_data
read_success d auth none = refuse "Cannot find success in login result."
read_success d auth (some (AnyElement.bool true)) = read_data d (FlatMap.find "data" auth)
read_success d auth (some (AnyElement.bool false)) = refuse "Failed to login."
read_success d auth (some _) = refuse "Success is not a boolean."

unfoldable pub read_result : PerSocketData → Result (FlatMap AnyElement) → Verdict
unfolding read_success
read_result d (ok auth) = read_success d auth (FlatMap.find "success" auth)
read_result d (err e) = refuse (String.◌++◌ "Cannot decode login result. " e)

unfoldable pub read_document : PerSocketData → Option (Option Json) → Verdict
unfolding read_result decode_object
read_document d none = refuse "Cannot read login doc result."
read_document d (some none) = refuse "Cannot read login root result."
read_document d (some (some root)) = read_result d (decode_object (some root) [])

-- Whether the answer says that the token is no valid one.
unfoldable pub says_no : Option (Option Json) → Bool
unfolding decode_object
says_no none = false
says_no (some none) = false
says_no (some (some root)) = elim (decode_object (some root) []) [
  | err e ↦ false
  | ok auth ↦ elim (FlatMap.find "success" auth) [ some (AnyElement.bool b) ↦ not b | _ ↦ false ]
]

-- What the environment does for an authentication: the login service, the parser, and the database.
pub record Services : Type 0 where
  pub request : String → String → String
  pub parse : String → Option (Option Json)
  pub db_enabled : Bool
  pub get_peer_or_insert : String → String → String → String

-- The answer of the service and an error text. A token that is no valid one is tried as a ticket of
-- Steam. The error text is never set.
unfoldable pub verify_jwt : Services → String → String × String
unfolding says_no
verify_jwt services jwt =
    let result = services.request "/api/v1/internal/token/verify" jwt in
    if says_no (services.parse result)
    then (services.request "/api/v1/internal/steam/verify" jwt, "")
    else (result, "")

unfoldable pub has_dot : String → Bool
has_dot String.[] = false
has_dot (String.◌∷◌ c s) = eqb (code c) b'.' || has_dot s

unfoldable pub on_anonymous : Services → PerSocketData → Verdict
on_anonymous services d = upgraded (
    if services.db_enabled
    then record d { id = services.get_peer_or_insert d.reconnection_token d.game_id d.id }
    else d)

unfoldable pub on_verified : Services → PerSocketData → String × String → Verdict
unfolding read_document
on_verified services d (result, error_msg) =
    if not (error_msg == "") then refuse error_msg else read_document d (services.parse result)

-- One message of the queue. `aborted` says whether the connection was closed before the answer.
unfoldable pub authenticate : Services → Bool → PerSocketData → Verdict
unfolding has_dot on_anonymous on_verified verify_jwt
authenticate services aborted d =
    if aborted
    then dropped
    else if not (has_dot d.reconnection_token)
    then on_anonymous services d
    else on_verified services d (verify_jwt services d.reconnection_token)
