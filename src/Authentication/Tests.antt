-- ===== src/Authentication/Tests.antt =====
-- A login service that knows one user, and the theorem about upgrades at work on it.
use tiny_lobby_tests.Prelude.{true, false, String, some, ◌≡◌, ◌↔◌, refl}
use tiny_lobby_tests.FlatMap
use tiny_lobby_tests.Yyjson
use tiny_lobby_tests.Yyjson.{Json}
use tiny_lobby_tests.WebSocket.{PerSocketData, default_socket_data}
use tiny_lobby_tests.Authentication.{
  upgraded, Services, verify_jwt, has_dot, authenticate, read_document,
}
use tiny_lobby_tests.AnyType.Decode.{c_str}
use tiny_lobby_tests.Authentication.Login.{Confirms, named, authenticate_exact}

abbrev text : String → String → Yyjson.Fields → Yyjson.Fields
text key value = Yyjson.Fields.field key (Yyjson.Json.str value)

abbrev answer : Json
answer = Yyjson.Json.obj (
    Yyjson.Fields.field "success" (Yyjson.Json.bool true) (
      Yyjson.Fields.field "data"
        (Yyjson.Json.obj (
          Yyjson.Fields.field "token"
            (Yyjson.Json.obj (
              text "name" "Ada"
                (text "platform" "steam" (text "platform_id" "42" Yyjson.Fields.end))))
            Yyjson.Fields.end))
        Yyjson.Fields.end))

abbrev services : Services
services = record {
  request = λ path jwt. "answer";
  parse = λ result. some (some answer);
  db_enabled = false;
  get_peer_or_insert = λ token game_id id. id;
}

abbrev guest : PerSocketData
guest = record default_socket_data { id = "aaaa"; game_id = "chess"; reconnection_token = "a.b.c" }

authenticate_exact_example :
    (authenticate services false guest ≡ upgraded (named guest "steam" "Ada" "42"))
    ↔ Confirms
        (services.parse (verify_jwt services "a.b.c").0)
        guest
        (named guest "steam" "Ada" "42")
unfolding has_dot
authenticate_exact_example = authenticate_exact services guest (named guest "steam" "Ada" "42") refl

ada_is_upgraded : authenticate services false guest ≡ upgraded (named guest "steam" "Ada" "42")
unfolding authenticate read_document c_str FlatMap.find FlatMap.insert
ada_is_upgraded = refl
