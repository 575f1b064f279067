-- ===== src/WebSocket/Upgrade.antt =====
-- `trim` and `on_upgrade` of src/websocket/websocket_server.cpp. The header's bytes are ASCII where
-- they matter: spaces and commas.
use Prim.Native.Char.{code}
use tiny_lobby_tests.Prelude.{
  ℕ, suc, zero, Bool, true, false, not, ◌&&◌, ◌||◌, String, List, [], ◌∷◌, ◌==◌, eqb, leb,
  if◌then◌else◌,
}
use tiny_lobby_tests.Prelude.Int.{ltb_ℤ}
use tiny_lobby_tests.WebSocket.{PerSocketData, WebSocketServer, default_socket_data}

-- std::isspace
abbrev pub is_space : ℕ → Bool
is_space c = eqb c 32 || leb 9 c && leb c 13

abbrev pub is_empty : String → Bool
is_empty String.[] = true
is_empty (String.◌∷◌ c s) = false

unfoldable pub trim_start : String → String
trim_start String.[] = ""
trim_start (String.◌∷◌ c s) =
    let rest = trim_start s in if is_space (code c) then rest else String.◌∷◌ c s

unfoldable pub trim_end : String → String
trim_end String.[] = ""
trim_end (String.◌∷◌ c s) =
    let rest = trim_end s in if is_space (code c) && is_empty rest then "" else String.◌∷◌ c rest

unfoldable pub trim : String → String
unfolding trim_start trim_end
trim s = trim_start (trim_end s)

unfoldable pub trim_all : List String → List String
unfolding trim
trim_all [] = []
trim_all (s ∷ rest) = trim s ∷ trim_all rest

abbrev pub onto_first : Prim.Native.Char.Char → List String → List String
onto_first c [] = []
onto_first c (s ∷ rest) = String.◌∷◌ c s ∷ rest

-- The loop over `getline` with the separator ",": also an empty text has one part.
unfoldable pub split : String → List String
split String.[] = "" ∷ []
split (String.◌∷◌ c s) =
    let parts = split s in if eqb (code c) b',' then "" ∷ parts else onto_first c parts

abbrev pub substr : ℕ → String → String
substr zero s = ""
substr (suc n) String.[] = ""
substr (suc n) (String.◌∷◌ c s) = String.◌∷◌ c (substr n s)

-- A status 400 with a text, or a message to the authentication thread with the socket's data.
pub data Upgrade : Type 0 where
  bad_request : String → Upgrade
  hand_on : PerSocketData → Upgrade

-- The parts of the protocol header: the server's name, the game, and the token, if there is one.
unfoldable pub read_protocols : String → String → Bool → List String → Upgrade
read_protocols uuid uid queue_has_room (name ∷ game_id ∷ tokens) =
    if not (name == "appsinacup")
    then bad_request "ERROR_SERVER_FAILED_TO_OPEN_WEBSOCKET"
    else if queue_has_room
    then hand_on (record default_socket_data {
      uid = uid;
      id = substr 8 uuid;
      game_id = game_id;
      reconnection_token = elim tokens [ [] ↦ uuid | token ∷ more ↦ token ];
    })
    else bad_request "ERROR_SERVER_QUEUE_FULL"
read_protocols uuid uid queue_has_room _ = bad_request "ERROR_SERVER_FAILED_TO_OPEN_WEBSOCKET"

-- `uuid` and `uid` are the two that the generator gives.
unfoldable pub on_upgrade : String → String → Bool → String → WebSocketServer → Upgrade
unfolding split trim_all read_protocols
on_upgrade uuid uid queue_has_room protocol s =
    if ltb_ℤ s.max_users s.connected_users
    then bad_request "ERROR_SERVER_TOO_MANY_USERS"
    else read_protocols uuid uid queue_has_room (trim_all (split protocol))
