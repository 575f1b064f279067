-- ===== src/Messages/Errors.antt =====
-- The ERROR_ texts of src/game/game_thread_messages.h.
use tiny_lobby_tests.Prelude.{String}

abbrev pub error_cannot_parse_json : String
error_cannot_parse_json = "ERROR_CANNOT_PARSE_JSON"

abbrev pub error_peer_not_found : String
error_peer_not_found = "ERROR_PEER_NOT_FOUND"

abbrev pub error_peer_not_in_a_lobby : String
error_peer_not_in_a_lobby = "ERROR_PEER_NOT_IN_A_LOBBY"

abbrev pub error_peer_is_in_a_lobby : String
error_peer_is_in_a_lobby = "ERROR_PEER_IS_IN_A_LOBBY"

abbrev pub error_peer_not_host : String
error_peer_not_host = "ERROR_PEER_NOT_HOST"

abbrev pub error_peer_is_ready : String
error_peer_is_ready = "ERROR_PEER_IS_READY"

abbrev pub error_peer_is_not_ready : String
error_peer_is_not_ready = "ERROR_PEER_IS_NOT_READY"

abbrev pub error_cannot_kick_self : String
error_cannot_kick_self = "ERROR_CANNOT_KICK_SELF"

abbrev pub error_invalid_function_msg : String
error_invalid_function_msg = "ERROR_INVALID_FUNCTION_MSG"

abbrev pub error_invalid_arguments : String
error_invalid_arguments = "ERROR_INVALID_ARGUMENTS"

abbrev pub error_lobby_not_found : String
error_lobby_not_found = "ERROR_LOBBY_NOT_FOUND"

abbrev pub error_lobby_wrong_password : String
error_lobby_wrong_password = "ERROR_LOBBY_WRONG_PASSWORD"

abbrev pub error_lobby_full : String
error_lobby_full = "ERROR_LOBBY_FULL"

abbrev pub error_game_not_relay : String
error_game_not_relay = "ERROR_GAME_NOT_RELAY"

abbrev pub error_game_not_scripted : String
error_game_not_scripted = "ERROR_GAME_NOT_SCRIPTED"

abbrev pub error_unkown_command : String
error_unkown_command = "ERROR_UNKOWN_COMMAND"

abbrev pub error_game_is_unloaded : String
error_game_is_unloaded = "ERROR_GAME_IS_UNLOADED"

abbrev pub error_invalid_tags : String
error_invalid_tags = "ERROR_INVALID_TAGS"
