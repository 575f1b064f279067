-- ===== src/Game/Chat.antt =====
-- `on_chat_lobby`, `on_lobby_call` and `strip_BBCode` of src/game/game_thread.cpp.
use Prim.Native.Char.{code}
use Prim.Native.String
use tiny_lobby_tests.Prelude.{
  ℕ, Bool, false, ◌||◌, String, Option, none, some, List, [], ◌==◌, ◌∷◌, eqb, ltb, if◌then◌else◌,
}
use tiny_lobby_tests.FlatMap.{FlatMap}
use tiny_lobby_tests.AnyType.{AnyElement, str, arr, to_list}
use tiny_lobby_tests.AnyType.Decode.{
  Result, ok, err, decode_string_or_default, decode_object, decoded_object, decode_array,
}
use tiny_lobby_tests.Yyjson.{Json, obj_get}
use tiny_lobby_tests.Yyjson
use tiny_lobby_tests.Messages.{notification_chat, notification_lobby_call}
use tiny_lobby_tests.Messages.Errors.{
  error_cannot_parse_json, error_game_not_scripted, error_invalid_function_msg,
  error_peer_not_in_a_lobby,
}
use tiny_lobby_tests.Game.{is_relay}
use tiny_lobby_tests.Game.Monad.{M, ◌>>=◌, ◌>>◌, skip, get_game, get_peer, get_lobby}
use tiny_lobby_tests.Game.Send.{send_text, send_to_others, on_error}
use tiny_lobby_tests.Game.Scripts.{
  LuaCall, callback, scripted_function_call, text_result, error_result,
}
use tiny_lobby_tests.Game.Membership.{in_lobby, reject_or}

-- The regular expression `\[.*?\]`, every match replaced by nothing. `pending` is the text since a
-- "[" that no "]" has closed; a line terminator ends it, since `.` matches none.
abbrev is_line_end : ℕ → Bool
is_line_end c = eqb c 10 || eqb c 13

unfoldable pub strip_from : Option String → String → String
strip_from none String.[] = ""
strip_from (some pending) String.[] = pending
strip_from none (String.◌∷◌ c s) =
    let opened = strip_from (some (String.◌∷◌ c "")) s in
    let kept = String.◌∷◌ c (strip_from none s) in if eqb (code c) b'[' then opened else kept
strip_from (some pending) (String.◌∷◌ c s) =
    let closed = strip_from none s in
    let ended = String.◌++◌ pending (String.◌∷◌ c (strip_from none s)) in
    let more = strip_from (some (String.◌++◌ pending (String.◌∷◌ c ""))) s in
    if eqb (code c) b']' then closed else if is_line_end (code c) then ended else more

unfoldable pub strip_bb_code : String → String
unfolding strip_from
strip_bb_code = strip_from none

-- A decoding error is reported, and what was decoded so far goes on.
unfoldable pub report_metadata : String → String → Result (FlatMap AnyElement) → M (Unit {0})
report_metadata command_id peer_id (ok m) = skip
report_metadata command_id peer_id (err e) =
    on_error command_id peer_id error_cannot_parse_json false false

array_args : Result AnyElement → List AnyElement
array_args (ok (arr items)) = to_list items
array_args _ = []

call_args : Option Json → List AnyElement
unfolding array_args
call_args (some (Yyjson.Json.arr xs)) = array_args (decode_array (some (Yyjson.Json.arr xs)))
call_args _ = []

module _ (lua : LuaCall) (command_id peer_id : String) (data_val : Option Json) where
  unfoldable pub on_chat_lobby : M (Unit {0})
  unfolding strip_bb_code decoded_object report_metadata in_lobby reject_or
  on_chat_lobby = in_lobby command_id peer_id λ peer lobby.
      let message = strip_bb_code (decode_string_or_default data_val "c" "") in
      if message == "" || ltb 256 (String.len message)
      then on_error command_id peer.id "Invalid chat message" false false
      else (do
        let decoded = decode_object (obj_get data_val "m") []
        let chat_metadata = decoded_object (obj_get data_val "m")
        report_metadata command_id peer.id decoded
        (value, has_error) ← callback lua peer.id peer.lobby_id "_can_peer_chat" (str message ∷ [])
        reject_or command_id peer.id (text_result (value, has_error)) has_error (do
          now ← get_lobby peer.lobby_id
          send_to_others now.peer_ids peer.id (notification_chat peer.id message "" chat_metadata)
          send_text peer.id (notification_chat peer.id message command_id chat_metadata)))

  -- The arguments are a vector from the start, and decoding keeps them one.
  unfoldable pub on_lobby_call : M (Unit {0})
  unfolding call_args reject_or
  on_lobby_call = do
    peer ← get_peer peer_id
    game ← get_game
    let func_name = decode_string_or_default data_val "f" ""
    if peer.lobby_id == ""
        then on_error command_id peer.id error_peer_not_in_a_lobby false false
        else if is_relay game
        then on_error command_id peer.id error_game_not_scripted false false
        else if func_name == ""
        then on_error command_id peer.id error_invalid_function_msg false false
        else (do
          (result, has_error) ←
              scripted_function_call lua peer.id peer.lobby_id func_name
                (call_args (obj_get data_val "i"))
          reject_or command_id peer.id (error_result (result, has_error)) has_error
              (send_text peer.id (notification_lobby_call result command_id)))
