-- ===== src/Messages/Command.antt =====
-- The commands and their COMMAND_ numbers of src/game/game_thread_messages.h.
use tiny_lobby_tests.Prelude.{Option, none, some, eqb, if◌then◌else◌}
use tiny_lobby_tests.Prelude.Int.{ℤ, pos, negsuc}

pub data Command : Type 0 where
  lobby_data lobby_data_to lobby_data_to_all lobby_notify_to lobby_notify : Command
  lobby_call lobby_quick_join create_lobby join_lobby leave_lobby : Command
  list_lobby chat_lobby lobby_tags kick_peer user_data : Command
  lobby_ready lobby_unready lobby_seal lobby_unseal lobby_max_players : Command
  lobby_title lobby_password stop_listing : Command

-- The switch over the number of a message; none is its default.
unfoldable pub command_of : ℤ → Option Command
command_of (negsuc n) = none
command_of (pos n) =
    if eqb n 0
    then some lobby_data
    else if eqb n 1
    then some lobby_data_to
    else if eqb n 2
    then some lobby_data_to_all
    else if eqb n 3
    then some lobby_notify_to
    else if eqb n 4
    then some lobby_notify
    else if eqb n 5
    then some lobby_call
    else if eqb n 6
    then some lobby_quick_join
    else if eqb n 7
    then some create_lobby
    else if eqb n 8
    then some join_lobby
    else if eqb n 9
    then some leave_lobby
    else if eqb n 10
    then some list_lobby
    else if eqb n 11
    then some chat_lobby
    else if eqb n 12
    then some lobby_tags
    else if eqb n 13
    then some kick_peer
    else if eqb n 14
    then some user_data
    else if eqb n 15
    then some lobby_ready
    else if eqb n 16
    then some lobby_unready
    else if eqb n 17
    then some lobby_seal
    else if eqb n 18
    then some lobby_unseal
    else if eqb n 19
    then some lobby_max_players
    else if eqb n 20
    then some lobby_title
    else if eqb n 21
    then some lobby_password
    else if eqb n 22
    then some stop_listing
    else none
