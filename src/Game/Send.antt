-- ===== src/Game/Send.antt =====
-- `send`, `on_error` and `handle_send` of src/game/game_thread.cpp.
mod Flush
pub mod Batches
pub mod Delivery
unfoldable pub use Flush.{flush, flushed, handle_send}
use tiny_lobby_tests.Prelude.{
  ℕ, ◌+◌, Bool, not, ◌&&◌, ◌||◌, String, Option, none, some, List, [], ◌∷◌, ◌++◌, eqb, ◌==◌,
  if◌then◌else◌,
}
use tiny_lobby_tests.FlatMap
use tiny_lobby_tests.FlatMap.{get_or}
use tiny_lobby_tests.FlatSet
use tiny_lobby_tests.AnyType.{AnyElement}
use tiny_lobby_tests.Messages.{notification_error}
use tiny_lobby_tests.Game.{
  GameData, Net, World, Content, json, plain, single, OpCode, text_frame, close_frame, Outgoing,
}
use tiny_lobby_tests.Game.Monad.{M, modify_game, for_each, skip}

abbrev pub is_close : OpCode → Bool
is_close text_frame = Bool.false
is_close close_frame = Bool.true

-- The queue of calls of WebSocketServer::send that `loop->defer` fills.
abbrev pub defer : Outgoing → Net → Net
defer o n = record n { outgoing = n.outgoing ++ o ∷ [] }

abbrev pub enqueue : String → Content → Net → Net
enqueue peer_id message n = record n {
  peers_send_data =
      FlatMap.insert peer_id (get_or [] (FlatMap.find peer_id n.peers_send_data) ++ message ∷ [])
        n.peers_send_data;
}

abbrev count_sent : Net → Net
count_sent n = record n { messages_sent = n.messages_sent + 1 }

unfoldable pub send_net : GameData → String → Content → OpCode → Net → Net
send_net g peer_id message op_code n =
    if FlatMap.contains peer_id g.disconnected_peers && not (is_close op_code)
    then n
    else if eqb g.send_rate 0 || is_close op_code
    then count_sent
        (defer (record { peer_id = peer_id; message = single message; op_code = op_code }) n)
    else count_sent (enqueue peer_id message n)

unfoldable pub send : String → Content → OpCode → M (Unit {0})
send peer_id message op_code w =
    (tt, record w { net = send_net w.game peer_id message op_code w.net })

abbrev pub send_text : String → AnyElement → M (Unit {0})
send_text peer_id notification = send peer_id (json notification) text_frame

-- The loop over the members that skips one of them.
unfoldable pub send_to_others : List String → String → AnyElement → M (Unit {0})
unfolding for_each
send_to_others peer_ids self notification =
    for_each peer_ids (λ p. if p == self then skip else send_text p notification)

unfoldable pub send_to_all : List String → AnyElement → M (Unit {0})
unfolding for_each
send_to_all peer_ids notification = for_each peer_ids (λ p. send_text p notification)

-- The log is not modelled.
unfoldable pub on_error : String → String → String → Bool → Bool → M (Unit {0})
on_error command_id peer_id message close logical_error =
    if close
    then send peer_id (plain message) close_frame
    else send_text peer_id (notification_error message command_id logical_error)

-- game.lobbies_updated.insert(lobby_id)
abbrev pub mark_updated : String → M (Unit {0})
mark_updated lobby_id =
    modify_game (λ g. record g { lobbies_updated = FlatSet.insert lobby_id g.lobbies_updated })
