-- ===== src/Game/Send/Flush.antt =====
-- `handle_send` of src/game/game_thread.cpp, for one game.
use tiny_lobby_tests.Prelude.{◌+◌, ◌||◌, List, [], ◌∷◌, ◌++◌, eqb, ltb, is_nil, if◌then◌else◌}
use tiny_lobby_tests.FlatMap.{FlatMap}
use tiny_lobby_tests.Game.{Content, batch, text_frame, Outgoing, World}
use tiny_lobby_tests.Game.Monad.{M}

-- The loop of the deferred call over the batches.
unfoldable pub flush : FlatMap (List Content) → List Outgoing
flush [] = []
flush ((peer_id, messages) ∷ m) =
    (if is_nil messages
      then []
      else record { peer_id = peer_id; message = batch messages; op_code = text_frame } ∷ [])
    ++ flush m

-- The clock makes a step and the batches go to the socket loop.
abbrev pub flushed : World → World
flushed w = record w {
  game = record w.game { last_send_time = w.game.last_send_time + w.game.send_rate };
  net = record w.net {
    outgoing = w.net.outgoing ++ flush w.net.peers_send_data;
    peers_send_data = [];
  };
}

unfoldable pub handle_send : M (Unit {0})
unfolding flush
handle_send w =
    if eqb w.game.send_rate 0 || ltb w.now (w.game.last_send_time + w.game.send_rate)
    then (tt, w)
    else (tt, flushed w)
