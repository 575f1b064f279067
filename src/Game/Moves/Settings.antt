-- ===== src/Game/Moves/Settings.antt =====
-- What the commands for a lobby's settings change (src/game/game_thread.cpp).
use tiny_lobby_tests.Prelude.{
  Bool, true, false, not, String, Option, some, ◌≡◌, ◌≢◌, refl, sym, ap, ◌∙◌, ◌==◌, if◌then◌else◌,
  eq_of_test,
}
use tiny_lobby_tests.FlatMap
use tiny_lobby_tests.AnyType.{AnyElement}
use tiny_lobby_tests.AnyType.Decode.{decode_string_or_default}
use tiny_lobby_tests.Yyjson.{Json}
use tiny_lobby_tests.Peer.{PeerData}
use tiny_lobby_tests.Lobby.{LobbyData}
use tiny_lobby_tests.Messages.{notification_lobby_password_protected}
use tiny_lobby_tests.Messages.Command.{Command}
use tiny_lobby_tests.Game.{World}
use tiny_lobby_tests.Game.Monad.{◌>>=◌, ◌>>◌, modify_lobby, read_lobby}
use tiny_lobby_tests.Game.Send.{send_text, send_to_others, mark_updated}
use tiny_lobby_tests.Game.Scripts.{LuaCall}
use tiny_lobby_tests.Game.Host.{apply_setting, on_lobby_password}
use tiny_lobby_tests.Game.Dispatch.{run_command}
use tiny_lobby_tests.Game.Access.{in_lobby_found}
use tiny_lobby_tests.Game.Moves.Still.{Still, still}

spread :
    (k p id : String) (n : String → AnyElement)
    → Still (
        read_lobby k >>= λ lobby.
        send_to_others lobby.peer_ids p (n "") >> send_text p (n id) >> mark_updated lobby.id)
unfolding send_to_others
spread k p id n = search still depth 20

pub apply_setting-lobbies :
    (k p id : String) (f : LobbyData → LobbyData) (n : String → AnyElement) (w : World)
    → (apply_setting k p id f n w).1.game.lobbies ≡ FlatMap.adjust k f w.game.lobbies
unfolding apply_setting ◌>>=◌ modify_lobby
apply_setting-lobbies k p id f n w = (spread k p id n).at (modify_lobby k f w).1

module _ (lua : LuaCall) (p id u : String) (d : Option Json) (peer : PeerData) (lobby : LobbyData)
    (w : World) (known : FlatMap.find p w.game.peers ≡ some peer) (placed : peer.lobby_id ≢ "")
    (found : FlatMap.find peer.lobby_id w.game.lobbies ≡ some lobby) where
  password : LobbyData → LobbyData
  password l = record l { password = decode_string_or_default d "_p" "" }

  changes :
      (run_command lua Command.lobby_password id p d u w).1.game.lobbies
      ≡ FlatMap.adjust peer.lobby_id password w.game.lobbies
  unfolding run_command on_lobby_password password
  changes =
      ap (λ (r : Unit × World). r.1.game.lobbies)
        (in_lobby_found p peer lobby w known placed found id _)
      ∙ apply_setting-lobbies peer.lobby_id peer.id id _
          (notification_lobby_password_protected (not (decode_string_or_default d "_p" "" == ""))) w

  here :
      (k : String) (b : Bool)
      → (peer.lobby_id == k) ≡ b
      → (if b
          then FlatMap.map_some password (FlatMap.find k w.game.lobbies)
          else FlatMap.find k w.game.lobbies)
        ≡ (if b then some (password lobby) else FlatMap.find k w.game.lobbies)
  here k true e =
      ap (FlatMap.map_some password)
        (ap (λ j. FlatMap.find j w.game.lobbies) (sym (eq_of_test peer.lobby_id k e)) ∙ found)
  here k false e = refl

  -- Any member of a lobby, host or not, sets its password to the text under "_p", or to none; nothing
  -- else of that lobby and no other lobby changes.
  pub lobby_password_lem :
      (k : String)
      → FlatMap.find k (run_command lua Command.lobby_password id p d u w).1.game.lobbies ≡ (
          if peer.lobby_id == k
          then some (record lobby { password = decode_string_or_default d "_p" "" })
          else FlatMap.find k w.game.lobbies)
  unfolding password
  lobby_password_lem k =
      ap (FlatMap.find k) changes
      ∙ FlatMap.find-adjust peer.lobby_id k password w.game.lobbies
      ∙ here k (peer.lobby_id == k) refl
