-- ===== src/Game/Moves/Bounds.antt =====
-- The bound that `on_lobby_max_players` (src/game/game_thread.cpp) accepts.
use tiny_lobby_tests.Prelude.{
  ℕ, ◌≤◌, ◌<◌, ◌^◌, String, Option, some, [], ◌∷◌, ◌≡◌, ◌≢◌, true, false, Bool, refl, sym, ap, ◌∙◌,
  ◌==◌, if◌then◌else◌, ltb, length, arith, eq_of_test,
}
use tiny_lobby_tests.Prelude.Int.{ℤ, pos, negsuc, to_u64}
use tiny_lobby_tests.FlatMap
use tiny_lobby_tests.AnyType.{int}
use tiny_lobby_tests.AnyType.Decode.{decode_int_or_default}
use tiny_lobby_tests.Yyjson.{Json}
use tiny_lobby_tests.Peer.{PeerData}
use tiny_lobby_tests.Lobby.{LobbyData}
use tiny_lobby_tests.Messages.{notification_lobby_max_players}
use tiny_lobby_tests.Messages.Command.{Command}
use tiny_lobby_tests.Game.{World}
use tiny_lobby_tests.Game.Monad.{◌>>=◌}
use tiny_lobby_tests.Game.Scripts.{LuaCall}
use tiny_lobby_tests.Game.Membership.{reject_or}
use tiny_lobby_tests.Game.Host.{resize, apply_setting, on_lobby_max_players}
use tiny_lobby_tests.Game.Dispatch.{run_command}
use tiny_lobby_tests.Game.Access.{in_lobby_found}
use tiny_lobby_tests.Game.Moves.Departure.{callback_none}
use tiny_lobby_tests.Game.Moves.Settings.{apply_setting-lobbies}

negative_passes : (n len : ℕ) → n < 2 ^ 31 → len ≤ 2 ^ 63 → ltb (to_u64 (negsuc n)) len ≡ false
negative_passes n len h l = ground arith

module _ (lua : LuaCall) (p id u : String) (d : Option Json) (peer : PeerData) (lobby : LobbyData)
    (w : World) (quiet : w.game.enabled_callbacks ≡ [])
    (known : FlatMap.find p w.game.peers ≡ some peer) (placed : peer.lobby_id ≢ "")
    (found : FlatMap.find peer.lobby_id w.game.lobbies ≡ some lobby) where
  abbrev bounded : ℤ → LobbyData → LobbyData
  bounded z l = record l { max_players = z }

  resizes :
      (z : ℤ)
      → decode_int_or_default d "m" (pos 0) ≡ z
      → ltb (to_u64 z) (length lobby.peer_ids) ≡ false
      → run_command lua Command.lobby_max_players id p d u w
        ≡ apply_setting peer.lobby_id peer.id id (bounded z) (notification_lobby_max_players z) w
  unfolding run_command on_lobby_max_players resize ◌>>=◌ reject_or
  resizes z e f =
      rw
        (
          in_lobby_found p peer lobby w known placed found id (resize lua id d),
          e,
          f,
          callback_none lua peer.id peer.lobby_id "_can_host_resize" (int z ∷ []) w quiet,
        )
        refl

  -- In a game without callbacks any member of a lobby, host or not, sets the lobby's bound to a negative
  -- number, whatever the number of members up to 2^63; no other lobby changes.
  pub negative_bound_accepted :
      (n : ℕ) (k : String)
      → decode_int_or_default d "m" (pos 0) ≡ negsuc n
      → n < 2 ^ 31
      → length lobby.peer_ids ≤ 2 ^ 63
      → FlatMap.find k (run_command lua Command.lobby_max_players id p d u w).1.game.lobbies ≡ (
          if peer.lobby_id == k
          then some (record lobby { max_players = negsuc n })
          else FlatMap.find k w.game.lobbies)
  negative_bound_accepted n k e small few =
      ap (λ (r : Unit × World). FlatMap.find k r.1.game.lobbies)
        (resizes (negsuc n) e (negative_passes n _ small few))
      ∙ ap (FlatMap.find k) (
          apply_setting-lobbies peer.lobby_id peer.id id _
            (notification_lobby_max_players (negsuc n)) w)
      ∙ FlatMap.find-adjust peer.lobby_id k (bounded (negsuc n)) w.game.lobbies
      ∙ here (peer.lobby_id == k) refl
    where
      here :
          (b : Bool)
          → (peer.lobby_id == k) ≡ b
          → (if b
              then FlatMap.map_some (bounded (negsuc n)) (FlatMap.find k w.game.lobbies)
              else FlatMap.find k w.game.lobbies)
            ≡ (if b then some (bounded (negsuc n) lobby) else FlatMap.find k w.game.lobbies)
      here true q =
          ap (FlatMap.map_some (bounded (negsuc n)))
            (ap (λ j. FlatMap.find j w.game.lobbies) (sym (eq_of_test peer.lobby_id k q)) ∙ found)
      here false q = refl
