-- ===== src/Game/Moves/Farewell.antt =====
-- The commands to leave a lobby and to kick a member (src/game/game_thread.cpp) in a game whose
-- script has no callbacks.
use tiny_lobby_tests.Prelude.{
  true, false, String, Option, some, [], ◌∷◌, ◌≡◌, ◌≢◌, refl, sym, ap, ◌∙◌, beq_ne,
}
use tiny_lobby_tests.FlatMap
use tiny_lobby_tests.FlatSet
use tiny_lobby_tests.AnyType.{str}
use tiny_lobby_tests.AnyType.Decode.{decode_string_or_default}
use tiny_lobby_tests.Yyjson.{Json}
use tiny_lobby_tests.Peer.{PeerData}
use tiny_lobby_tests.Lobby.{LobbyData}
use tiny_lobby_tests.Messages.Command.{Command}
use tiny_lobby_tests.Game.{World, is_relay}
use tiny_lobby_tests.Game.Monad.{◌>>=◌}
use tiny_lobby_tests.Game.Scripts.{LuaCall}
use tiny_lobby_tests.Game.Membership.{
  on_leave_lobby, on_kick_peer, kick_member, reject_or, remove_peer_from_lobby,
}
use tiny_lobby_tests.Game.Dispatch.{run_command}
use tiny_lobby_tests.Game.Access.{in_lobby_found, as_host_found}
use tiny_lobby_tests.Game.Rules.{seat}
use tiny_lobby_tests.Game.Consistency.{IsConsistent}
use tiny_lobby_tests.Game.Moves.Agreement.{same_roster}
use tiny_lobby_tests.Game.Moves.Departure.{removed, callback_none}

module _ (lua : LuaCall) (p id u : String) (d : Option Json) (peer : PeerData) (lobby : LobbyData)
    (w : World) (c : IsConsistent w.game) (quiet : w.game.enabled_callbacks ≡ [])
    (known : FlatMap.find p w.game.peers ≡ some peer) (placed : peer.lobby_id ≢ "")
    (found : FlatMap.find peer.lobby_id w.game.lobbies ≡ some lobby)
    (stays : lobby.disband_on_leave ≡ false)
    (closes : is_relay w.game ≡ true → w.game.disband_on_leave ≡ true) where
  own_id : peer.id ≡ p
  own_id = c.own_ids p peer.id peer.lobby_id (rw known refl)

  own_lobby : lobby.id ≡ peer.lobby_id
  own_lobby = c.lobby_ids peer.lobby_id lobby.id lobby.host lobby.peer_ids (rw found refl)

  inside : FlatSet.contains p lobby.peer_ids ≡ true
  inside =
      let (h, ps, r, m) = c.placed p peer.id peer.lobby_id (rw known refl) placed in
      let same =
        same_roster peer.lobby_id lobby.id h lobby.host ps lobby.peer_ids _ r (rw found refl) in
      ap (FlatSet.contains p) (sym same) ∙ m

  leaves : on_leave_lobby lua id p w ≡ remove_peer_from_lobby lua peer.lobby_id peer.id id false w
  unfolding on_leave_lobby
  leaves = in_lobby_found p peer lobby w known placed found id _

  kicks :
      (t : String)
      → lobby.host ≡ p
      → decode_string_or_default d "p" "" ≡ t
      → t ≢ ""
      → t ≢ p
      → FlatSet.contains t lobby.peer_ids ≡ true
      → on_kick_peer lua id p d w ≡ remove_peer_from_lobby lua peer.lobby_id t id true w
  unfolding on_kick_peer kick_member ◌>>=◌ reject_or
  kicks t h e n o m =
      rw
        (
          as_host_found p peer lobby w known placed found (h ∙ sym own_id) id
              (kick_member lua id d),
          own_id,
          e,
          beq_ne t "" n,
          m,
          beq_ne p t (λ q. o (sym q)),
          callback_none lua p peer.lobby_id "_can_host_kick" (str t ∷ []) w quiet,
        )
        refl

  -- In a game without callbacks in which peers and lobbies agree, where `disband_on_leave` is set if it
  -- is a relay game, and is not set for the lobby itself, a member that leaves is in no lobby afterwards,
  -- and peers and lobbies agree again: who names a lobby is a member of it, every member names its
  -- lobby, and every lobby is hosted by a member.
  pub leave_lobby_lem :
      IsConsistent (run_command lua Command.leave_lobby id p d u w).1.game
      × (seat (FlatMap.find p (run_command lua Command.leave_lobby id p d u w).1.game.peers)
          ≡ some (p, ""))
  unfolding run_command
  leave_lobby_lem =
      rw (leaves, own_id)
        (removed peer.lobby_id p id lobby w c found own_lobby inside stays closes lua false quiet)

  -- In a game without callbacks in which peers and lobbies agree, where `disband_on_leave` is set if it
  -- is a relay game, and is not set for the lobby itself, a host that kicks another member moves that
  -- member out of the lobby, and peers and lobbies agree again.
  pub kick_peer_lem :
      (t : String)
      → lobby.host ≡ p
      → decode_string_or_default d "p" "" ≡ t
      → t ≢ ""
      → t ≢ p
      → FlatSet.contains t lobby.peer_ids ≡ true
      → IsConsistent (run_command lua Command.kick_peer id p d u w).1.game
        × (seat (FlatMap.find t (run_command lua Command.kick_peer id p d u w).1.game.peers)
            ≡ some (t, ""))
  unfolding run_command
  kick_peer_lem t h e n o m =
      rw (kicks t h e n o m)
        (removed peer.lobby_id t id lobby w c found own_lobby m stays closes lua true quiet)
