-- ===== src/Game/Moves/Tags.antt =====
-- What the command for a lobby's tags changes: `on_lobby_tags` of src/game/game_thread.cpp.
use tiny_lobby_tests.Prelude.{
  false, String, Option, some, [], ◌∷◌, ◌≡◌, ◌≢◌, refl, ap, ◌∙◌, beq_self,
}
use tiny_lobby_tests.FlatMap.{FlatMap, IsDistinct}
use tiny_lobby_tests.FlatMap
use tiny_lobby_tests.FlatSet
use tiny_lobby_tests.AnyType.{AnyElement, object}
use tiny_lobby_tests.AnyType.Decode.{ok}
use tiny_lobby_tests.Yyjson.{Json}
use tiny_lobby_tests.Peer.{PeerData}
use tiny_lobby_tests.Lobby.{LobbyData}
use tiny_lobby_tests.Messages.{notification_tags}
use tiny_lobby_tests.Messages.Command.{Command}
use tiny_lobby_tests.Game.{World}
use tiny_lobby_tests.Game.Monad.{M, ◌>>=◌, ◌>>◌, pure, get_game, modify_lobby, read_lobby}
use tiny_lobby_tests.Game.Send.{send_text, send_to_others, mark_updated}
use tiny_lobby_tests.Game.Scripts.{LuaCall, callback, text_result}
use tiny_lobby_tests.Game.Membership.{with_decoded, reject_or}
use tiny_lobby_tests.Game.Host.{apply_changes, decode_changes, on_lobby_tags, set_tags}
use tiny_lobby_tests.Game.Host.Changes.{changed, find-apply_changes_distinct}
use tiny_lobby_tests.Game.Dispatch.{run_command}
use tiny_lobby_tests.Game.Access.{as_host_found}
use tiny_lobby_tests.Game.Moves.Still.{Still, still}

tell_tags :
    (k p id : String)
    → Still (
        read_lobby k >>= λ lobby.
        send_to_others lobby.peer_ids p (notification_tags (object lobby.tags) "")
        >> send_text p (notification_tags (object lobby.tags) id)
        >> mark_updated k)
unfolding send_to_others
tell_tags k p id = search still depth 20

module _ (lua : LuaCall) (p id u : String) (d : Option Json) (peer : PeerData) (lobby : LobbyData)
    (changes : FlatMap AnyElement) (w : World) (known : FlatMap.find p w.game.peers ≡ some peer)
    (placed : peer.lobby_id ≢ "") (found : FlatMap.find peer.lobby_id w.game.lobbies ≡ some lobby)
    (host : lobby.host ≡ peer.id) (decoded : decode_changes d "t" ≡ ok changes)
    (free : FlatSet.contains "_can_host_set_tags" w.game.enabled_callbacks ≡ false) where
  abbrev tagged : LobbyData → LobbyData
  tagged l = record l { tags = apply_changes changes l.tags }

  abbrev body : PeerData → LobbyData → M (Unit {0})
  body q l = with_decoded id q.id (decode_changes d "t") λ new_tags. do
    (value, has_error) ← callback lua q.id q.lobby_id "_can_host_set_tags" (object new_tags ∷ [])
    reject_or id q.id (text_result (value, has_error)) has_error
        (set_tags q.lobby_id q.id id new_tags)

  set_tags-reached :
      run_command lua Command.lobby_tags id p d u w ≡ set_tags peer.lobby_id peer.id id changes w
  unfolding run_command on_lobby_tags with_decoded reject_or callback ◌>>=◌ get_game pure
  set_tags-reached =
      as_host_found p peer lobby w known placed found host id body ∙ rw (decoded, free) refl

  tagged_lobbies :
      (run_command lua Command.lobby_tags id p d u w).1.game.lobbies
      ≡ FlatMap.adjust peer.lobby_id tagged w.game.lobbies
  unfolding set_tags ◌>>=◌ modify_lobby
  tagged_lobbies =
      ap (λ (r : Unit × World). r.1.game.lobbies) set_tags-reached
      ∙ (tell_tags peer.lobby_id peer.id id).at (modify_lobby peer.lobby_id tagged w).1

  -- When the host gives the command for the lobby's tags, whose object decodes to changes with distinct
  -- keys, in a game whose script has no callback for it, then each tag that a change names is gone if
  -- the change is null and has the change's value otherwise, every other tag stays as it was, and
  -- nothing else of the lobby changes.
  pub lobby_tags_lem :
      IsDistinct changes
      → (tags : FlatMap AnyElement) × (FlatMap.find peer.lobby_id
            (run_command lua Command.lobby_tags id p d u w).1.game.lobbies
          ≡ some (record lobby { tags = tags }))
        × ((j : String)
            → FlatMap.find j tags ≡ changed (FlatMap.find j changes) (FlatMap.find j lobby.tags))
  lobby_tags_lem distinct = (
    apply_changes changes lobby.tags,
    ap (FlatMap.find peer.lobby_id) tagged_lobbies
        ∙ FlatMap.find-adjust peer.lobby_id peer.lobby_id tagged w.game.lobbies
        ∙ rw (beq_self peer.lobby_id, found) refl,
    λ j. find-apply_changes_distinct j changes lobby.tags distinct,
  )
