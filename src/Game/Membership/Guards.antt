-- ===== src/Game/Membership/Guards.antt =====
-- The checks that most handlers of src/game/game_thread.cpp begin with.
use tiny_lobby_tests.Prelude.{Bool, false, not, String, Option, none, some, ◌==◌, if◌then◌else◌}
use tiny_lobby_tests.FlatMap.{FlatMap}
use tiny_lobby_tests.AnyType.{AnyElement}
use tiny_lobby_tests.AnyType.Decode.{Result, ok, err}
use tiny_lobby_tests.Peer.{PeerData}
use tiny_lobby_tests.Lobby.{LobbyData}
use tiny_lobby_tests.Messages.Errors.{error_peer_not_in_a_lobby, error_peer_not_host}
use tiny_lobby_tests.Game.Monad.{M, ◌>>=◌, get_peer, get_lobby}
use tiny_lobby_tests.Game.Send.{on_error}

-- if (a refusal) return on_error(...); otherwise `rest`.
unfoldable pub reject_or : String → String → Option String → Bool → M (Unit {0}) → M (Unit {0})
reject_or command_id peer_id (some message) has_error rest =
    on_error command_id peer_id message false has_error
reject_or command_id peer_id none has_error rest = rest

-- The decoder's error is reported, or `body` goes on with what it decoded.
unfoldable pub with_decoded :
    String
    → String
    → Result (FlatMap AnyElement)
    → (FlatMap AnyElement → M (Unit {0}))
    → M (Unit {0})
with_decoded command_id peer_id (err error) body = on_error command_id peer_id error false false
with_decoded command_id peer_id (ok new_data) body = body new_data

-- The peer is in a lobby; `body` has both.
unfoldable pub in_lobby : String → String → (PeerData → LobbyData → M (Unit {0})) → M (Unit {0})
in_lobby command_id peer_id body = do
  peer ← get_peer peer_id
  if peer.lobby_id == ""
      then on_error command_id peer.id error_peer_not_in_a_lobby false false
      else get_lobby peer.lobby_id >>= body peer

-- The peer is the host of its lobby.
unfoldable pub as_host : String → String → (PeerData → LobbyData → M (Unit {0})) → M (Unit {0})
unfolding in_lobby
as_host command_id peer_id body = in_lobby command_id peer_id λ peer lobby.
    if not (lobby.host == peer.id)
    then on_error command_id peer.id error_peer_not_host false false
    else body peer lobby
