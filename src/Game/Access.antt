-- ===== src/Game/Access.antt =====
-- Who may run which command (src/game/game_thread.cpp).
use tiny_lobby_tests.Prelude.{
  Bool, true, false, String, Option, some, ◌≡◌, ◌≢◌, beq_ne, beq_self, ap,
}
use tiny_lobby_tests.FlatMap
use tiny_lobby_tests.Yyjson.{Json}
use tiny_lobby_tests.Peer.{PeerData}
use tiny_lobby_tests.Lobby.{LobbyData}
use tiny_lobby_tests.Messages.Command.{Command}
use tiny_lobby_tests.Messages.Errors.{error_peer_not_host}
use tiny_lobby_tests.Game.{World}
use tiny_lobby_tests.Game.Monad.{M, ◌>>=◌, get_peer, read_peer, get_lobby, read_lobby}
use tiny_lobby_tests.Game.Send.{on_error}
use tiny_lobby_tests.Game.Scripts.{LuaCall}
use tiny_lobby_tests.Game.Membership.{in_lobby, as_host, on_kick_peer}
use tiny_lobby_tests.Game.Host.{on_lobby_tags, on_seal_lobby, on_unseal_lobby}
use tiny_lobby_tests.Game.Relay.{on_lobby_data, on_data_to, on_data_to_all, on_notify_to}
use tiny_lobby_tests.Game.Dispatch.{run_command}

-- operator[] on an entry that is there changes nothing.
pub get_peer_found :
    (p : String) (peer : PeerData) (w : World)
    → FlatMap.find p w.game.peers ≡ some peer
    → get_peer p w ≡ (peer, w)
unfolding get_peer FlatMap.emplace
get_peer_found p peer w h = rw (h, get_peer)

pub read_peer_found :
    (p : String) (peer : PeerData) (w : World)
    → FlatMap.find p w.game.peers ≡ some peer
    → read_peer p w ≡ (peer, w)
unfolding read_peer
read_peer_found p peer w h = rw (h, read_peer)

pub bind_step :
    {A B : Type 0} (m : M A) (f : A → M B) {w w' : World} {a : A}
    → m w ≡ (a, w')
    → (m >>= f) w ≡ f a w'
unfolding ◌>>=◌
bind_step m f e = ap (λ (r : _ × World). f r.0 r.1) e

pub get_lobby_found :
    (k : String) (lobby : LobbyData) (w : World)
    → FlatMap.find k w.game.lobbies ≡ some lobby
    → get_lobby k w ≡ (lobby, w)
unfolding get_lobby FlatMap.emplace
get_lobby_found k lobby w h = rw (h, get_lobby)

pub read_lobby_found :
    (k : String) (lobby : LobbyData) (w : World)
    → FlatMap.find k w.game.lobbies ≡ some lobby
    → read_lobby k w ≡ (lobby, w)
unfolding read_lobby
read_lobby_found k lobby w h = rw (h, read_lobby)

module _ (p : String) (peer : PeerData) (lobby : LobbyData) (w : World)
    (known : FlatMap.find p w.game.peers ≡ some peer) (placed : peer.lobby_id ≢ "")
    (found : FlatMap.find peer.lobby_id w.game.lobbies ≡ some lobby) where
  pub in_lobby_found :
      (id : String) (body : PeerData → LobbyData → M Unit)
      → in_lobby id p body w ≡ body peer lobby w
  unfolding in_lobby ◌>>=◌
  in_lobby_found id body = rw (
    get_peer_found p peer w known,
    beq_ne peer.lobby_id "" placed,
    get_lobby_found peer.lobby_id lobby w found,
  )

pub as_host_found :
    (p : String) (peer : PeerData) (lobby : LobbyData) (w : World)
    → FlatMap.find p w.game.peers ≡ some peer
    → peer.lobby_id ≢ ""
    → FlatMap.find peer.lobby_id w.game.lobbies ≡ some lobby
    → lobby.host ≡ peer.id
    → (id : String) (body : PeerData → LobbyData → M Unit) → as_host id p body w ≡ body peer lobby w
unfolding as_host
as_host_found p peer lobby w known placed found host id body =
    rw (in_lobby_found p peer lobby w known placed found, host, beq_self peer.id)

-- The commands that only the host of a lobby may give.
abbrev pub host_only : Command → Bool
host_only Command.lobby_data = true
host_only Command.lobby_data_to = true
host_only Command.lobby_data_to_all = true
host_only Command.lobby_notify_to = true
host_only Command.lobby_tags = true
host_only Command.kick_peer = true
host_only Command.lobby_seal = true
host_only Command.lobby_unseal = true
host_only _ = false

module _ (p : String) (peer : PeerData) (lobby : LobbyData) (w : World)
    (known : FlatMap.find p w.game.peers ≡ some peer) (placed : peer.lobby_id ≢ "")
    (found : FlatMap.find peer.lobby_id w.game.lobbies ≡ some lobby)
    (guest : lobby.host ≢ peer.id) where
  as_host_refused :
      (id : String) (body : PeerData → LobbyData → M Unit)
      → as_host id p body w ≡ on_error id peer.id error_peer_not_host false false w
  unfolding as_host
  as_host_refused id body =
      rw (in_lobby_found p peer lobby w known placed found, beq_ne lobby.host peer.id guest)

  -- A member of a lobby that is not its host and gives a command to set data or tags, to notify one
  -- peer, to kick, to seal or to unseal gets the error ERROR_PEER_NOT_HOST, and nothing else happens.
  pub host_only_refused :
      (lua : LuaCall) (c : Command) (id : String) (d : Option Json) (uuid : String)
      → host_only c ≡ true
      → run_command lua c id p d uuid w ≡ on_error id peer.id error_peer_not_host false false w
  unfolding run_command on_lobby_data on_data_to on_data_to_all on_notify_to on_lobby_tags
      on_kick_peer on_seal_lobby on_unseal_lobby
  host_only_refused lua Command.lobby_data id d uuid h = as_host_refused id _
  host_only_refused lua Command.lobby_data_to id d uuid h = as_host_refused id _
  host_only_refused lua Command.lobby_data_to_all id d uuid h = as_host_refused id _
  host_only_refused lua Command.lobby_notify_to id d uuid h = as_host_refused id _
  host_only_refused lua Command.lobby_tags id d uuid h = as_host_refused id _
  host_only_refused lua Command.kick_peer id d uuid h = as_host_refused id _
  host_only_refused lua Command.lobby_seal id d uuid h = as_host_refused id _
  host_only_refused lua Command.lobby_unseal id d uuid h = as_host_refused id _
  host_only_refused lua _ id d uuid h = cc
