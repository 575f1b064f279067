-- ===== src/WebSocket/Takeover.antt =====
-- Who may take over a session: `on_open` of src/websocket/websocket_server.cpp does not look at how a
-- socket came by its token.
use Prim.Native.String
use tiny_lobby_tests.Prelude.{ℕ, true, String, none, ◌≡◌, ◌≢◌}
use tiny_lobby_tests.FlatMap
use tiny_lobby_tests.WebSocket.{PerSocketData, WebSocketServer, Env}
use tiny_lobby_tests.WebSocket.Handlers.{reconnection_key}
use tiny_lobby_tests.WebSocket.Links.{IsLinked}
use tiny_lobby_tests.WebSocket.Opening.{IsFresh}

-- What a user's platform and the id there make of its token.
abbrev pub platform_token : PerSocketData → String
platform_token d = String.◌++◌ d.platform (String.◌++◌ ":" d.platform_id)

module _ (env : Env) (v ws : ℕ) (s : WebSocketServer)
    (linked : IsLinked s.connection_data s.sockets) (fresh_v : IsFresh s.connection_data v)
    (fresh_ws : IsFresh s.connection_data ws) (other : v ≢ ws)
    (logged : (s.sockets v).platform ≢ "anon")
    (token : (s.sockets v).reconnection_token ≡ platform_token (s.sockets v))
    (new : FlatMap.find (reconnection_key (s.sockets v)) s.reconnections ≡ none)
    (accepts : env.accepts ≡ true) where
  abbrev user : PerSocketData
  user = record (s.sockets v) { reconnection_token = platform_token (s.sockets v) }
