-- ===== src/WebSocket/Tests.antt =====
-- The theorems about the socket server at work on a small server.
use tiny_lobby_tests.Prelude.{
  ℕ, ◌+◌, ◌*◌, ◌≤◌, true, some, [], ◌∷◌, ◌≡◌, ◌≢◌, refl, arith, eqb, eq_iff, if◌then◌else◌,
}
use tiny_lobby_tests.Prelude.Int.{pos}
use tiny_lobby_tests.FlatMap
use tiny_lobby_tests.Game.{text_frame}
use tiny_lobby_tests.WebSocket.{
  PerSocketData, PeerConnectionData, WebSocketServer, Env, default_socket_data, sent, ended,
}
use tiny_lobby_tests.WebSocket.Handlers.{on_close, connection}
use tiny_lobby_tests.WebSocket.Links.{IsLinked}
use tiny_lobby_tests.WebSocket.Opening.{holder, IsFresh}
use tiny_lobby_tests.WebSocket.Sessions.{Event}
use tiny_lobby_tests.WebSocket.Runs.{run, replay, run_refines, closed_socket_forgotten}
use tiny_lobby_tests.WebSocket.RateLimit.Meter.{arrivals, allowance}
use tiny_lobby_tests.WebSocket.RateLimit.{deliver, burst_bound}
use tiny_lobby_tests.WebSocket.Upgrade.{Upgrade, hand_on, on_upgrade}
use tiny_lobby_tests.WebSocket.Protocols.{on_upgrade_reads, token_header, game_header}

-- A user that is logged in through Steam, and one that is not but knows that user's token.
abbrev steam_user : PerSocketData
steam_user = record default_socket_data {
  id = "aaaa";
  game_id = "chess";
  reconnection_token = "steam:42";
  platform = "steam";
  platform_id = "42";
}

abbrev stranger : PerSocketData
stranger = record default_socket_data {
  id = "bbbb";
  game_id = "chess";
  reconnection_token = "steam:42";
}

abbrev empty_server : WebSocketServer
empty_server = record {
  max_users = pos 10;
  max_messages_per_second = pos 2;
  connected_users = pos 0;
  connection_data = [];
  reconnections = [];
  sockets = λ ws. if eqb ws 1 then steam_user else stranger;
  receive_queue = [];
  frames = [];
}

abbrev moment : ℕ → Env
moment now = record { now = now; uuid = "0123456789"; accepts = true; closes_at_once = true }

none-IsLinked : IsLinked empty_server.connection_data empty_server.sockets
unfolding FlatMap.find
none-IsLinked id c ws e held = cc

none-IsFresh : (ws : ℕ) → IsFresh empty_server.connection_data ws
unfolding FlatMap.find
none-IsFresh ws id held = cc

run_refines_example :
    let calls = Event.opened (moment 1000) 1 ∷ Event.closed (moment 2000) 1 "" ∷ [] in
    (holder (run calls empty_server).connection_data
      ≡ replay calls empty_server (holder empty_server.connection_data))
    × IsLinked (run calls empty_server).connection_data (run calls empty_server).sockets
run_refines_example =
    run_refines (Event.opened (moment 1000) 1 ∷ Event.closed (moment 2000) 1 "" ∷ []) empty_server
      none-IsLinked (none-IsFresh 1, (tt, tt))

-- The server with the user's socket.
abbrev served : WebSocketServer
served = record empty_server { connection_data = ("aaaa", connection 1 steam_user) ∷ [] }

served-IsLinked : IsLinked served.connection_data served.sockets
unfolding FlatMap.find
served-IsLinked id c ws e held =
    (ground (arith, eq_iff "aaaa" id), ground (arith, eq_iff "aaaa" id))

closed_socket_forgotten_example :
    holder
      (run
        (Event.told (moment 3000) "aaaa" "hello" text_frame ∷ [])
        (on_close (moment 2000) 1 "bye" served)).connection_data
      "aaaa"
    ≢ some 1
closed_socket_forgotten_example =
    closed_socket_forgotten (moment 2000) 1 "bye"
      (Event.told (moment 3000) "aaaa" "hello" text_frame ∷ []) served served-IsLinked (tt, tt)
      (tt, tt) "aaaa"

burst_bound_example :
    arrivals
      (deliver 1
        ((moment 1000, "a") ∷ (moment 1500, "b") ∷ (moment 1999, "c") ∷ [])
        served).receive_queue
    ≤ arrivals served.receive_queue + 2 * allowance served.max_messages_per_second
burst_bound_example =
    burst_bound 1 1000 ((moment 1000, "a") ∷ (moment 1500, "b") ∷ (moment 1999, "c") ∷ []) served
      (omega arith)

on_upgrade_reads_example :
    (on_upgrade "0123456789" "u1" true (token_header "chess" "tok") served
      ≡ hand_on (record default_socket_data {
        uid = "u1";
        id = "01234567";
        game_id = "chess";
        reconnection_token = "tok";
      }))
    × (on_upgrade "0123456789" "u1" true (game_header "chess") served
        ≡ hand_on (record default_socket_data {
          uid = "u1";
          id = "01234567";
          game_id = "chess";
          reconnection_token = "0123456789";
        }))
unfolding tiny_lobby_tests.WebSocket.Upgrade.trim
on_upgrade_reads_example =
    on_upgrade_reads "0123456789" "u1" served "chess" "tok"
      (record { plain = refl; trimmed = refl }) (record { plain = refl; trimmed = refl }) refl
