-- ===== src/Lib.antt =====
-- tiny_lobby: the game server's core, as a model of its code.
--
-- The server holds games; a game holds peers and lobbies. The socket server upgrades a connection,
-- after a login where the client has one, and hands events (a connection, a close, a message) to the
-- game thread, whose handlers change the game's data and send texts back, at once or in batches. A
-- game may have a script, which handlers call, which may refuse a command, and which reads and writes
-- the lobby of the call through an object and its functions.
--
-- Which file models what, with paths of the repository:
--   Prelude, Prelude/Tests, Prelude/Int  shared names, Boolean tests, signed integers and their casts
--   FlatMap, FlatSet    boost's flat_map and flat_set, and std::unordered_map, as lists by rising key
--   Yyjson              the values of the parser yyjson, by its documentation
--   AnyType             src/common/any_type.h and .cpp: Decode has the decoders, Encode to_yyjson,
--                       Equality operator==
--   Messages            src/game/game_thread_messages.h: notifications; Command and Errors below it
--   Peer, Lobby         src/game/peer_data.h and lobby_data.h
--   Game                src/game/game_data.h, and the world of a handler: the game, what sending
--                       changes, and the time
--   Game/Monad          an action on the world; `get_` is operator[] of a map, which makes a missing
--                       entry, `read_` and `modify_` go through a reference
-- The handlers of src/game/game_thread.cpp keep their names:
--   Game/Send           send, on_error, handle_send
--   Game/Scripts        scripted_function_call, notify_lobby_changes
--   Game/Membership     on_create_lobby, on_join_lobby, on_leave_lobby, on_kick_peer, on_quick_join,
--                       remove_peer_from_lobby, and the checks that handlers share
--   Game/Connection     on_connect, on_close, handle_disconnects
--   Game/Host           sealing, readiness, settings, tags and user data
--   Game/Relay          the commands of a relay game
--   Game/Lobbies        on_list_lobby, on_stop_list_lobby, handle_lobby_list
--   Game/Chat           on_chat_lobby, on_lobby_call, strip_BBCode (strip_bb_code)
--   Game/Dispatch       handle_events, from the event on: run_command is its switch
--   Game/Clock          handle_tick, reload_game; GameData::open of src/game/game_data.h
-- The socket server, src/websocket/websocket_server.cpp:
--   WebSocket           the records of the server, of a socket and of a connection
--   WebSocket/Upgrade   on_upgrade; Protocols: what it reads of a header
--   WebSocket/Handlers  on_open, on_message, on_close, send, send_all, clear_users and the end
-- The login, src/authentication:
--   Authentication      AuthenticationThread::run for one message, LoginClient::verify_jwt; Login:
--                       which connections are upgraded
-- The scripts, src/lua:
--   Lua                 the values of the Lua library
--   Lua/Value           decode_luavalue, push_lua_value; Tables: what comes back
--   Lua/Api             the functions of the object lobby, and what the game thread does for them
--   Lua/Userdata, Lua/Reads  lobby_newindex and lobby_index
--   Lua/Call            ScriptLua::func_call
-- The proofs:
--   Game/Access         who may give which command
--   Game/Rules, Game/Consistency, Game/Keeping  the membership (who is in which lobby, who hosts it),
--                       when peers and lobbies agree on it, and the actions that leave it alone
--   Game/Moves          how actions change the membership, entry by entry: departures, and what the
--                       settings change
--   Game/Entry          the listing, messages of unknown peers; Joining, Seating: who is let
--                       into a lobby, and where it is then
--   Game/Host/Changes   the changes of tags and user data, key by key
--   Game/Send/Batches, Delivery  sending at once and in batches, and what a peer gets of a batch
--   AnyType/Totality    which documents the decoders accept
--   Game/Clock/Aligned  the sending clock
--   WebSocket/Links, Closing, Opening, Admission, Dropping, Sessions, Runs  which socket an id has,
--                       call by call and along runs of calls
--   WebSocket/RateLimit (Meter for one message), Takeover  the bound of messages, and who takes over a session
--   Lua/Writes, Lua/Looks, Lua/Script  what scripts do to the membership
--   WebSocket/Tests, Authentication/Tests, Lua/Tests  the theorems at work
--   Game/Samples        a small game, with the theorems at work on it
--
-- Every loop of the source goes over a finite list, so that the model needs no fuel. A handler of the
-- source gets references to a peer or a lobby; here it gets the key. Where an entry has been erased
-- while a reference to it is in use, the source's behaviour is undefined; the model reads the default
-- and loses the write. Signed 64-bit numbers keep their wrap-around where the source converts them to
-- unsigned or narrower ones. The order of an unordered_map is not specified; the model's is by key.
--
-- What other libraries do is an argument. The socket server has an `Env`: the time, fresh uuids,
-- whether a queue takes a message (`accepts`), and whether ending a socket calls on_close at once
-- (`closes_at_once`). The login has the answers of its requests. Scripts have `Numbers`, the
-- arithmetic of doubles of the Lua library, and their own steps: a `LuaCall` for the handlers, an
-- `Engine` for func_call.
--
-- Not modelled: the loop of uWebSockets, HTTP requests, the login's own client of the websocket, the
-- database (src/database), whose SQL a library runs, files, configuration and logging, which are input
-- and output or bindings of other libraries; of src/game/game_thread.cpp also load_games, unload_game,
-- run and time_run, and handle_timers and handle_afk, which erase from a map or a set while they
-- iterate over it, so that their behaviour is undefined; of src/lua opening an engine, require, files,
-- HTTP requests and JSON for scripts. The log is left out.
pub mod Prelude
pub mod FlatMap
pub mod FlatSet
pub mod Yyjson
pub mod AnyType
pub mod Messages
pub mod Peer
pub mod Lobby
pub mod Game
pub mod WebSocket
pub mod Authentication
pub mod Lua
