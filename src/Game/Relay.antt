-- ===== src/Game/Relay.antt =====
-- The commands of a relay lobby: shared data of the lobby and of its peers, and notifications
-- (src/game/game_thread.cpp).
mod Stage
mod Commands
unfoldable pub use Stage.{stage_lobby, stage_peer}
unfoldable pub use Commands.{
  as_relay_host, with_relay_data, with_target, publish_lobby, publish_peer, on_lobby_data,
  on_data_to, on_data_to_all, on_notify_to, on_lobby_notify,
}
