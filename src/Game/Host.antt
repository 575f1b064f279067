-- ===== src/Game/Host.antt =====
-- The commands that change a lobby's settings or a peer's state (src/game/game_thread.cpp).
mod Seal
mod Ready
mod Settings
mod Tags
pub mod Changes
unfoldable pub use Seal.{set_lobby_sealed, seal, on_seal_lobby, on_unseal_lobby}
unfoldable pub use Ready.{
  set_lobby_ready, restore_or, change_ready, on_lobby_ready, on_lobby_unready,
}
unfoldable pub use Settings.{
  apply_setting, resize, on_lobby_max_players, on_lobby_title, on_lobby_password,
}
unfoldable pub use Tags.{
  is_null, apply_changes, decode_changes, set_tags, on_lobby_tags, on_user_data,
}
