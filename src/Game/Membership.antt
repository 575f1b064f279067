-- ===== src/Game/Membership.antt =====
-- Creating, joining and leaving a lobby (src/game/game_thread.cpp).
mod Leave
mod Join
mod Guards
pub mod QuickJoin
unfoldable pub use Leave.{
  remove_peer_from_lobby, on_leave_lobby, kick_member, on_kick_peer, disband, first_other,
  hand_over, tell_left, close_if_left, erase_member,
}
unfoldable pub use Join.{
  report, peers_array, peers_to_array, sort_by_order, join_lobby_id, join_refused, enter_lobby,
  open_lobby, announce_join, admit, on_join_lobby, on_create_lobby,
}
unfoldable pub use Guards.{reject_or, with_decoded, in_lobby, as_host}
