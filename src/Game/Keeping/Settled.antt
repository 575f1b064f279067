-- ===== src/Game/Keeping/Settled.antt =====
-- The commands that no peer changes its lobby by (the switch of `handle_events`,
-- src/game/game_thread.cpp).
use tiny_lobby_tests.Prelude.{Bool, true, false, String, Option, ◌≡◌, refl, not}
use tiny_lobby_tests.Yyjson.{Json}
use tiny_lobby_tests.FlatSet
use tiny_lobby_tests.Messages.Command.{Command}
use tiny_lobby_tests.Game.{World}
use tiny_lobby_tests.Game.Scripts.{LuaCall}
use tiny_lobby_tests.Game.Host.{on_seal_lobby, on_unseal_lobby}
use tiny_lobby_tests.Game.Lobbies.{on_stop_list_lobby}
use tiny_lobby_tests.Game.Dispatch.{run_command}
use tiny_lobby_tests.Game.Rules.{
  SameMembership, Keeps, Keeps-bind, Keeps-if, Keeps-game, Keeps-get_game, Keeps-get_peer,
  Keeps-send,
}
use tiny_lobby_tests.Game.Consistency.{IsTame, Known, Known-steady}
use tiny_lobby_tests.Game.Keeping.Handlers.{
  seal-Keeps, on_lobby_max_players-Keeps, on_lobby_title-Keeps, on_lobby_password-Keeps,
  on_lobby_tags-Keeps, on_chat_lobby-Keeps, on_lobby_call-Keeps, on_lobby_ready-Keeps,
  on_lobby_unready-Keeps, on_user_data-Keeps,
}
use tiny_lobby_tests.Game.Keeping.Relaying.{
  on_lobby_data-Keeps, on_data_to-Keeps, on_data_to_all-Keeps, on_notify_to-Keeps,
  on_lobby_notify-Keeps,
}

on_stop_list_lobby-Keeps : (id p : String) → Keeps (Known p) (on_stop_list_lobby id p)
unfolding on_stop_list_lobby
on_stop_list_lobby-Keeps id p =
    let steady = Known-steady p in
    Keeps-bind steady _ _ (Keeps-get_peer p (λ g c. c.1)) λ peer.
      Keeps-bind steady _ _ Keeps-get_game λ game.
        Keeps-if (not (FlatSet.contains peer.id game.lobby_listing_peers)) _ _ (Keeps-send _ _ _) (
          Keeps-bind steady _ _
            (Keeps-game _ (λ g. record {
              seats = λ q. refl;
              rosters = λ k. refl;
              control = refl;
              disbands = refl;
              callbacks = refl;
            }))
            λ _. Keeps-send _ _ _)

-- The commands that are not about coming, going or listing.
abbrev pub is_settled : Command → Bool
is_settled Command.create_lobby = false
is_settled Command.join_lobby = false
is_settled Command.lobby_quick_join = false
is_settled Command.leave_lobby = false
is_settled Command.kick_peer = false
is_settled Command.list_lobby = false
is_settled _ = true

module _ {lua : LuaCall} (tame : IsTame lua) (id p : String) (d : Option Json) (u : String) where
  settled-Keeps : (c : Command) → is_settled c ≡ true → Keeps (Known p) (run_command lua c id p d u)
  unfolding run_command on_seal_lobby on_unseal_lobby
  settled-Keeps Command.lobby_data h = on_lobby_data-Keeps id p d
  settled-Keeps Command.lobby_data_to h = on_data_to-Keeps id p d
  settled-Keeps Command.lobby_data_to_all h = on_data_to_all-Keeps id p d
  settled-Keeps Command.lobby_notify_to h = on_notify_to-Keeps id p d
  settled-Keeps Command.lobby_notify h = on_lobby_notify-Keeps id p d
  settled-Keeps Command.lobby_call h = on_lobby_call-Keeps tame id p d
  settled-Keeps Command.stop_listing h = on_stop_list_lobby-Keeps id p
  settled-Keeps Command.chat_lobby h = on_chat_lobby-Keeps tame id p d
  settled-Keeps Command.lobby_tags h = on_lobby_tags-Keeps tame id p d
  settled-Keeps Command.user_data h = on_user_data-Keeps tame id p d
  settled-Keeps Command.lobby_ready h = on_lobby_ready-Keeps tame id p
  settled-Keeps Command.lobby_unready h = on_lobby_unready-Keeps tame id p
  settled-Keeps Command.lobby_seal h = seal-Keeps tame id p true
  settled-Keeps Command.lobby_unseal h = seal-Keeps tame id p false
  settled-Keeps Command.lobby_max_players h = on_lobby_max_players-Keeps tame id p d
  settled-Keeps Command.lobby_title h = on_lobby_title-Keeps tame id p d
  settled-Keeps Command.lobby_password h = on_lobby_password-Keeps tame id p d
  settled-Keeps _ h = cc

  -- Where the peers and the lobbies agree, the sender is known and the script leaves the membership
  -- alone, every command but those to create, join, quick-join, leave, kick and list keeps each
  -- peer's id and lobby, and each lobby's id, host and members.
  pub settled_command :
      (w : World) (c : Command)
      → Known p w.game
      → is_settled c ≡ true
      → SameMembership w.game (run_command lua c id p d u w).1.game
  settled_command w c k h = (settled-Keeps c h).at w k
