-- ===== src/Game/Keeping/Handlers.antt =====
-- The handlers of src/game/game_thread.cpp that only change settings, data and states: none of them
-- moves a peer.
use tiny_lobby_tests.Prelude.{
  Bool, true, false, String, Option, none, some, ◌≡◌, ◌≢◌, refl, ◌==◌, not, ne_of_test,
}
use tiny_lobby_tests.FlatMap
use tiny_lobby_tests.AnyType.{AnyElement}
use tiny_lobby_tests.Yyjson.{Json}
use tiny_lobby_tests.Peer.{PeerData}
use tiny_lobby_tests.Lobby.{LobbyData}
use tiny_lobby_tests.Game.{GameData, is_relay}
use tiny_lobby_tests.Game.Monad.{M}
use tiny_lobby_tests.Game.Scripts.{LuaCall}
use tiny_lobby_tests.AnyType.Decode.{
  Result, ok, err, decode_int_or_default, decode_string_or_default,
}
use tiny_lobby_tests.Prelude.Int.{pos}
use tiny_lobby_tests.Messages.{
  notification_lobby_max_players, notification_lobby_title, notification_lobby_password_protected,
}
use tiny_lobby_tests.Game.Chat.{report_metadata, on_chat_lobby, on_lobby_call}
use tiny_lobby_tests.Game.Host.{
  set_lobby_sealed, seal, set_lobby_ready, restore_or, change_ready, on_lobby_ready,
  on_lobby_unready, apply_setting, resize, on_lobby_max_players, on_lobby_title, on_lobby_password,
  set_tags, on_lobby_tags, on_user_data,
}
use tiny_lobby_tests.Game.Rules.{
  roster, Keeps, Keeps-bind, Keeps-if, Keeps-test, Keeps-on_error, Keeps-get_lobby, Keeps-get_game,
  Keeps-skip, Keeps-send, Keeps-send_to_others, Keeps-modify_peer, Keeps-get_peer, Steady,
}
use tiny_lobby_tests.Game.Consistency.{IsTame, Known, Known-steady, At, At-steady, Keeps-weaken}
use tiny_lobby_tests.Game.Keeping.{
  keeping, Seat, Seat-steady, Keeps-in_lobby, Keeps-as_host, Keeps-get_actor, Keeps-read_actor,
  Keeps-reject_or, Keeps-with_decoded, callback-At, scripted_function_call-Keeps,
}

module _ {P : GameData → Type 0} (steady : Steady P) where
  set_lobby_sealed-Keeps : (k p id : String) (b : Bool) → Keeps P (set_lobby_sealed k p id b)
  unfolding set_lobby_sealed
  set_lobby_sealed-Keeps k p id b = search (keeping, steady) depth 20

  apply_setting-Keeps :
      (k p id : String) (f : LobbyData → LobbyData) (n : String → AnyElement)
      → ((l : LobbyData) → roster (some (f l)) ≡ roster (some l))
      → Keeps P (apply_setting k p id f n)
  unfolding apply_setting
  apply_setting-Keeps k p id f n h = search (keeping, steady, h) depth 20

  set_tags-Keeps :
      (k p id : String) (tags : FlatMap.FlatMap AnyElement) → Keeps P (set_tags k p id tags)
  unfolding set_tags
  set_tags-Keeps k p id tags = search (keeping, steady) depth 20

  Keeps-restore_or :
      (id p : String) (old : PeerData) (o : Option String) (b : Bool) (m : M Unit)
      → Keeps P m
      → Keeps P (restore_or id p old o b m)
  unfolding restore_or
  Keeps-restore_or id p old none b m k = k
  Keeps-restore_or id p old (some message) b m k =
      Keeps-bind steady _ _ (Keeps-modify_peer p _ (λ q. refl))
        λ _. Keeps-on_error id old.id message false b

  report_metadata-Keeps :
      (id p : String) (r : Result (FlatMap.FlatMap AnyElement)) → Keeps P (report_metadata id p r)
  unfolding report_metadata
  report_metadata-Keeps id p (ok m) = Keeps-skip
  report_metadata-Keeps id p (err e) = Keeps-on_error id p _ false false

module _ {lua : LuaCall} (tame : IsTame lua) (id p : String) where
  pub seal-Keeps : (b : Bool) → Keeps (Known p) (seal lua id p b)
  unfolding seal
  seal-Keeps b = Keeps-as_host id p _ λ peer lobby m.
      let steady = At-steady peer.lobby_id lobby.peer_ids in
      Keeps-if _ _ _ (set_lobby_sealed-Keeps steady _ _ _ _) (
        Keeps-bind steady _ _ (callback-At tame _ _ _ _ _)
          λ r. Keeps-reject_or _ _ _ _ _ (set_lobby_sealed-Keeps steady _ _ _ _))

  pub on_lobby_max_players-Keeps :
      (d : Option Json) → Keeps (Known p) (on_lobby_max_players lua id p d)
  unfolding on_lobby_max_players resize
  on_lobby_max_players-Keeps d = Keeps-in_lobby id p _ λ peer lobby m.
      let steady = At-steady peer.lobby_id lobby.peer_ids in
      Keeps-if _ _ _ (Keeps-on_error _ _ _ _ _) (
        Keeps-bind steady _ _ (callback-At tame _ _ _ _ _) λ r. Keeps-reject_or _ _ _ _ _ (
          apply_setting-Keeps steady _ _ id _
            (notification_lobby_max_players (decode_int_or_default d "m" (pos 0))) (λ l. refl)))

  pub on_lobby_title-Keeps : (d : Option Json) → Keeps (Known p) (on_lobby_title lua id p d)
  unfolding on_lobby_title
  on_lobby_title-Keeps d = Keeps-in_lobby id p _ λ peer lobby m.
      let steady = At-steady peer.lobby_id lobby.peer_ids in
      Keeps-bind steady _ _ (callback-At tame _ _ _ _ _) λ r. Keeps-reject_or _ _ _ _ _ (
        apply_setting-Keeps steady _ _ id _
          (notification_lobby_title (decode_string_or_default d "n" "")) (λ l. refl))

  pub on_lobby_password-Keeps : (d : Option Json) → Keeps (Known p) (on_lobby_password id p d)
  unfolding on_lobby_password
  on_lobby_password-Keeps d = Keeps-in_lobby id p _ λ peer lobby m.
      apply_setting-Keeps (At-steady peer.lobby_id lobby.peer_ids) _ _ id _
        (notification_lobby_password_protected (not (decode_string_or_default d "_p" "" == "")))
        (λ l. refl)

  pub on_lobby_tags-Keeps : (d : Option Json) → Keeps (Known p) (on_lobby_tags lua id p d)
  unfolding on_lobby_tags
  on_lobby_tags-Keeps d = Keeps-as_host id p _ λ peer lobby m.
      let steady = At-steady peer.lobby_id lobby.peer_ids in
      Keeps-with_decoded id peer.id _ _ λ tags.
        Keeps-bind steady _ _ (callback-At tame _ _ _ _ _) λ r.
          Keeps-reject_or id peer.id _ _ _ (set_tags-Keeps steady peer.lobby_id peer.id id tags)

  pub on_chat_lobby-Keeps : (d : Option Json) → Keeps (Known p) (on_chat_lobby lua id p d)
  unfolding on_chat_lobby
  on_chat_lobby-Keeps d = Keeps-in_lobby id p _ λ peer lobby m.
      let steady = At-steady peer.lobby_id lobby.peer_ids in
      let lookup =
        Keeps-get_lobby peer.lobby_id (λ g (c : At peer.lobby_id lobby.peer_ids g). c.1) in
      Keeps-if _ _ _ (Keeps-on_error _ _ _ _ _) (
        Keeps-bind steady _ _ (report_metadata-Keeps steady _ _ _) λ _.
          Keeps-bind steady _ _ (callback-At tame _ _ _ _ _) λ r.
            Keeps-reject_or _ _ _ _ _
              (Keeps-bind steady _ _ lookup λ now. search (keeping, steady) depth 20))

  pub on_lobby_call-Keeps : (d : Option Json) → Keeps (Known p) (on_lobby_call lua id p d)
  unfolding on_lobby_call
  on_lobby_call-Keeps d = Keeps-get_actor p _ λ peer.
      let steady = Seat-steady p peer.lobby_id in
      Keeps-bind steady _ _ Keeps-get_game λ game.
        Keeps-if (peer.lobby_id == "") _ _ (Keeps-on_error id peer.id _ false false) (
          Keeps-if (is_relay game) _ _ (Keeps-on_error id peer.id _ false false) (
            Keeps-if (decode_string_or_default d "f" "" == "") _ _
              (Keeps-on_error id peer.id _ false false)
              (Keeps-bind steady _ _
                (Keeps-weaken _ (λ g (c : Seat p peer.lobby_id g). (c.0.0, c.1))
                  (scripted_function_call-Keeps tame _ _ _ _))
                λ r. Keeps-reject_or _ _ _ _ _ (Keeps-send _ _ _))))

  set_lobby_ready-Keeps :
      (k : String) (b : Bool) → k ≢ "" → Keeps (Seat p k) (set_lobby_ready k p id b)
  unfolding set_lobby_ready
  set_lobby_ready-Keeps k b n =
      Keeps-bind (Seat-steady p k) _ _ (Keeps-get_lobby k (λ g c. c.1 n))
        λ lobby. search (keeping, Seat-steady p k) depth 20

  change_ready-Keeps :
      (peer : PeerData) (b : Bool)
      → peer.lobby_id ≢ ""
      → Keeps (Seat p peer.lobby_id) (change_ready lua id p peer b)
  unfolding change_ready
  change_ready-Keeps peer b n =
      let steady = Seat-steady p peer.lobby_id in
      let done = set_lobby_ready-Keeps peer.lobby_id b n in
      Keeps-bind steady _ _ Keeps-get_game λ game.
        Keeps-if _ _ _
          (Keeps-bind steady _ _ (Keeps-modify_peer p _ (λ q. refl)) λ _.
            Keeps-bind steady _ _
              (Keeps-weaken _ (λ g (c : Seat p peer.lobby_id g). (c.0.0, c.1))
                (scripted_function_call-Keeps tame _ _ _ _))
              λ r. Keeps-restore_or steady id p peer _ _ _ done)
          done

  pub on_lobby_ready-Keeps : Keeps (Known p) (on_lobby_ready lua id p)
  unfolding on_lobby_ready
  on_lobby_ready-Keeps = Keeps-get_actor p _ λ peer.
      Keeps-test _ _ _ (λ _. Keeps-on_error _ _ _ _ _)
        λ e.
          Keeps-if _ _ _ (Keeps-on_error _ _ _ _ _)
            (change_ready-Keeps peer true (ne_of_test _ _ e))

  pub on_lobby_unready-Keeps : Keeps (Known p) (on_lobby_unready lua id p)
  unfolding on_lobby_unready
  on_lobby_unready-Keeps = Keeps-get_actor p _ λ peer.
      Keeps-test _ _ _ (λ _. Keeps-on_error _ _ _ _ _)
        λ e.
          Keeps-if _ _ _ (change_ready-Keeps peer false (ne_of_test _ _ e))
            (Keeps-on_error _ _ _ _ _)

  pub on_user_data-Keeps : (d : Option Json) → Keeps (Known p) (on_user_data id p d)
  unfolding on_user_data
  on_user_data-Keeps d =
      Keeps-bind (Known-steady p) _ _ (Keeps-get_peer p (λ g (c : Known p g). c.1)) λ before.
        Keeps-with_decoded _ _ _ _ λ data_new.
          Keeps-bind (Known-steady p) _ _ (Keeps-modify_peer p _ (λ q. refl)) λ _.
            Keeps-read_actor p _ λ peer.
              Keeps-bind (Seat-steady p peer.lobby_id) _ _
                (Keeps-test _ _ _ (λ _. Keeps-skip)
                  λ e.
                    Keeps-bind (Seat-steady p peer.lobby_id) _ _
                      (Keeps-get_lobby peer.lobby_id
                        (λ g (c : Seat p peer.lobby_id g). c.1 (ne_of_test _ _ e)))
                      λ lobby. Keeps-send_to_others (Seat-steady p peer.lobby_id) _ _ _)
                λ _. Keeps-send _ _ _
