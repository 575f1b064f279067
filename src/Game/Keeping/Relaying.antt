-- ===== src/Game/Keeping/Relaying.antt =====
-- The handlers of a relay game, which set and pass on data (src/game/game_thread.cpp): none of them
-- moves a peer.
use tiny_lobby_tests.Prelude.{
  Bool, true, false, not, ◌||◌, String, Option, List, [], ◌∷◌, ◌≡◌, refl, ◌==◌, arith, some,
}
use tiny_lobby_tests.FlatMap.{FlatMap}
use tiny_lobby_tests.FlatSet
use tiny_lobby_tests.AnyType.{AnyElement, object}
use tiny_lobby_tests.AnyType.Decode.{decode_string_or_default, decode_bool_or_default}
use tiny_lobby_tests.Yyjson.{Json}
use tiny_lobby_tests.Peer.{PeerData}
use tiny_lobby_tests.Lobby.{LobbyData}
use tiny_lobby_tests.Messages.{
  notification_data_to_sent, notification_peer_notify, notification_notify_sent,
}
use tiny_lobby_tests.Game.{GameData, is_relay, json, text_frame}
use tiny_lobby_tests.Game.Monad.{M}
use tiny_lobby_tests.Game.Relay.{
  stage_lobby, stage_peer, with_relay_data, as_relay_host, with_target, publish_lobby, publish_peer,
  on_lobby_data, on_data_to, on_data_to_all, on_notify_to, on_lobby_notify,
}
use tiny_lobby_tests.Game.Rules.{
  seat, roster, Steady, Keeps, Keeps-bind, Keeps-if, Keeps-test, Keeps-on_error, Keeps-get_game,
  Keeps-get_peer, Keeps-read_peer, Keeps-modify_peer, Keeps-modify_lobby, Keeps-send,
  Keeps-send_to_all,
}
use tiny_lobby_tests.Game.Consistency.{Known, At, At-steady}
use tiny_lobby_tests.Game.Keeping.{
  keeping, Keeps-in_lobby, Keeps-as_host, Keeps-with_decoded, Keeps-for_members,
}

stage_lobby-roster :
    (b : Bool) (m : FlatMap AnyElement) (l : LobbyData)
    → roster (some (stage_lobby b m l)) ≡ roster (some l)
unfolding stage_lobby
stage_lobby-roster b [] l = refl
stage_lobby-roster true (e ∷ m) l = stage_lobby-roster true m _
stage_lobby-roster false (e ∷ m) l = stage_lobby-roster false m _

stage_peer-seat :
    (b : Bool) (m : FlatMap AnyElement) (q : PeerData)
    → seat (some (stage_peer b m q)) ≡ seat (some q)
unfolding stage_peer
stage_peer-seat b [] q = refl
stage_peer-seat true (e ∷ m) q = stage_peer-seat true m _
stage_peer-seat false (e ∷ m) q = stage_peer-seat false m _

module _ {P : GameData → Type 0} (steady : Steady P) where
  publish_lobby-Keeps : (k p id : String) → Keeps P (publish_lobby k p id)
  unfolding publish_lobby
  publish_lobby-Keeps k p id = search (keeping, steady) depth 30

  publish_peer-Keeps :
      (from : String) (ps : List String) (q n : String) → Keeps P (publish_peer from ps q n)
  unfolding publish_peer
  publish_peer-Keeps from ps q n = search (keeping, steady) depth 30

  with_relay_data-Keeps :
      (id p : String) (d : Option Json) (body : FlatMap AnyElement → M Unit)
      → ((m : FlatMap AnyElement) → Keeps P (body m))
      → Keeps P (with_relay_data id p d body)
  unfolding with_relay_data
  with_relay_data-Keeps id p d body h = Keeps-with_decoded id p _ body h

as_relay_host-Keeps :
    (id p : String) (body : PeerData → LobbyData → M Unit)
    → ((peer : PeerData) (lobby : LobbyData)
        → Keeps (At peer.lobby_id lobby.peer_ids) (body peer lobby))
    → Keeps (Known p) (as_relay_host id p body)
unfolding as_relay_host
as_relay_host-Keeps id p body h = Keeps-as_host id p _ λ peer lobby m.
    Keeps-bind (At-steady peer.lobby_id lobby.peer_ids) _ _ Keeps-get_game
      λ game. Keeps-if (not (is_relay game)) _ _ (Keeps-on_error _ _ _ _ _) (h peer lobby)

named :
    (ps : List String) (t : String)
    → (t == "" || not (FlatSet.contains t ps)) ≡ false
    → FlatSet.contains t ps ≡ true
named ps t e = ground arith

with_target-Keeps :
    (id : String) (peer : PeerData) (lobby : LobbyData) (d : Option Json) (body : String → M Unit)
    → ((t : String) → Keeps (At peer.lobby_id lobby.peer_ids) (body t))
    → Keeps (At peer.lobby_id lobby.peer_ids) (with_target id peer lobby d body)
unfolding with_target
with_target-Keeps id peer lobby d body h =
    let t = decode_string_or_default d "tp" "" in
    Keeps-test (t == "" || not (FlatSet.contains t lobby.peer_ids)) _ _
      (λ _. Keeps-on_error id peer.id _ false false)
      λ e.
        Keeps-bind (At-steady peer.lobby_id lobby.peer_ids) _ _
          (Keeps-get_peer _
            (λ g (c : At peer.lobby_id lobby.peer_ids g). c.2 t (named lobby.peer_ids t e)))
          λ _. h t

module _ (id p : String) (d : Option Json) where
  pub on_lobby_data-Keeps : Keeps (Known p) (on_lobby_data id p d)
  unfolding on_lobby_data
  on_lobby_data-Keeps = as_relay_host-Keeps id p _ λ peer lobby.
      let steady = At-steady peer.lobby_id lobby.peer_ids in
      let b = decode_bool_or_default d "_p" false in
      with_relay_data-Keeps steady id peer.id d _ λ m.
        Keeps-bind steady _ _
          (Keeps-modify_lobby peer.lobby_id (stage_lobby b m) (stage_lobby-roster b m))
          λ _. publish_lobby-Keeps steady peer.lobby_id peer.id id

  pub on_data_to-Keeps : Keeps (Known p) (on_data_to id p d)
  unfolding on_data_to
  on_data_to-Keeps = as_relay_host-Keeps id p _ λ peer lobby.
      let steady = At-steady peer.lobby_id lobby.peer_ids in
      let b = decode_bool_or_default d "_p" false in
      with_target-Keeps id peer lobby d _ λ t. with_relay_data-Keeps steady id peer.id d _ λ m.
        Keeps-bind steady _ _ (Keeps-modify_peer t (stage_peer b m) (stage_peer-seat b m)) λ _.
          Keeps-bind steady _ _ (publish_peer-Keeps steady peer.id lobby.peer_ids t t)
            λ _. Keeps-send peer.id (json (notification_data_to_sent id)) text_frame

  pub on_data_to_all-Keeps : Keeps (Known p) (on_data_to_all id p d)
  unfolding on_data_to_all
  on_data_to_all-Keeps = as_relay_host-Keeps id p _ λ peer lobby.
      let steady = At-steady peer.lobby_id lobby.peer_ids in
      let b = decode_bool_or_default d "_p" false in
      with_relay_data-Keeps steady id peer.id d _ λ m.
        Keeps-bind steady _ _
          (Keeps-for_members peer.lobby_id lobby.peer_ids _
            (λ t inside.
              Keeps-bind steady _ _
                (Keeps-get_peer t (λ g (c : At peer.lobby_id lobby.peer_ids g). c.2 t inside))
                λ _.
                  Keeps-bind steady _ _ (Keeps-modify_peer t (stage_peer b m) (stage_peer-seat b m))
                    λ _.
                      Keeps-bind steady _ _ (Keeps-read_peer t)
                        λ target. publish_peer-Keeps steady peer.id lobby.peer_ids t target.id)
            lobby.peer_ids (λ t inside. inside))
          λ _. Keeps-send peer.id (json (notification_data_to_sent id)) text_frame

  pub on_notify_to-Keeps : Keeps (Known p) (on_notify_to id p d)
  unfolding on_notify_to
  on_notify_to-Keeps = as_relay_host-Keeps id p _ λ peer lobby.
      let steady = At-steady peer.lobby_id lobby.peer_ids in
      with_target-Keeps id peer lobby d _ λ t. with_relay_data-Keeps steady id peer.id d _ λ m.
        Keeps-bind steady _ _
          (Keeps-send t (json (notification_peer_notify (object m) peer.id)) text_frame)
          λ _. Keeps-send peer.id (json (notification_notify_sent id)) text_frame

  pub on_lobby_notify-Keeps : Keeps (Known p) (on_lobby_notify id p d)
  unfolding on_lobby_notify
  on_lobby_notify-Keeps = Keeps-in_lobby id p _ λ peer lobby m.
      let steady = At-steady peer.lobby_id lobby.peer_ids in
      Keeps-bind steady _ _ Keeps-get_game λ game.
        Keeps-if (not (is_relay game)) _ _ (Keeps-on_error _ _ _ _ _) (
          with_relay_data-Keeps steady id peer.id d _ λ sent.
            Keeps-bind steady _ _
              (Keeps-if (lobby.host == peer.id) _ _ (Keeps-send_to_all steady _ _)
                (Keeps-send _ _ _))
              λ _. Keeps-send _ _ _)
