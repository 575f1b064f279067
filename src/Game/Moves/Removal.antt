-- ===== src/Game/Moves/Removal.antt =====
-- The end of a departure: the member is taken off the lobby, and a lobby that is left is closed
-- (`remove_peer_from_lobby` of src/game/game_thread.cpp).
use tiny_lobby_tests.Prelude.{
  Bool, true, false, String, Option, none, some, ◌≡◌, refl, ◌==◌, ◌&&◌, ◌||◌, if◌then◌else◌, is_nil,
  arith, beq_self,
}
use tiny_lobby_tests.FlatMap
use tiny_lobby_tests.FlatSet
use tiny_lobby_tests.Peer.{PeerData}
use tiny_lobby_tests.Lobby.{LobbyData}
use tiny_lobby_tests.Game.{GameData, World}
use tiny_lobby_tests.Game.Monad.{when, get_game, modify_peer, modify_lobby, modify_game, read_lobby}
use tiny_lobby_tests.Game.Membership.{close_if_left, erase_member}
use tiny_lobby_tests.Game.Rules.{seat, roster, Keeps-skip, Keeps-mark_updated, Keeps-get_game}
use tiny_lobby_tests.Game.Send.{mark_updated}
use tiny_lobby_tests.Game.Access.{bind_step, read_lobby_found}
use tiny_lobby_tests.Game.Moves.{
  Roster, Turn, Turn-as, stay, only, vacate, modify_peer-Turn, modify_lobby-Turn,
}
use tiny_lobby_tests.Game.Moves.Loops.{Turn-quiet, Turn-bind, get_peer_known}
use tiny_lobby_tests.Game.Moves.Leaving.{drop}

-- Whether the lobby goes with the peer.
abbrev pub ends : Bool → LobbyData → GameData → Bool
ends is_host l g = (is_host && (l.disband_on_leave || g.disband_on_leave)) || is_nil l.peer_ids

erase_roster :
    (b : Bool) (o : Option LobbyData)
    → roster (if b then none else o) ≡ (if b then none else roster o)
erase_roster true o = refl
erase_roster false o = refl

end_lobby-Turn :
    (b : Bool) (k : String) (v : World)
    → Turn stay
        (only k (λ o. if b then none else o))
        v.game
        (when b (modify_game (λ g. record g { lobbies = FlatMap.erase k g.lobbies })) v).1.game
unfolding modify_game
end_lobby-Turn true k v = record {
  seats = λ q. refl;
  rosters = λ j.
      rw (FlatMap.find-erase k j v.game.lobbies)
        (erase_roster (k == j) (FlatMap.find j v.game.lobbies));
  control = refl;
  disbands = refl;
  callbacks = refl;
}
end_lobby-Turn false k v = Turn-as (Turn-quiet Keeps-skip v) (λ q. refl) (λ j. unchanged (k == j) _)
  where
    unchanged : (b : Bool) (o : Roster) → o ≡ (if b then o else o)
    unchanged true o = refl
    unchanged false o = refl

close_if_left-Turn :
    (k : String) (is_host : Bool) (l : LobbyData) (w : World)
    → FlatMap.find k w.game.lobbies ≡ some l
    → Turn stay
        (only l.id (λ o. if ends is_host l w.game then none else o))
        w.game
        (close_if_left k is_host w).1.game
unfolding close_if_left get_game modify_game
close_if_left-Turn k is_host l w e =
    let v = (mark_updated l.id w).1 in
    rw (bind_step (read_lobby k) _ (read_lobby_found k l w e)) (
      Turn-bind _ _ w (Turn-quiet (Keeps-mark_updated l.id) w) (
        Turn-bind _ _ v (Turn-quiet Keeps-get_game v)
          (end_lobby-Turn (ends is_host l w.game) l.id v)))

unseat :
    (o : Option PeerData)
    → seat (FlatMap.map_some (λ p. record p { lobby_id = ""; ready = false }) o) ≡ vacate (seat o)
unseat none = refl
unseat (some p) = refl

abbrev strike : String → LobbyData → LobbyData
strike p l = record l {
  peer_ids = FlatSet.erase p l.peer_ids;
  peer_ordered_ids = FlatSet.erase p l.peer_ordered_ids;
}

unlist :
    (p : String) (o : Option LobbyData) → roster (FlatMap.map_some (strike p) o) ≡ drop p (roster o)
unlist p none = refl
unlist p (some l) = refl

-- What becomes of the lobby of a member that leaves.
abbrev pub after : Bool → String → LobbyData → GameData → Roster → Roster
after is_host p l g o =
    if (is_host && g.disband_on_leave) || is_nil (FlatSet.erase p l.peer_ids)
    then none
    else drop p o

module _ (k p : String) (is_host : Bool) (l : LobbyData) (w : World)
    (known : FlatMap.contains p w.game.peers ≡ true)
    (found : FlatMap.find k w.game.lobbies ≡ some l) (own : l.id ≡ k)
    (stays : l.disband_on_leave ≡ false) where
  settle :
      (i j : String) (a : Bool) (o : Roster) (n : Bool)
      → i ≡ k
      → a ≡ false
      → (if i == j
          then (if (is_host && (a || w.game.disband_on_leave)) || n
              then none
              else only k (drop p) j o)
          else only k (drop p) j o)
        ≡ only k (λ r. if (is_host && w.game.disband_on_leave) || n then none else drop p r) j o
  settle i j a o n e q = rw (e, q) (ground arith)

  pub erase_member-Turn :
      Turn
        (only p vacate)
        (only k (after is_host p l w.game))
        w.game
        (erase_member k p is_host w).1.game
  unfolding erase_member modify_lobby modify_peer
  erase_member-Turn =
      let changed : FlatMap.find k (FlatMap.adjust k (strike p) w.game.lobbies)
          ≡ some (strike p l) =
        rw (FlatMap.find-adjust k k (strike p) w.game.lobbies, beq_self k, found) refl in
      let v = (modify_peer p (λ q. record q { lobby_id = ""; ready = false }) w).1 in
      rw (get_peer_known p _ w known) (
        Turn-as
          (Turn-bind _ _ w (modify_peer-Turn p _ vacate unseat w) (
            Turn-bind _ _ _ (modify_lobby-Turn k _ (drop p) (unlist p) v)
              (close_if_left-Turn k is_host _ _ changed)))
          (λ q. refl) (λ j. settle l.id j l.disband_on_leave _ _ own stays))
