-- ===== src/Game/Moves/Orphan.antt =====
-- What `remove_peer_from_lobby` (src/game/game_thread.cpp) leaves of a relay game's lobby whose host
-- goes, where `disband_on_leave` is not set.
use tiny_lobby_tests.Prelude.{
  Bool, true, false, String, none, some, List, [], ◌≡◌, refl, ap, ◌∙◌, ◌==◌, ◌||◌, ◌&&◌,
  if◌then◌else◌, is_nil, beq_self,
}
use tiny_lobby_tests.FlatMap
use tiny_lobby_tests.FlatSet
use tiny_lobby_tests.Lobby.{LobbyData}
use tiny_lobby_tests.Game.{World, is_relay}
use tiny_lobby_tests.Game.Monad.{M}
use tiny_lobby_tests.Game.Scripts.{LuaCall}
use tiny_lobby_tests.Game.Membership.{remove_peer_from_lobby, disband, erase_member}
use tiny_lobby_tests.Game.Rules.{seat, roster}
use tiny_lobby_tests.Game.Moves.{Roster, Turn, Turn-then, stay, vacate}
use tiny_lobby_tests.Game.Moves.Loops.{AllKnown, Turn-known}
use tiny_lobby_tests.Game.Moves.Leaving.{drop, disband-Turn}
use tiny_lobby_tests.Game.Moves.Removal.{erase_member-Turn}
use tiny_lobby_tests.Game.Moves.Sets.{some_there, vacate_some}
use tiny_lobby_tests.Game.Moves.Still.{disband-Still}
use tiny_lobby_tests.Game.Moves.Departure.{remove_step}

chosen :
    (x y z : M Unit) (h d r e : Bool)
    → h ≡ true
    → d ≡ false
    → r ≡ true
    → (if h then (if d || r || e then x else y) else z) ≡ x
chosen x y z h d r e a b c = rw (a, b, c) refl

unended :
    (k h p : String) (ps : List String) (b n : Bool) (o : Roster)
    → b ≡ false
    → n ≡ false
    → o ≡ some (k, h, ps)
    → (if (true && b) || n then none else drop p o) ≡ some (k, h, FlatSet.erase p ps)
unended k h p ps b n o c m e = rw (c, m, e) refl

module _ (lua : LuaCall) (k p id : String) (kicked : Bool) (l : LobbyData) (w : World)
    (known : AllKnown l.peer_ids w.game) (found : FlatMap.find k w.game.lobbies ≡ some l)
    (own : l.id ≡ k) (inside : FlatSet.contains p l.peer_ids ≡ true) (hosts : p ≡ l.host)
    (relay : is_relay w.game ≡ true) (keeps : w.game.disband_on_leave ≡ false)
    (stays : l.disband_on_leave ≡ false) (quiet : w.game.enabled_callbacks ≡ []) where
  told :
      Turn
        (λ q o. if FlatSet.contains q l.peer_ids then vacate o else o)
        stay
        w.game
        (disband l p id w).1.game
  told = disband-Turn l p id w known

  removal : remove_peer_from_lobby lua k p id kicked w ≡ erase_member k p true (disband l p id w).1
  removal =
      let host : (p == l.host) ≡ true = rw hosts (beq_self l.host) in
      let ends = chosen _ _ _ (p == l.host) _ _ _ host keeps relay in
      remove_step lua k p id kicked l w found
        (ap (λ (m : M Unit). (m w).1.game.enabled_callbacks) ends ∙ told.callbacks ∙ quiet)
      ∙ ap (λ (m : M Unit). erase_member k p (p == l.host) (m w).1) ends
      ∙ ap (λ b. erase_member k p b (disband l p id w).1) host

  -- In a relay game without callbacks, where `disband_on_leave` is set neither for the game nor for the
  -- lobby, when the host leaves a lobby of known peers with further members, every member is moved out of the lobby, but the lobby stays: its host is the
  -- peer that has left, and the others still stand among its members.
  pub relay_lobby_orphaned :
      is_nil (FlatSet.erase p l.peer_ids) ≡ false
      → (roster (FlatMap.find k (remove_peer_from_lobby lua k p id kicked w).1.game.lobbies)
          ≡ some (k, p, FlatSet.erase p l.peer_ids))
        × ((q : String)
            → FlatSet.contains q l.peer_ids ≡ true
            → seat (FlatMap.find q (remove_peer_from_lobby lua k p id kicked w).1.game.peers)
              ≡ vacate (seat (FlatMap.find q w.game.peers)))
  relay_lobby_orphaned others =
      let v = (disband l p id w).1 in
      let listed : roster (FlatMap.find k w.game.lobbies) ≡ some (k, p, l.peer_ids) =
        rw (found, own, hosts) refl in
      let left =
        erase_member-Turn k p true l v
          (Turn-known l.peer_ids told (some_there l.peer_ids) known p inside)
          (ap (FlatMap.find k) ((disband-Still l p id).at w) ∙ found) own stays in
      let all = Turn-then told left in
      (
        rw removal (
            all.rosters k
            ∙ rw (beq_self k)
                (unended k p p l.peer_ids _ _ _ (told.disbands ∙ keeps) others listed)),
        λ q m. rw removal (all.seats q ∙ vacate_some p l.peer_ids inside q _ ∙ rw m refl),
      )
