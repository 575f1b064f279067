-- ===== src/Game/Moves/Leaving.antt =====
-- How a departure (`remove_peer_from_lobby` of src/game/game_thread.cpp) changes the membership.
use tiny_lobby_tests.Prelude.{
  Bool, true, false, String, Option, none, some, List, ◌≡◌, refl, ◌==◌, ◌&&◌, ◌||◌, if◌then◌else◌,
  is_some, arith, eq_iff,
}
use tiny_lobby_tests.FlatMap
use tiny_lobby_tests.FlatSet
use tiny_lobby_tests.Peer.{PeerData, leave_lobby}
use tiny_lobby_tests.Lobby.{LobbyData}
use tiny_lobby_tests.Game.{World}
use tiny_lobby_tests.Game.Monad.{M, ◌>>=◌, skip, for_each, get_peer, modify_peer}
use tiny_lobby_tests.Game.Membership.{disband, hand_over, first_other, tell_left}
use tiny_lobby_tests.Game.Rules.{seat, roster, Keeps, Keeps-if, Keeps-bind, Keeps-skip, Keeps-send}
use tiny_lobby_tests.Game.Moves.{
  Seat, Roster, Turn, Turn-as, stay, only, vacate, modify_peer-Turn, modify_lobby-Turn,
}
use tiny_lobby_tests.Game.Moves.Loops.{
  Anywhere, Anywhere-steady, Turn-quiet, Turn-bind, get_peer_known, AllKnown, for_each-Turn,
  Turn-known,
}

leave_lobby-seat : (o : Option PeerData) → seat (FlatMap.map_some leave_lobby o) ≡ vacate (seat o)
unfolding leave_lobby
leave_lobby-seat none = refl
leave_lobby-seat (some p) = refl

pub vacate_once : (o : Seat) → vacate (vacate o) ≡ vacate o
vacate_once none = refl
vacate_once (some s) = refl

pub vacate_there : (o : Seat) → is_some (vacate o) ≡ is_some o
vacate_there none = refl
vacate_there (some s) = refl

pub disband-Turn :
    (lobby : LobbyData) (p id : String) (w : World)
    → AllKnown lobby.peer_ids w.game
    → Turn
        (λ q o. if FlatSet.contains q lobby.peer_ids then vacate o else o)
        stay
        w.game
        (disband lobby p id w).1.game
unfolding disband
disband-Turn lobby p id w h =
    Turn-bind _ _ w
      (for_each-Turn (λ q. vacate) _
        (λ q v e. rw (get_peer_known q _ v e) (
          Turn-bind _ _ v (modify_peer-Turn q leave_lobby vacate leave_lobby-seat v)
            (Turn-quiet (Keeps-if (q == p) _ _ Keeps-skip (Keeps-send q _ _)) _)))
        (λ q. vacate_once) (λ q. vacate_there) lobby.peer_ids w h)
      (Turn-quiet (Keeps-send p _ _) _)

-- `p` leaves, anyone else stays.
abbrev pub apart : String → String → Seat → Seat
apart p q o = if q == p then vacate o else o

apart_once : (p q : String) (o : Seat) → apart p q (apart p q o) ≡ apart p q o
apart_once p q o = ground (arith, vacate_once o)

apart_there : (p q : String) (o : Seat) → is_some (apart p q o) ≡ is_some o
apart_there p q o = ground (arith, vacate_there o)

only-apart :
    (p : String) (ps : List String)
    → FlatSet.contains p ps ≡ true
    → (q : String) (o : Seat)
    → (if FlatSet.contains q ps then apart p q o else o) ≡ only p vacate q o
only-apart p ps m q o = ground (arith, eq_iff p q, eq_iff q p)

-- A part of a round that may move the peer of the round.
leave_if-Turn :
    (q : String) (b : Bool) (m : M Unit) (v : World)
    → Keeps Anywhere m
    → Turn
        (only q (λ o. if b then vacate o else o))
        stay
        v.game
        ((if b then modify_peer q leave_lobby else m) v).1.game
leave_if-Turn q true m v k = modify_peer-Turn q leave_lobby vacate leave_lobby-seat v
leave_if-Turn q false m v k = Turn-as (Turn-quiet k v) (λ r. unchanged (q == r) _) (λ j. refl)
  where
    unchanged : (b : Bool) (o : Seat) → o ≡ (if b then o else o)
    unchanged true o = refl
    unchanged false o = refl

abbrev pub rehost : String → Roster → Roster
rehost h none = none
rehost h (some (i, j, ps)) = some (i, h, ps)

rehost-roster :
    (h : String) (o : Option LobbyData)
    → roster (FlatMap.map_some (λ l. record l { host = h }) o) ≡ rehost h (roster o)
rehost-roster h none = refl
rehost-roster h (some l) = refl

abbrev pub drop : String → Roster → Roster
drop p none = none
drop p (some (i, h, ps)) = some (i, h, FlatSet.erase p ps)

pub vacated_there : (p q : String) (o : Seat) → is_some (only p vacate q o) ≡ is_some o
vacated_there p q o = ground (arith, vacate_there o)

module _ (lobby : LobbyData) (p id : String) (w : World) (known : AllKnown lobby.peer_ids w.game)
    (inside : FlatSet.contains p lobby.peer_ids ≡ true) where
  pub tell_left-Turn :
      (kicked : Bool) → Turn (only p vacate) stay w.game (tell_left lobby p id kicked w).1.game
  unfolding tell_left
  tell_left-Turn kicked =
      Turn-as
        (Turn-bind _ _ w
          (for_each-Turn (apart p) _
            (λ q v e. rw (get_peer_known q _ v e) (
              Turn-bind _ _ v (leave_if-Turn q (q == p) skip v Keeps-skip) (
                Turn-quiet
                  (Keeps-if ((kicked && q == lobby.host) || q == p) _ _ Keeps-skip
                    (Keeps-send q _ _))
                  _)))
            (apart_once p) (apart_there p) lobby.peer_ids w known)
          (Turn-quiet
            (Keeps-bind Anywhere-steady _ _ (Keeps-send p _ _)
              λ _. Keeps-if kicked _ _ (Keeps-send _ _ _) Keeps-skip)
            _))
        (λ q. only-apart p lobby.peer_ids inside q _) (λ k. refl)

  -- The rounds that tell of the new host.
  tell_all-Turn :
      (m : String → M Unit) (v : World)
      → ((q : String) → Keeps Anywhere (m q))
      → AllKnown lobby.peer_ids v.game
      → Turn stay stay v.game (for_each lobby.peer_ids (λ q. get_peer q >>= λ _. m q) v).1.game
  tell_all-Turn m v k h =
      Turn-as
        (for_each-Turn (λ q o. o) _
          (λ q u e.
            rw (get_peer_known q _ u e)
              (Turn-as (Turn-quiet (k q) u) (λ r. same (q == r) _) (λ j. refl)))
          (λ q o. refl) (λ q o. refl) lobby.peer_ids v h)
        (λ q. same_back (FlatSet.contains q lobby.peer_ids) _) (λ j. refl)
    where
      same : (b : Bool) (o : Seat) → o ≡ (if b then o else o)
      same true o = refl
      same false o = refl

      same_back : (b : Bool) (o : Seat) → (if b then o else o) ≡ o
      same_back true o = refl
      same_back false o = refl

  pub hand_over-Turn :
      (k : String)
      → Turn
          (only p vacate)
          (only k (rehost (first_other p lobby.peer_ids)))
          w.game
          (hand_over lobby k p id w).1.game
  unfolding hand_over
  hand_over-Turn k =
      let move =
        Turn-as
          (for_each-Turn (apart p) _
            (λ q v e. rw (get_peer_known q _ v e) (leave_if-Turn q (q == p) _ v (Keeps-send q _ _)))
            (apart_once p) (apart_there p) lobby.peer_ids w known)
          (λ q. only-apart p lobby.peer_ids inside q _) (λ j. refl) in
      let quiet = Turn-quiet (Keeps-send p _ _) _ in
      let host =
        modify_lobby-Turn k _ (rehost (first_other p lobby.peer_ids)) (rehost-roster _) _ in
      let left = Turn-known lobby.peer_ids move (vacated_there p) known in
      let told =
        Turn-known lobby.peer_ids host (λ q o. refl)
          (Turn-known lobby.peer_ids quiet (λ q o. refl) left) in
      Turn-bind _ _ w move (
        Turn-bind _ _ _ quiet (
          Turn-bind _ _ _ host
            (tell_all-Turn _ _ (λ q. Keeps-if (q == p) _ _ Keeps-skip (Keeps-send q _ _)) told)))
