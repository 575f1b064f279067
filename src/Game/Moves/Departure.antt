-- ===== src/Game/Moves/Departure.antt =====
-- After a departure (`remove_peer_from_lobby`, `on_leave_lobby` and `on_kick_peer` of
-- src/game/game_thread.cpp) peers and lobbies agree.
use tiny_lobby_tests.Prelude.{
  Bool, true, false, String, none, some, List, [], ◌≡◌, ◌≢◌, refl, ap, ◌∙◌, sym, ◌==◌, ◌||◌,
  if◌then◌else◌, is_nil, is_some, length, eqb, arith, ◌⊎◌, inl, inr, Bool-cases, beq_self, beq_ne,
  eq_of_test, ne_of_test,
}
use tiny_lobby_tests.FlatMap
use tiny_lobby_tests.FlatSet
use tiny_lobby_tests.FlatSet.{FlatSet}
use tiny_lobby_tests.AnyType.{AnyElement, null}
use tiny_lobby_tests.Lobby.{LobbyData}
use tiny_lobby_tests.Game.{GameData, World, is_relay}
use tiny_lobby_tests.Game.Monad.{M, ◌>>=◌, pure, skip, get_game}
use tiny_lobby_tests.Game.Scripts.{LuaCall, callback}
use tiny_lobby_tests.Game.Membership.{
  disband, first_other, hand_over, tell_left, erase_member, remove_peer_from_lobby, reject_or,
}
use tiny_lobby_tests.Game.Access.{read_lobby_found}
use tiny_lobby_tests.Game.Rules.{seat, roster}
use tiny_lobby_tests.Game.Consistency.{IsConsistent}
use tiny_lobby_tests.Game.Moves.{Roster, Turn, Turn-then, Turn-as, only, vacate}
use tiny_lobby_tests.Game.Moves.Loops.{AllKnown, Turn-known, is_some-seat}
use tiny_lobby_tests.Game.Moves.Leaving.{
  rehost, vacated_there, disband-Turn, tell_left-Turn, hand_over-Turn,
}
use tiny_lobby_tests.Game.Moves.Removal.{after, erase_member-Turn}
use tiny_lobby_tests.Game.Moves.Sets.{
  erased_alone, first_other_stays, contains_some, vacate_some, vacate_alone, some_there, gone,
  only_twice, vacate_twice,
}
use tiny_lobby_tests.Game.Moves.Agreement.{closed-IsConsistent, dropped-IsConsistent}
use tiny_lobby_tests.Game.Moves.Still.{disband-Still, tell_left-Still, hand_over-lobbies}

-- A game whose script has no callbacks.
pub callback_none :
    (lua : LuaCall) (p k name : String) (args : List AnyElement) (w : World)
    → w.game.enabled_callbacks ≡ []
    → callback lua p k name args w ≡ ((null, false), w)
unfolding callback get_game ◌>>=◌ pure FlatSet.contains
callback_none lua p k name args w e = rw e refl

-- The notifications of a departure, by who leaves and how.
abbrev tell : LobbyData → GameData → String → String → String → Bool → M Unit
tell l g k p id kicked =
    if p == l.host
    then (if g.disband_on_leave || is_relay g || eqb (length l.peer_ids) 1
        then disband l p id
        else hand_over l k p id)
    else tell_left l p id kicked

pub remove_step :
    (lua : LuaCall) (k p id : String) (kicked : Bool) (l : LobbyData) (w : World)
    → FlatMap.find k w.game.lobbies ≡ some l
    → (tell l w.game k p id kicked w).1.game.enabled_callbacks ≡ []
    → remove_peer_from_lobby lua k p id kicked w
      ≡ erase_member k p (p == l.host) (tell l w.game k p id kicked w).1
unfolding remove_peer_from_lobby ◌>>=◌ get_game skip pure reject_or
remove_step lua k p id kicked l w e q =
    rw
      (
        read_lobby_found k l w e,
        callback_none lua p l.id "_on_peer_leave" [] (tell l w.game k p id kicked w).1 q,
      )
      refl

module _ (k p id : String) (l : LobbyData) (w : World) (c : IsConsistent w.game)
    (found : FlatMap.find k w.game.lobbies ≡ some l) (own : l.id ≡ k)
    (inside : FlatSet.contains p l.peer_ids ≡ true) (stays : l.disband_on_leave ≡ false)
    (closes : is_relay w.game ≡ true → w.game.disband_on_leave ≡ true) where
  is_listed : roster (FlatMap.find k w.game.lobbies) ≡ some (k, l.host, l.peer_ids)
  is_listed = rw (found, own) refl

  -- A change of the lobby by what it was.
  at_lobby :
      (f : Roster → Roster) (x : Roster)
      → f (some (k, l.host, l.peer_ids)) ≡ x
      → (j : String)
      → only k f j (roster (FlatMap.find j w.game.lobbies))
        ≡ only k (λ r. x) j (roster (FlatMap.find j w.game.lobbies))
  at_lobby f x e j = go (k == j) refl
    where
      go :
          (b : Bool)
          → (k == j) ≡ b
          → (if b
              then f (roster (FlatMap.find j w.game.lobbies))
              else roster (FlatMap.find j w.game.lobbies))
            ≡ (if b then x else roster (FlatMap.find j w.game.lobbies))
      go false m = refl
      go true m =
          ap (λ i. f (roster (FlatMap.find i w.game.lobbies))) (sym (eq_of_test k j m))
          ∙ ap f is_listed
          ∙ e

  all_known : AllKnown l.peer_ids w.game
  all_known q m =
      sym (is_some-seat (FlatMap.find q w.game.peers))
      ∙ ap is_some (c.members k k l.host l.peer_ids q is_listed m)

  -- Peers and lobbies agree, and `p` is in no lobby.
  abbrev Departed : GameData → Type 0
  Departed g = IsConsistent g × (seat (FlatMap.find p g.peers) ≡ some (p, ""))

  was : seat (FlatMap.find p w.game.peers) ≡ some (p, k)
  was = c.members k k l.host l.peer_ids p is_listed inside

  by_closing :
      {g : GameData}
      → Turn
          (λ q o. if FlatSet.contains q l.peer_ids then vacate o else o)
          (only k (λ o. none))
          w.game
          g
      → Departed g
  by_closing a =
      (closed-IsConsistent k l.host l.peer_ids c is_listed a, a.seats p ∙ rw (inside, was) refl)

  by_dropping :
      {g : GameData} (h : String)
      → FlatSet.contains h (FlatSet.erase p l.peer_ids) ≡ true
      → Turn (only p vacate) (only k (λ o. some (k, h, FlatSet.erase p l.peer_ids))) w.game g
      → Departed g
  by_dropping h hosted a = (
    dropped-IsConsistent k l.host p h l.peer_ids c is_listed inside hosted a,
    a.seats p ∙ rw (beq_self p, was) refl,
  )

  -- The host leaves and everyone else with it.
  disbanded :
      (w.game.disband_on_leave || is_nil (FlatSet.erase p l.peer_ids)) ≡ true
      → Departed (erase_member k p true (disband l p id w).1).1.game
  disbanded e =
      let v = (disband l p id w).1 in
      let told = disband-Turn l p id w all_known in
      let left =
        erase_member-Turn k p true l v
          (Turn-known l.peer_ids told (some_there l.peer_ids) all_known p inside)
          (ap (FlatMap.find k) ((disband-Still l p id).at w) ∙ found) own stays in
      by_closing (
        Turn-as (Turn-then told left) (λ q. vacate_some p l.peer_ids inside q _)
          (λ j. gone k p j _ _ (rw told.disbands e)))

  -- The host leaves and hands the lobby over.
  handed_over :
      w.game.disband_on_leave ≡ false
      → Departed (erase_member k p true (hand_over l k p id w).1).1.game
  handed_over e =
      let v = (hand_over l k p id w).1 in
      let new_host = first_other p l.peer_ids in
      let told = hand_over-Turn l p id w all_known inside k in
      let here : FlatMap.find k v.game.lobbies ≡ some (record l { host = new_host }) =
        rw
          (
            hand_over-lobbies l k p id w,
            FlatMap.find-adjust k k (λ l'. record l' { host = new_host }) w.game.lobbies,
            beq_self k,
            found,
          )
          refl in
      let left =
        erase_member-Turn k p true (record l { host = new_host }) v
          (Turn-known l.peer_ids told (vacated_there p) all_known p inside) here own stays in
      let ends = after true p (record l { host = new_host }) v.game in
      elim (Bool-cases (is_nil (FlatSet.erase p l.peer_ids))) [
        | inl n ↦ by_closing (
            Turn-as (Turn-then told left) (λ q. vacate_alone p l.peer_ids inside n q _)
              (λ j.
                only_twice k j (rehost new_host) ends _
                ∙ at_lobby (λ r. ends (rehost new_host r)) none (rw (told.disbands, e, n) refl) j))
        | inr n ↦ by_dropping new_host (first_other_stays p l.peer_ids n) (
            Turn-as (Turn-then told left) (λ q. vacate_twice p q _)
              (λ j.
                only_twice k j (rehost new_host) ends _
                ∙ at_lobby (λ r. ends (rehost new_host r))
                    (some (k, new_host, FlatSet.erase p l.peer_ids)) (rw (told.disbands, e, n) refl)
                    j))
      ]

  -- A guest leaves or is kicked.
  left :
      (kicked : Bool)
      → l.host ≢ p
      → Departed (erase_member k p false (tell_left l p id kicked w).1).1.game
  left kicked n =
      let v = (tell_left l p id kicked w).1 in
      let told = tell_left-Turn l p id w all_known inside kicked in
      let left =
        erase_member-Turn k p false l v
          (Turn-known l.peer_ids told (vacated_there p) all_known p inside)
          (ap (FlatMap.find k) ((tell_left-Still l p id kicked).at w) ∙ found) own stays in
      let hosted : FlatSet.contains l.host (FlatSet.erase p l.peer_ids) ≡ true =
        rw (FlatSet.contains-erase p l.host l.peer_ids, beq_ne p l.host (λ q. n (sym q)))
          (c.hosts k k l.host l.peer_ids is_listed) in
      by_dropping l.host hosted (
        Turn-as (Turn-then told left) (λ q. vacate_twice p q _)
          (at_lobby (after false p l v.game) (some (k, l.host, FlatSet.erase p l.peer_ids))
            (rw (contains_some l.host _ hosted) refl)))

  -- The test of `remove_peer_from_lobby` for the end of the lobby says that it ends.
  disbands :
      (w.game.disband_on_leave || is_relay w.game || eqb (length l.peer_ids) 1) ≡ true
      → (w.game.disband_on_leave || is_nil (FlatSet.erase p l.peer_ids)) ≡ true
  disbands e = go (Bool-cases w.game.disband_on_leave) (Bool-cases (is_relay w.game))
    where
      go :
          (w.game.disband_on_leave ≡ true) ⊎ (w.game.disband_on_leave ≡ false)
          → (is_relay w.game ≡ true) ⊎ (is_relay w.game ≡ false)
          → (w.game.disband_on_leave || is_nil (FlatSet.erase p l.peer_ids)) ≡ true
      go (inl d) r = ground (arith, d)
      go (inr d) (inl r) = cc (closes r, d)
      go (inr d) (inr r) = ground (arith, d, r, e, erased_alone p l.peer_ids)

  departed :
      (kicked : Bool)
      → Departed (erase_member k p (p == l.host) (tell l w.game k p id kicked w).1).1.game
  departed kicked = go _ _ refl refl
    where
      go :
          (h b : Bool)
          → (p == l.host) ≡ h
          → (w.game.disband_on_leave || is_relay w.game || eqb (length l.peer_ids) 1) ≡ b
          → Departed
              (erase_member k p h
                ((if h
                    then (if b then disband l p id else hand_over l k p id)
                    else tell_left l p id kicked)
                  w).1).1.game
      go true true m e = disbanded (disbands e)
      go true false m e = handed_over (ground (arith, e))
      go false b m e = left kicked (λ q. ne_of_test p l.host m (sym q))

  tell-callbacks :
      (kicked : Bool)
      → (tell l w.game k p id kicked w).1.game.enabled_callbacks ≡ w.game.enabled_callbacks
  tell-callbacks kicked = go (p == l.host) _
    where
      go :
          (h b : Bool)
          → ((if h
                then (if b then disband l p id else hand_over l k p id)
                else tell_left l p id kicked)
              w).1.game.enabled_callbacks
            ≡ w.game.enabled_callbacks
      go true true = (disband-Turn l p id w all_known).callbacks
      go true false = (hand_over-Turn l p id w all_known inside k).callbacks
      go false b = (tell_left-Turn l p id w all_known inside kicked).callbacks

  -- With no callbacks enabled, `remove_peer_from_lobby` leaves peers and lobbies in agreement.
  pub removed :
      (lua : LuaCall) (kicked : Bool)
      → w.game.enabled_callbacks ≡ []
      → Departed (remove_peer_from_lobby lua k p id kicked w).1.game
  removed lua kicked e =
      rw (remove_step lua k p id kicked l w found (tell-callbacks kicked ∙ e)) (departed kicked)
