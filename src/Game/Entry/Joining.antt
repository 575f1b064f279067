-- ===== src/Game/Entry/Joining.antt =====
-- Who may join: `on_join_lobby` of src/game/game_thread.cpp.
use tiny_lobby_tests.Prelude.{
  ◌<◌, Bool, true, false, not, ◌&&◌, ◌||◌, String, Option, none, some, is_some, inl, inr, [], ◌≡◌,
  ◌≢◌, ◌⊎◌, ◌↔◌, refl, sym, ap, ◌∙◌, ◌==◌, length, beq_ne, if◌then◌else◌,
}
use tiny_lobby_tests.Prelude.Int.{pos, eqb_ℤ, to_u64}
use tiny_lobby_tests.FlatMap
use tiny_lobby_tests.FlatSet
use tiny_lobby_tests.AnyType.Decode.{decode_string_or_default}
use tiny_lobby_tests.Yyjson.{Json}
use tiny_lobby_tests.Peer.{PeerData}
use tiny_lobby_tests.Lobby.{LobbyData}
use tiny_lobby_tests.Messages.Errors.{error_lobby_not_found}
use tiny_lobby_tests.Game.{World}
use tiny_lobby_tests.Game.Monad.{
  M, ◌>>=◌, ◌>>◌, pure, get_game, get_peer, get_lobby, read_peer, peer_of,
}
use tiny_lobby_tests.Game.Send.{on_error, send}
use tiny_lobby_tests.Game.Scripts.{LuaCall, callback}
use tiny_lobby_tests.Game.Membership.{
  join_lobby_id, join_refused, admit, on_join_lobby, enter_lobby,
}
use tiny_lobby_tests.Game.Access.{get_peer_found, get_lobby_found, bind_step}
use tiny_lobby_tests.Game.Entry.{join_refused-none}
use tiny_lobby_tests.Game.Entry.Seating.{callback_free, ending, entered-seat}
use tiny_lobby_tests.Game.Rules.{seat}

if_false : {A : Type 0} (b : Bool) (x y : A) → b ≡ false → (if b then x else y) ≡ y
if_false true x y e = cc
if_false false x y e = refl

-- What is left of a join when the script is not asked.
abbrev entered : LuaCall → String → String → String → PeerData → M Bool
entered lua id p k peer = enter_lobby k p >> ending p k lua id peer

admit-entered :
    (lua : LuaCall) (id p k : String) (w : World)
    → FlatSet.contains "_can_peer_join" w.game.enabled_callbacks ≡ false
    → admit lua id p k false w ≡ entered lua id p k (peer_of w.game p) w
unfolding admit read_peer
admit-entered lua id p k w free =
    bind_step (read_peer p) _ refl
    ∙ bind_step (callback lua (peer_of w.game p).id k "_can_peer_join" []) _
        (callback_free lua (peer_of w.game p).id k "_can_peer_join" [] w free)

entered-true :
    (lua : LuaCall) (id p k : String) (peer : PeerData) (w : World)
    → (entered lua id p k peer w).0 ≡ true
unfolding ◌>>=◌ pure
entered-true lua id p k peer w = refl

module _ (lua : LuaCall) (id p k over : String) (d : Option Json) (peer : PeerData)
    (lobby : LobbyData) (w : World) (known : FlatMap.find p w.game.peers ≡ some peer)
    (fresh : (peer.disconnected && not (peer.lobby_id == "")) ≡ false)
    (meant : (if over == "" then decode_string_or_default d "l" "" else over) ≡ k) (named : k ≢ "")
    (found : FlatMap.find k w.game.lobbies ≡ some lobby)
    (free : FlatSet.contains "_can_peer_join" w.game.enabled_callbacks ≡ false)
    (quiet : FlatSet.contains "_on_peer_joined" w.game.enabled_callbacks ≡ false) where
  abbrev answer : Option String → M Bool
  answer (some message) = on_error id peer.id message false false >> pure false
  answer none = admit lua id p k false

  abbrev rest : String → M Bool
  rest i =
      if i == "" || not (FlatMap.contains i w.game.lobbies)
      then (do on_error id peer.id error_lobby_not_found false false; pure false)
      else (do
        l ← get_lobby i
        if peer.disconnected && not (peer.lobby_id == "")
            then admit lua id p i true
            else elim (join_refused peer l d) [
              | some message ↦ do on_error id peer.id message false false; pure false
              | none ↦ admit lua id p i false
            ])

  goes_to : join_lobby_id peer d over ≡ k
  goes_to = if_false (peer.disconnected && not (peer.lobby_id == "")) peer.lobby_id _ fresh ∙ meant

  there : (k == "" || not (FlatMap.contains k w.game.lobbies)) ≡ false
  there = rw (beq_ne k "" named, found) refl

  decided :
      (o : Option String)
      → (elim o as (λ x. M Bool) [
        | some message ↦ (on_error id peer.id message false false >> pure false)
        | none ↦ admit lua id p k false
      ])
          w
        ≡ answer o w
  decided none = refl
  decided (some message) = refl

  on_join_lobby-answer : on_join_lobby lua id p d over w ≡ answer (join_refused peer lobby d) w
  unfolding on_join_lobby get_game
  on_join_lobby-answer =
      bind_step (get_peer p) _ (get_peer_found p peer w known)
      ∙ bind_step get_game _ refl
      ∙ ap (λ i. rest i w) goes_to
      ∙ ap (λ (m : M Bool). m w)
          (if_false (k == "" || not (FlatMap.contains k w.game.lobbies)) _ _ there)
      ∙ bind_step (get_lobby k) _ (get_lobby_found k lobby w found)
      ∙ ap (λ (m : M Bool). m w)
          (if_false (peer.disconnected && not (peer.lobby_id == "")) _ _ fresh)
      ∙ decided (join_refused peer lobby d)

  answer-true : (o : Option String) → ((answer o w).0 ≡ true) ↔ (o ≡ none)
  unfolding ◌>>=◌ pure
  answer-true none = (
    λ e. refl,
    λ e.
        ap (λ (r : Bool × World). r.0) (admit-entered lua id p k w free)
        ∙ entered-true lua id p k (peer_of w.game p) w,
  )
  answer-true (some message) = (λ e. cc e, λ e. cc e)

  -- A peer that is let in is in the lobby; for one that is not nothing of the game changes.
  abbrev Settled : Bool × World → Type 0
  Settled (joined, v) =
      ((joined ≡ true) × (seat (FlatMap.find p v.game.peers) ≡ some (peer.id, k)))
      ⊎ ((joined ≡ false) × (v.game ≡ w.game))

  answer-Settled : (o : Option String) → Settled (answer o w)
  unfolding ◌>>=◌ pure on_error send
  answer-Settled none =
      let through = admit-entered lua id p k w free in
      inl (
        ap (λ (r : Bool × World). r.0) through ∙ entered-true lua id p k (peer_of w.game p) w,
        ap (λ (r : Bool × World). seat (FlatMap.find p r.1.game.peers)) through
            ∙ entered-seat p k peer w known (ap is_some known, quiet) lua id (peer_of w.game p),
      )
  answer-Settled (some message) = inr (refl, refl)

  -- A peer that the game knows and that does not come back from a disconnection joins a lobby of the
  -- game that it names, or that the caller does, in a game whose script has no callback for a join: it
  -- is let in exactly when it is in no lobby, gives the lobby's password, and the lobby is unbounded (a
  -- bound of 0) or has fewer members than its bound, read as an unsigned number; if it is let in, it is
  -- in that lobby afterwards, and otherwise nothing of the game changes.
  pub on_join_lobby_lem :
      (((on_join_lobby lua id p d over w).0 ≡ true) ↔ (
        (peer.lobby_id ≡ "")
        × (lobby.password ≡ decode_string_or_default d "_p" "")
        × ((eqb_ℤ lobby.max_players (pos 0) ≡ true)
            ⊎ (length lobby.peer_ids < to_u64 lobby.max_players))))
      × ((((on_join_lobby lua id p d over w).0 ≡ true)
            × (seat (FlatMap.find p (on_join_lobby lua id p d over w).1.game.peers)
                ≡ some (peer.id, k)))
          ⊎ (((on_join_lobby lua id p d over w).0 ≡ false)
              × ((on_join_lobby lua id p d over w).1.game ≡ w.game)))
  on_join_lobby_lem =
      let result = ap (λ (r : Bool × World). r.0) on_join_lobby-answer in
      let checks = join_refused-none peer lobby d in
      let accepted = answer-true (join_refused peer lobby d) in
      (
        (λ e. checks.0 (accepted.0 (sym result ∙ e)), λ h. result ∙ accepted.1 (checks.1 h)),
        rw on_join_lobby-answer (answer-Settled (join_refused peer lobby d)),
      )
