-- ===== src/Game/Entry.antt =====
-- Who gets in: the checks of `on_join_lobby`, the lobbies that `on_list_lobby` shows, and messages from
-- peers that the game does not know (src/game/game_thread.cpp).
pub mod Seating
pub mod Joining
use tiny_lobby_tests.Prelude.{
  ℕ, ◌<◌, Bool, true, false, not, ◌||◌, ◌&&◌, String, Option, none, some, List, [], ◌∷◌, ◌≡◌, ◌⊎◌,
  ◌↔◌, inl, inr, refl, ap, ◌==◌, leb, length, if◌then◌else◌, arith, eq_iff, eq_of_test,
}
use tiny_lobby_tests.Prelude.Int.{pos, eqb_ℤ, to_u64}
use tiny_lobby_tests.FlatMap.{FlatMap}
use tiny_lobby_tests.FlatMap
use tiny_lobby_tests.Yyjson.{Json, obj_get}
use tiny_lobby_tests.Messages.Errors.{error_peer_not_found}
use tiny_lobby_tests.Yyjson
use tiny_lobby_tests.AnyType.Decode.{decode_string_or_default}
use tiny_lobby_tests.Peer.{PeerData}
use tiny_lobby_tests.Lobby.{LobbyData}
use tiny_lobby_tests.Game.{World}
use tiny_lobby_tests.Game.Monad.{◌>>=◌, get_game}
use tiny_lobby_tests.Game.Send.{on_error, send}
use tiny_lobby_tests.Game.Scripts.{LuaCall}
use tiny_lobby_tests.Game.Membership.{join_refused}
use tiny_lobby_tests.Game.Dispatch.{on_message}

passes :
    (a b c : Bool) (e f g : String)
    → ((if not a then some e else if not b then some f else if c then some g else none) ≡ none)
      ↔ ((a ≡ true) × (b ≡ true) × (c ≡ false))
passes true true true e f g = (λ h. cc h, λ h. cc (h.2))
passes true true false e f g = (λ h. (refl, refl, refl), λ h. refl)
passes true false c e f g = (λ h. cc h, λ h. cc (h.1))
passes false b c e f g = (λ h. cc h, λ h. cc (h.0))

room :
    (unbounded : Bool) (n m : ℕ)
    → ((not unbounded && leb m n) ≡ false) ↔ ((unbounded ≡ true) ⊎ (n < m))
room true n m = (λ h. inl refl, λ h. refl)
room false n m =
    (λ h. inr (ground (arith, h)), λ h. elim h [ inl e ↦ cc e | inr l ↦ ground (arith, l) ])

-- A join that is no reconnection passes the checks exactly when the peer is in no lobby, gives the
-- lobby's password, and the lobby is unbounded (a bound of 0) or has fewer members than its bound, read
-- as an unsigned number.
pub join_refused-none :
    (peer : PeerData) (lobby : LobbyData) (d : Option Json)
    → (join_refused peer lobby d ≡ none) ↔ (
        (peer.lobby_id ≡ "")
        × (lobby.password ≡ decode_string_or_default d "_p" "")
        × ((eqb_ℤ lobby.max_players (pos 0) ≡ true)
            ⊎ (length lobby.peer_ids < to_u64 lobby.max_players)))
unfolding join_refused
join_refused-none peer lobby d =
    let given = decode_string_or_default d "_p" "" in
    let test =
      passes (peer.lobby_id == "") (lobby.password == given)
        (not (eqb_ℤ lobby.max_players (pos 0))
          && leb (to_u64 lobby.max_players) (length lobby.peer_ids))
        _ _ _ in
    let space =
      room (eqb_ℤ lobby.max_players (pos 0)) (length lobby.peer_ids) (to_u64 lobby.max_players) in
    (
      λ h.
          let (a, b, c) = test.0 h in
          (eq_of_test peer.lobby_id "" a, eq_of_test lobby.password given b, space.0 c),
      λ h.
          test.1
            ((eq_iff peer.lobby_id "").1 h.0, (eq_iff lobby.password given).1 h.1, space.1 h.2),
    )

-- Every element satisfies `P`.
pub data Every {A : Type 0} (P : A → Type 0) : List A → Type 0 where
  end : Every P []
  next : {x : A} {xs : List A} → P x → Every P xs → Every P (x ∷ xs)

-- The id of a lobby that is open to all, or the peer's own.
abbrev pub Shown : String → LobbyData → Type 0
Shown own l = (not l.sealed || own == l.id) ≡ true

-- The lobbies of a game.
abbrev pub values : FlatMap LobbyData → List LobbyData
values [] = []
values ((k, l) ∷ m) = l ∷ values m

pub data Listed : LobbyData → List LobbyData → Type 0 where
  head : {l : LobbyData} {ls : List LobbyData} → Listed l (l ∷ ls)
  tail : {l h : LobbyData} {ls : List LobbyData} → Listed l ls → Listed l (h ∷ ls)

-- The lobby is not shown, or it is listed, or the list is full.
abbrev pub Accounted : String → List LobbyData → LobbyData → Type 0
Accounted own ls l = ((not l.sealed || own == l.id) ≡ false) ⊎ (Listed l ls ⊎ (length ls ≡ 100))

refused :
    (lua : LuaCall) (p u : String) (doc : Option Json) (w : World)
    → FlatMap.contains p w.game.peers ≡ false
    → (message : String) × (id : String) × (on_message lua p doc u w
        ≡ on_error id p message true false w)
unfolding on_message ◌>>=◌ get_game
refused lua p u (some (Yyjson.Json.obj fs)) w h = (
  error_peer_not_found,
  decode_string_or_default (obj_get (some (Yyjson.Json.obj fs)) "d") "id" "",
  rw h refl,
)
refused lua p u none w h = (_, _, refl)
refused lua p u (some Yyjson.Json.null) w h = (_, _, refl)
refused lua p u (some (Yyjson.Json.bool b)) w h = (_, _, refl)
refused lua p u (some (Yyjson.Json.num n)) w h = (_, _, refl)
refused lua p u (some (Yyjson.Json.real n)) w h = (_, _, refl)
refused lua p u (some (Yyjson.Json.str s)) w h = (_, _, refl)
refused lua p u (some (Yyjson.Json.arr xs)) w h = (_, _, refl)
refused lua p u (some Yyjson.Json.other) w h = (_, _, refl)

-- Any message from a peer that the game does not know changes nothing of the game, and is answered by
-- an error that closes the connection.
pub on_message_stranger :
    (lua : LuaCall) (p u : String) (doc : Option Json) (w : World)
    → FlatMap.contains p w.game.peers ≡ false
    → ((on_message lua p doc u w).1.game ≡ w.game)
      × (message : String) × (id : String) × (on_message lua p doc u w
          ≡ on_error id p message true false w)
unfolding on_error send
on_message_stranger lua p u doc w h =
    let (message, id, e) = refused lua p u doc w h in
    (ap (λ (r : Unit × World). r.1.game) e, message, id, e)
