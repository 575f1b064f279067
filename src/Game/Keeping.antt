-- ===== src/Game/Keeping.antt =====
-- Handlers that leave the membership alone, built from the checks, the callbacks and the sends of
-- src/game/game_thread.cpp.
pub mod Handlers
pub mod Relaying
pub mod Settled
use tiny_lobby_tests.Prelude.{
  Bool, true, false, String, Option, none, some, List, [], ◌∷◌, ◌≡◌, ◌≢◌, refl, sym, ◌∙◌, ap, ◌==◌,
  ◌&&◌, if◌then◌else◌, arith, eq_iff, is_some, ◌⊎◌, beq_self, Bool-cases, Option-cases, inl, inr,
}
use tiny_lobby_tests.FlatMap
use tiny_lobby_tests.FlatSet.{FlatSet}
use tiny_lobby_tests.FlatSet
use tiny_lobby_tests.AnyType.{AnyElement}
use tiny_lobby_tests.AnyType.Decode.{Result, ok, err}
use tiny_lobby_tests.Peer.{PeerData}
use tiny_lobby_tests.Lobby.{LobbyData}
use tiny_lobby_tests.Messages.Errors.{error_peer_not_host}
use tiny_lobby_tests.Game.{GameData, World, is_relay, json, text_frame}
use tiny_lobby_tests.Game.Monad.{
  M, ◌>>=◌, ◌>>◌, pure, skip, when, for_each, get_game, get_peer, read_peer, get_lobby, modify_peer,
  modify_lobby,
}
use tiny_lobby_tests.Game.Send.{on_error, send_text, send_to_all, mark_updated}
use tiny_lobby_tests.Game.Scripts.{
  LuaCall, notify_peer_changes, notify_all_changes, notify_lobby_changes, scripted_function_call,
  callback,
}
use tiny_lobby_tests.Game.Membership.{in_lobby, as_host, reject_or, with_decoded}
use tiny_lobby_tests.Game.Access.{
  in_lobby_found, get_peer_found, read_peer_found, get_lobby_found, bind_step,
}
use tiny_lobby_tests.Game.Rules.{
  seat, roster, SameMembership, SameMembership-refl, SameMembership-trans, Steady, Keeps,
  Keeps-pure, Keeps-if, Keeps-test, Keeps-bind, Keeps-for_each, Keeps-skip, Keeps-send,
  Keeps-send_to_all, Keeps-mark_updated, Keeps-modify_peer, Keeps-modify_lobby, Keeps-on_error,
  Keeps-get_game, Keeps-get_peer, Keeps-read_peer, Keeps-read_lobby, Keeps-send_to_others,
}
use tiny_lobby_tests.Game.Consistency.{
  IsConsistent, IsTame, Known, Near, At, Consistent-steady, Known-steady, Near-steady, At-steady,
  Keeps-weaken,
}

seat_found :
    (o : Option PeerData) (i k : String)
    → seat o ≡ some (i, k)
    → (d : PeerData) × (o ≡ some d) × (d.id ≡ i) × (d.lobby_id ≡ k)
seat_found none i k e = cc
seat_found (some d) i k e = (d, refl, ground arith, ground arith)

roster_found :
    (o : Option LobbyData) (i h : String) (ps : FlatSet)
    → roster o ≡ some (i, h, ps)
    → (l : LobbyData) × (o ≡ some l) × (l.id ≡ i) × (l.host ≡ h) × (l.peer_ids ≡ ps)
roster_found none i h ps e = cc
roster_found (some l) i h ps e = (l, refl, ground arith, ground arith, ground arith)

-- What the agreement gives for a member's lobby.
record Seated (p : String) (w : World) (peer : PeerData) (lobby : LobbyData) : Type 0 where
  known : FlatMap.find p w.game.peers ≡ some peer
  found : FlatMap.find peer.lobby_id w.game.lobbies ≡ some lobby
  inside : FlatSet.contains p lobby.peer_ids ≡ true

seated :
    (p : String) (w : World) (peer : PeerData)
    → IsConsistent w.game
    → FlatMap.find p w.game.peers ≡ some peer
    → peer.lobby_id ≢ ""
    → (lobby : LobbyData) × Seated p w peer lobby
seated p w peer c e n =
    let (h, ps, r, m) = c.placed p peer.id peer.lobby_id (rw e) n in
    let (lobby, f, _, _, q) = roster_found (FlatMap.find peer.lobby_id w.game.lobbies) _ h ps r in
    (lobby, record { known = e; found = f; inside = rw q m })

pub all_known :
    (k : String) (g : GameData) (l : LobbyData)
    → IsConsistent g
    → FlatMap.find k g.lobbies ≡ some l
    → (p : String) → FlatSet.contains p l.peer_ids ≡ true
    → FlatMap.contains p g.peers ≡ true
all_known k g l c f p m =
    let s = c.members k l.id l.host l.peer_ids p (rw f) m in
    let (d, e, _, _) = seat_found (FlatMap.find p g.peers) p k s in rw e

module _ (id p : String) (body : PeerData → LobbyData → M Unit) where
  in_lobby_outside :
      (peer : PeerData) (w : World)
      → FlatMap.find p w.game.peers ≡ some peer
      → (peer.lobby_id == "") ≡ true
      → in_lobby id p body w ≡ on_error id peer.id "ERROR_PEER_NOT_IN_A_LOBBY" false false w
  unfolding in_lobby ◌>>=◌
  in_lobby_outside peer w known e = rw (get_peer_found p peer w known, e)

  pub Keeps-in_lobby :
      ((peer : PeerData) (lobby : LobbyData)
        → FlatSet.contains p lobby.peer_ids ≡ true
        → Keeps (At peer.lobby_id lobby.peer_ids) (body peer lobby))
      → Keeps (Known p) (in_lobby id p body)
  Keeps-in_lobby h = record { at = λ w c. go w c (FlatMap.find p w.game.peers) refl }
    where
      inside :
          (w : World) (peer : PeerData)
          → IsConsistent w.game
          → FlatMap.find p w.game.peers ≡ some peer
          → (peer.lobby_id == "") ≡ false
          → SameMembership w.game (in_lobby id p body w).1.game
      inside w peer c e n =
          let placed : peer.lobby_id ≢ "" = λ q. cc ((eq_iff peer.lobby_id "").1 q, n) in
          let (lobby, s) = seated p w peer c e placed in
          rw (in_lobby_found p peer lobby w e placed s.found id body) (
            (h peer lobby s.inside).at w
              (c, rw s.found, all_known peer.lobby_id w.game lobby c s.found))

      go :
          (w : World)
          → Known p w.game
          → (o : Option PeerData) → FlatMap.find p w.game.peers ≡ o
          → SameMembership w.game (in_lobby id p body w).1.game
      go w c none e = cc (c.1, ap is_some e)
      go w c (some peer) e = elim (Bool-cases (peer.lobby_id == "")) [
        | inl t ↦
            rw (in_lobby_outside peer w e t)
              ((Keeps-on_error {P = IsConsistent} id peer.id _ false false).at w c.0)
        | inr n ↦ inside w peer c.0 e n
      ]

pub Keeps-as_host :
    (id p : String) (body : PeerData → LobbyData → M Unit)
    → ((peer : PeerData) (lobby : LobbyData)
        → FlatSet.contains p lobby.peer_ids ≡ true
        → Keeps (At peer.lobby_id lobby.peer_ids) (body peer lobby))
    → Keeps (Known p) (as_host id p body)
unfolding as_host
Keeps-as_host id p body h =
    Keeps-in_lobby id p _
      (λ peer lobby m. Keeps-if _ _ _ (Keeps-on_error id _ _ false false) (h peer lobby m))

pub ruleset keeping = (
  Keeps-bind, Keeps-if, Keeps-skip, Keeps-pure, Keeps-send, Keeps-send_to_all, Keeps-send_to_others,
  Keeps-modify_peer, Keeps-modify_lobby, Keeps-mark_updated, Keeps-on_error, Keeps-get_game,
  Keeps-read_peer, Keeps-read_lobby,
)

-- A loop over some of the peers that are there.
pub Keeps-for_members :
    (k : String) (ps : List String) (f : String → M Unit)
    → ((p : String) → FlatSet.contains p ps ≡ true → Keeps (At k ps) (f p))
    → (qs : List String)
    → ((p : String) → FlatSet.contains p qs ≡ true → FlatSet.contains p ps ≡ true)
    → Keeps (At k ps) (for_each qs f)
unfolding for_each FlatSet.contains
Keeps-for_members k ps f h [] sub = Keeps-skip
Keeps-for_members k ps f h (q ∷ qs) sub =
    Keeps-bind (At-steady k ps) (f q) _ (h q (sub q (rw (beq_self q))))
      λ _. Keeps-for_members k ps f h qs (λ p m. sub p (ground (arith, m)))

module _ (k : String) (ps : List String) where
  notify_peer_changes-Keeps :
      (p : String) → FlatSet.contains p ps ≡ true → Keeps (At k ps) (notify_peer_changes ps p)
  unfolding notify_peer_changes
  notify_peer_changes-Keeps p m =
      Keeps-bind (At-steady k ps) _ _ (Keeps-get_peer p (λ g c. c.2 p m))
        λ peer. search (keeping, At-steady k ps) depth 12

  -- The changes of the members and of the lobby.
  notify_all_changes-Keeps :
      (lobby : LobbyData) → lobby.peer_ids ≡ ps → Keeps (At k ps) (notify_all_changes k lobby)
  unfolding notify_all_changes
  notify_all_changes-Keeps lobby e =
      let members =
        Keeps-for_members k ps (notify_peer_changes ps) notify_peer_changes-Keeps ps (λ p m. m) in
      rw e (
        Keeps-bind (At-steady k ps) _ _ Keeps-get_game λ game.
          Keeps-bind (At-steady k ps) _ _ members λ _. search (keeping, At-steady k ps) depth 40)

pub notify_lobby_changes-Keeps : (k : String) → Keeps (Near k) (notify_lobby_changes k)
unfolding notify_lobby_changes ◌>>=◌ skip
notify_lobby_changes-Keeps k = record {
  at = λ w c. go w c (FlatMap.find k w.game.lobbies) refl (Bool-cases (k == ""));
}
  where
    go :
        (w : World)
        → Near k w.game
        → (o : Option LobbyData) → FlatMap.find k w.game.lobbies ≡ o
        → ((k == "") ≡ true) ⊎ ((k == "") ≡ false)
        → SameMembership w.game (notify_lobby_changes k w).1.game
    go w c o e (inl t) = rw (t, notify_lobby_changes) (SameMembership-refl w.game)
    go w c none e (inr n) = cc (ap is_some e, c.1 (λ q. cc ((eq_iff k "").1 q, n)))
    go w c (some lobby) e (inr n) =
        rw (n, get_lobby_found k lobby w e)
          ((notify_all_changes-Keeps k lobby.peer_ids lobby refl).at w
            (c.0, rw e, all_known k w.game lobby c.0 e))

module _ {lua : LuaCall} (tame : IsTame lua) (p k name : String) (args : List AnyElement) where
  pub scripted_function_call-Keeps : Keeps (Near k) (scripted_function_call lua p k name args)
  unfolding scripted_function_call
  scripted_function_call-Keeps =
      let script =
        Keeps-weaken (lua name args p k) (λ g (c : Near k g). c.0) (tame.keeps name args p k) in
      Keeps-bind (Near-steady k) _ _ Keeps-get_game λ game.
        Keeps-if _ _ _
          (Keeps-bind (Near-steady k) _ _ script
            λ r. Keeps-bind (Near-steady k) _ _ (notify_lobby_changes-Keeps k) λ _. Keeps-pure _)
          (Keeps-pure _)

  pub callback-Keeps : Keeps (Near k) (callback lua p k name args)
  unfolding callback
  callback-Keeps = search (keeping, Near-steady k, scripted_function_call-Keeps) depth 10

-- The peer `p` is known, and the lobby `k` is there unless it is the empty id.
abbrev pub Seat : String → String → GameData → Type 0
Seat p k g = Known p g × (k ≢ "" → FlatMap.contains k g.lobbies ≡ true)

pub Seat-steady : (p k : String) → Steady (Seat p k)
Seat-steady p k = record {
  along =
      λ g h s c. ((Known-steady p).along g h s c.0, ((Near-steady k).along g h s (c.0.0, c.1)).1);
}

seat_near :
    (p : String) (w : World) (peer : PeerData)
    → Known p w.game
    → FlatMap.find p w.game.peers ≡ some peer
    → Seat p peer.lobby_id w.game
seat_near p w peer c e = (c, λ n. let (lobby, s) = seated p w peer c.0 e n in rw s.found)

module _ {A : Type 0} (p : String) (f : PeerData → M A)
    (h : (peer : PeerData) → Keeps (Seat p peer.lobby_id) (f peer)) where
  pub Keeps-get_actor : Keeps (Known p) (get_peer p >>= f)
  Keeps-get_actor = record { at = λ w c. go w c (Option-cases (FlatMap.find p w.game.peers)) }
    where
      go :
          (w : World)
          → Known p w.game
          → (FlatMap.find p w.game.peers ≡ none)
            ⊎ ((peer : PeerData) × (FlatMap.find p w.game.peers ≡ some peer))
          → SameMembership w.game ((get_peer p >>= f) w).1.game
      go w c (inl e) = cc (c.1, ap is_some e)
      go w c (inr (peer, e)) =
          rw (bind_step (get_peer p) f (get_peer_found p peer w e))
            ((h peer).at w (seat_near p w peer c e))

  pub Keeps-read_actor : Keeps (Known p) (read_peer p >>= f)
  Keeps-read_actor = record { at = λ w c. go w c (Option-cases (FlatMap.find p w.game.peers)) }
    where
      go :
          (w : World)
          → Known p w.game
          → (FlatMap.find p w.game.peers ≡ none)
            ⊎ ((peer : PeerData) × (FlatMap.find p w.game.peers ≡ some peer))
          → SameMembership w.game ((read_peer p >>= f) w).1.game
      go w c (inl e) = cc (c.1, ap is_some e)
      go w c (inr (peer, e)) =
          rw (bind_step (read_peer p) f (read_peer_found p peer w e))
            ((h peer).at w (seat_near p w peer c e))

pub Keeps-reject_or :
    {P : GameData → Type 0} (id p : String) (o : Option String) (b : Bool) (m : M Unit)
    → Keeps P m
    → Keeps P (reject_or id p o b m)
unfolding reject_or
Keeps-reject_or id p none b m k = k
Keeps-reject_or id p (some message) b m k = Keeps-on_error id p message false b

pub Keeps-with_decoded :
    {P : GameData → Type 0} (id p : String) (r : Result (FlatMap.FlatMap AnyElement))
    (body : FlatMap.FlatMap AnyElement → M Unit)
    → ((d : FlatMap.FlatMap AnyElement) → Keeps P (body d))
    → Keeps P (with_decoded id p r body)
unfolding with_decoded
Keeps-with_decoded id p (ok d) body k = k d
Keeps-with_decoded id p (err e) body k = Keeps-on_error id p e false false

module _ {lua : LuaCall} (tame : IsTame lua) (k : String) (ps : List String) where
  pub callback-At :
      (p name : String) (args : List AnyElement) → Keeps (At k ps) (callback lua p k name args)
  callback-At p name args =
      Keeps-weaken _ (λ g (c : At k ps g). (c.0, λ _. c.1)) (callback-Keeps tame p k name args)
