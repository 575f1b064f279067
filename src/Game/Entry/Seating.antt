-- ===== src/Game/Entry/Seating.antt =====
-- What a join does to the peer that joins: `on_join_lobby` of src/game/game_thread.cpp, from the
-- changes on.
use tiny_lobby_tests.Prelude.{
  ◌+◌, ◌++◌, Bool, true, false, String, Option, none, some, List, [], ◌∷◌, ◌≡◌, refl, ap, ◌∙◌, ◌==◌,
  beq_self, if◌then◌else◌, is_some, arith, eq_of_test,
}
use tiny_lobby_tests.Prelude.Int.{pos, cast_i32}
use tiny_lobby_tests.FlatMap
use tiny_lobby_tests.FlatSet
use tiny_lobby_tests.AnyType.{AnyElement, null}
use tiny_lobby_tests.Peer.{PeerData, default_peer}
use tiny_lobby_tests.Lobby.{LobbyData}
use tiny_lobby_tests.Game.{GameData, World, Content, OpCode}
use tiny_lobby_tests.Game.Monad.{
  M, ◌>>=◌, ◌>>◌, pure, skip, for_each, get_game, get_peer, read_peer, modify_peer, get_lobby,
  read_lobby, modify_lobby, modify_game,
}
use tiny_lobby_tests.Game.Send.{send, on_error, send_to_others, mark_updated}
use tiny_lobby_tests.Game.Scripts.{LuaCall, callback, error_result}
use tiny_lobby_tests.Game.Membership.{
  reject_or, report, peers_array, peers_to_array, sort_by_order, enter_lobby, announce_join,
}
use tiny_lobby_tests.Game.Rules.{seat, is_some-seat}

pub callback_free :
    (lua : LuaCall) (p k name : String) (args : List AnyElement) (w : World)
    → FlatSet.contains name w.game.enabled_callbacks ≡ false
    → callback lua p k name args w ≡ ((null, false), w)
unfolding callback get_game ◌>>=◌ pure
callback_free lua p k name args w free = rw free refl

-- The peer is known, and the script has no callback for the end of a join.
abbrev pub Ready : String → GameData → Type 0
Ready p g =
    (FlatMap.contains p g.peers ≡ true)
    × (FlatSet.contains "_on_peer_joined" g.enabled_callbacks ≡ false)

abbrev Kept : String → GameData → GameData → Type 0
Kept p g h =
    (seat (FlatMap.find p h.peers) ≡ seat (FlatMap.find p g.peers))
    × (h.enabled_callbacks ≡ g.enabled_callbacks)

Ready-Kept : (p : String) (g h : GameData) → Kept p g h → Ready p g → Ready p h
Ready-Kept p g h kept ready =
    (is_some-seat _ _ kept.0 ready.0, ap (FlatSet.contains "_on_peer_joined") kept.1 ∙ ready.1)

-- An action that leaves the peer where it is.
pub record Stays {A : Type 0} (p : String) (m : M A) : Type 0 where
  pub at : (w : World) → Ready p w.game → Kept p w.game (m w).1.game

module _ {p : String} where
  Stays-pure : {A : Type 0} (a : A) → Stays p (pure a)
  unfolding pure
  Stays-pure a = record { at = λ w r. (refl, refl) }

  Stays-skip : Stays p skip
  unfolding skip
  Stays-skip = record { at = λ w r. (refl, refl) }

  Stays-get_game : Stays p get_game
  unfolding get_game
  Stays-get_game = record { at = λ w r. (refl, refl) }

  Stays-read_peer : (q : String) → Stays p (read_peer q)
  unfolding read_peer
  Stays-read_peer q = record { at = λ w r. (refl, refl) }

  Stays-read_lobby : (k : String) → Stays p (read_lobby k)
  unfolding read_lobby
  Stays-read_lobby k = record { at = λ w r. (refl, refl) }

  Stays-get_lobby : (k : String) → Stays p (get_lobby k)
  unfolding get_lobby
  Stays-get_lobby k = record { at = λ w r. (refl, refl) }

  Stays-modify_lobby : (k : String) (f : LobbyData → LobbyData) → Stays p (modify_lobby k f)
  unfolding modify_lobby
  Stays-modify_lobby k f = record { at = λ w r. (refl, refl) }

  Stays-mark_updated : (k : String) → Stays p (mark_updated k)
  unfolding modify_game
  Stays-mark_updated k = record { at = λ w r. (refl, refl) }

  Stays-send : (q : String) (c : Content) (o : OpCode) → Stays p (send q c o)
  unfolding send
  Stays-send q c o = record { at = λ w r. (refl, refl) }

  Stays-get_peer : (q : String) → Stays p (get_peer q)
  unfolding get_peer
  Stays-get_peer q = record {
    at = λ w r. (
      ap seat (FlatMap.find-emplace q p default_peer w.game.peers)
          ∙ ap seat (go w.game.peers r.0 (FlatMap.contains q w.game.peers) refl (q == p) refl),
      refl,
    );
  }
    where
      go :
          (m : FlatMap.FlatMap PeerData)
          → FlatMap.contains p m ≡ true
          → (b : Bool) → FlatMap.contains q m ≡ b
          → (c : Bool) → (q == p) ≡ c
          → (if b then FlatMap.find p m else if c then some default_peer else FlatMap.find p m)
            ≡ FlatMap.find p m
      go m h true eb c ec = refl
      go m h false eb true ec =
          absurd (cc (ap (λ i. FlatMap.contains i m) (eq_of_test q p ec), eb, h))
      go m h false eb false ec = refl

  Stays-modify_peer :
      (q : String) (f : PeerData → PeerData)
      → ((x : PeerData) → seat (some (f x)) ≡ seat (some x))
      → Stays p (modify_peer q f)
  unfolding modify_peer
  Stays-modify_peer q f h = record {
    at = λ w r. (
      ap seat (FlatMap.find-adjust q p f w.game.peers) ∙ go (q == p) (FlatMap.find p w.game.peers),
      refl,
    );
  }
    where
      go : (b : Bool) (o : Option PeerData) → seat (if b then FlatMap.map_some f o else o) ≡ seat o
      go true none = refl
      go true (some x) = h x
      go false o = refl

  Stays-if :
      {A : Type 0} (b : Bool) (m n : M A) → Stays p m → Stays p n → Stays p (if b then m else n)
  Stays-if true m n k l = k
  Stays-if false m n k l = l

  Stays-bind :
      {A B : Type 0} (m : M A) (f : A → M B)
      → Stays p m
      → ((a : A) → Stays p (f a))
      → Stays p (m >>= f)
  unfolding ◌>>=◌
  Stays-bind m f k l = record {
    at = λ w r.
        let first = k.at w r in
        let second = (l (m w).0).at (m w).1 (Ready-Kept p w.game (m w).1.game first r) in
        (second.0 ∙ first.0, second.1 ∙ first.1);
  }

  Stays-for_each :
      {A : Type 0} (xs : List A) (f : A → M Unit)
      → ((x : A) → Stays p (f x))
      → Stays p (for_each xs f)
  unfolding for_each
  Stays-for_each [] f k = Stays-skip
  Stays-for_each (x ∷ xs) f k = Stays-bind (f x) _ (k x) (λ _. Stays-for_each xs f k)

  Stays-on_error :
      (id q message : String) (close logical : Bool) → Stays p (on_error id q message close logical)
  unfolding on_error
  Stays-on_error id q message true logical = Stays-send q _ _
  Stays-on_error id q message false logical = Stays-send q _ _

  Stays-report : (id q : String) (r : AnyElement × Bool) → Stays p (report id q r)
  unfolding report reject_or
  Stays-report id q r = go (error_result r)
    where
      go : (o : Option String) → Stays p (reject_or id q o true skip)
      go none = Stays-skip
      go (some message) = Stays-on_error id q message false true

  Stays-callback : (lua : LuaCall) (q k : String) → Stays p (callback lua q k "_on_peer_joined" [])
  Stays-callback lua q k = record {
    at = λ w r. rw (callback_free lua q k "_on_peer_joined" [] w r.1) (refl, refl);
  }

  ruleset staying = (
    Stays-pure, Stays-skip, Stays-get_game, Stays-read_peer, Stays-read_lobby, Stays-get_lobby,
    Stays-modify_lobby, Stays-mark_updated, Stays-send, Stays-get_peer, Stays-modify_peer, Stays-if,
    Stays-bind, Stays-for_each, Stays-report, Stays-callback,
  )

  peers_array-Stays : (ps : List String) → Stays p (peers_array ps)
  unfolding peers_array
  peers_array-Stays [] = Stays-pure []
  peers_array-Stays (q ∷ ps) =
      Stays-bind _ _ (Stays-get_peer q)
        λ peer. Stays-bind _ _ (peers_array-Stays ps) λ rest. Stays-pure _

  peers_to_array-Stays : (k : String) → Stays p (peers_to_array k)
  unfolding peers_to_array
  peers_to_array-Stays k = search (staying, peers_array-Stays) depth 12

  announce_join-Stays :
      (lua : LuaCall) (id q k : String) (b : Bool) → Stays p (announce_join lua id q k b)
  unfolding announce_join send_to_others
  announce_join-Stays lua id q k b = search (staying, peers_to_array-Stays) depth 20

-- The changes of a join that follow those of the peer.
abbrev settle : String → String → M (Unit {0})
settle k p = do
  peer ← read_peer p
  modify_lobby k (λ l. record l {
    peer_ids = FlatSet.insert peer.id l.peer_ids;
    peer_ordered_ids = l.peer_ordered_ids ++ peer.id ∷ [];
  })
  game ← get_game
  modify_lobby k (λ l. record l { peer_ordered_ids = sort_by_order game l.peer_ordered_ids })
  mark_updated k

settle-Stays : (p k : String) → Stays p (settle k p)
settle-Stays p k = search staying depth 20

abbrev Arrives : String → String → String → GameData → GameData → Type 0
Arrives p id k g h =
    (seat (FlatMap.find p h.peers) ≡ some (id, k)) × (h.enabled_callbacks ≡ g.enabled_callbacks)

-- The end of a join, after those changes.
abbrev pub ending : String → String → LuaCall → String → PeerData → M Bool
ending p k lua id q = do
  modify_peer p (λ x. record x { disconnected = false })
  announce_join lua id p k false
  callback lua q.id k "_on_peer_joined" [] >>= report id q.id
  pure true

module _ (p k : String) (peer : PeerData) (w : World)
    (known : FlatMap.find p w.game.peers ≡ some peer) (ready : Ready p w.game) where
  -- The peer is in the lobby after the changes of a join.
  enter_lobby-Arrives : Arrives p peer.id k w.game (enter_lobby k p w).1.game
  unfolding enter_lobby modify_lobby modify_peer read_lobby ◌>>=◌
  enter_lobby-Arrives =
      let w1 = (modify_lobby k (λ l. record l { order_id_counter = l.order_id_counter + 1 }) w).1 in
      let order = cast_i32 (pos (read_lobby k w1).0.order_id_counter) in
      let moved : PeerData → PeerData = λ q. record q { order_id = order; lobby_id = k } in
      let w3 = (modify_peer p moved w1).1 in
      let here : FlatMap.find p w3.game.peers ≡ some (moved peer) =
        FlatMap.find-adjust p p moved w.game.peers ∙ rw (beq_self p, known) refl in
      let last = (settle-Stays p k).at w3 (ap is_some here, ready.1) in
      (last.0 ∙ ap seat here, last.1)

  ending-Stays : (lua : LuaCall) (id : String) (q : PeerData) → Stays p (ending p k lua id q)
  ending-Stays lua id q = search (staying, announce_join-Stays) depth 14

  pub entered-seat :
      (lua : LuaCall) (id : String) (q : PeerData)
      → seat (FlatMap.find p ((enter_lobby k p >> ending p k lua id q) w).1.game.peers)
        ≡ some (peer.id, k)
  unfolding ◌>>=◌
  entered-seat lua id q =
      let first = enter_lobby-Arrives in
      let after =
        (ending-Stays lua id q).at (enter_lobby k p w).1
          (ground (arith, first.0), ap (FlatSet.contains "_on_peer_joined") first.1 ∙ ready.1) in
      after.0 ∙ first.0
