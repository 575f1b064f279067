-- ===== src/Game/Moves/Still.antt =====
-- Actions that touch no lobby.
use tiny_lobby_tests.Prelude.{
  Bool, true, false, String, List, [], ◌∷◌, ◌≡◌, refl, ◌∙◌, ap, if◌then◌else◌,
}
use tiny_lobby_tests.FlatMap
use tiny_lobby_tests.Peer.{PeerData}
use tiny_lobby_tests.Lobby.{LobbyData}
use tiny_lobby_tests.Game.{World, Content, OpCode}
use tiny_lobby_tests.Game.Monad.{
  M, ◌>>=◌, ◌>>◌, skip, get_peer, modify_peer, modify_lobby, modify_game, read_lobby, for_each,
}
use tiny_lobby_tests.Game.Send.{send, mark_updated}
use tiny_lobby_tests.Game.Membership.{disband, tell_left, hand_over, first_other}

pub record Still {A : Type 0} (m : M A) : Type 0 where
  pub at : (w : _) → (m w).1.game.lobbies ≡ w.game.lobbies

pub Still-skip : Still skip
unfolding skip
Still-skip = record { at = λ w. refl }

pub Still-get_peer : (p : String) → Still (get_peer p)
unfolding get_peer
Still-get_peer p = record { at = λ w. refl }

pub Still-modify_peer : (p : String) (f : PeerData → PeerData) → Still (modify_peer p f)
unfolding modify_peer
Still-modify_peer p f = record { at = λ w. refl }

pub Still-send : (p : String) (m : Content) (o : OpCode) → Still (send p m o)
unfolding send
Still-send p m o = record { at = λ w. refl }

pub Still-if : {A : Type 0} (b : Bool) (m n : M A) → Still m → Still n → Still (if b then m else n)
Still-if true m n k l = k
Still-if false m n k l = l

pub Still-bind :
    {A B : Type 0} (m : M A) (f : A → M B) → Still m → ((a : A) → Still (f a)) → Still (m >>= f)
unfolding ◌>>=◌
Still-bind m f k l = record { at = λ w. (l (m w).0).at (m w).1 ∙ k.at w }

pub Still-for_each :
    {A : Type 0} (xs : List A) (f : A → M Unit) → ((x : A) → Still (f x)) → Still (for_each xs f)
unfolding for_each
Still-for_each [] f k = Still-skip
Still-for_each (x ∷ xs) f k = Still-bind (f x) _ (k x) (λ _. Still-for_each xs f k)

pub Still-read_lobby : (k : String) → Still (read_lobby k)
unfolding read_lobby
Still-read_lobby k = record { at = λ w. refl }

pub Still-mark_updated : (k : String) → Still (mark_updated k)
unfolding modify_game
Still-mark_updated k = record { at = λ w. refl }

pub ruleset still = (
  Still-read_lobby, Still-mark_updated, Still-skip, Still-get_peer, Still-modify_peer, Still-send,
  Still-if, Still-bind, Still-for_each,
)

pub disband-Still : (l : LobbyData) (p id : String) → Still (disband l p id)
unfolding disband
disband-Still l p id = search still depth 20

pub tell_left-Still : (l : LobbyData) (p id : String) (b : Bool) → Still (tell_left l p id b)
unfolding tell_left
tell_left-Still l p id b = search still depth 20

around :
    (m n o : M Unit) (k : String) (f : LobbyData → LobbyData) (w : World)
    → Still m
    → Still n
    → Still o
    → ((m >> (n >> (modify_lobby k f >> o))) w).1.game.lobbies ≡ FlatMap.adjust k f w.game.lobbies
unfolding ◌>>=◌ modify_lobby
around m n o k f w a b c = c.at _ ∙ ap (FlatMap.adjust k f) (b.at _ ∙ a.at w)

-- Handing over changes the host of the one lobby.
pub hand_over-lobbies :
    (l : LobbyData) (k p id : String) (w : World)
    → (hand_over l k p id w).1.game.lobbies
      ≡ FlatMap.adjust k (λ l'. record l' { host = first_other p l.peer_ids }) w.game.lobbies
unfolding hand_over
hand_over-lobbies l k p id w =
    around _ _ _ k _ w (search still depth 20) (Still-send p _ _) (search still depth 20)
