-- ===== src/Game/Consistency.antt =====
-- When the peers and the lobbies of a game agree, and what follows for an action that asks for both.
use tiny_lobby_tests.Prelude.{true, String, none, some, List, ◌≡◌, ◌≢◌, sym, ◌∙◌}
use tiny_lobby_tests.FlatMap
use tiny_lobby_tests.FlatSet.{FlatSet}
use tiny_lobby_tests.FlatSet
use tiny_lobby_tests.Game.{GameData}
use tiny_lobby_tests.Game.Monad.{M}
use tiny_lobby_tests.Game.Scripts.{LuaCall}
use tiny_lobby_tests.Game.Rules.{
  seat, roster, SameMembership, is_some-seat, is_some-roster, Keeps, Steady,
}

-- Entries stand under their ids. A peer that names a lobby is a member of it, every member names its
-- lobby, and a lobby's host is a member.
pub record IsConsistent (g : GameData) : Type 0 where
  pub own_ids : (p i k : String) → seat (FlatMap.find p g.peers) ≡ some (i, k) → i ≡ p
  pub lobby_ids :
      (k i h : String) (ps : FlatSet) → roster (FlatMap.find k g.lobbies) ≡ some (i, h, ps) → i ≡ k
  pub placed :
      (p i k : String)
      → seat (FlatMap.find p g.peers) ≡ some (i, k)
      → k ≢ ""
      → (h : String) × (ps : FlatSet) × (roster (FlatMap.find k g.lobbies) ≡ some (k, h, ps))
        × (FlatSet.contains p ps ≡ true)
  pub members :
      (k i h : String) (ps : FlatSet) (p : String)
      → roster (FlatMap.find k g.lobbies) ≡ some (i, h, ps)
      → FlatSet.contains p ps ≡ true
      → seat (FlatMap.find p g.peers) ≡ some (p, k)
  pub hosts :
      (k i h : String) (ps : FlatSet)
      → roster (FlatMap.find k g.lobbies) ≡ some (i, h, ps)
      → FlatSet.contains h ps ≡ true
  pub named : roster (FlatMap.find "" g.lobbies) ≡ none

pub IsConsistent-same : {g h : GameData} → SameMembership g h → IsConsistent g → IsConsistent h
IsConsistent-same {g} {h} s c = record {
  own_ids = λ p i k e. c.own_ids p i k (sym (s.seats p) ∙ e);
  lobby_ids = λ k i t ps e. c.lobby_ids k i t ps (sym (s.rosters k) ∙ e);
  placed = λ p i k e n.
      let (t, ps, r, m) = c.placed p i k (sym (s.seats p) ∙ e) n in (t, ps, s.rosters k ∙ r, m);
  members = λ k i t ps p e m. s.seats p ∙ c.members k i t ps p (sym (s.rosters k) ∙ e) m;
  hosts = λ k i t ps e. c.hosts k i t ps (sym (s.rosters k) ∙ e);
  named = s.rosters "" ∙ c.named;
}

-- A script that leaves the membership alone.
pub record IsTame (lua : LuaCall) : Type 0 where
  pub keeps :
      (name : String) (args : List _) (p k : String) → Keeps IsConsistent (lua name args p k)

-- The peer `p` is known.
abbrev pub Known : String → GameData → Type 0
Known p g = IsConsistent g × (FlatMap.contains p g.peers ≡ true)

-- The lobby `k` is there, unless it is the empty id.
abbrev pub Near : String → GameData → Type 0
Near k g = IsConsistent g × (k ≢ "" → FlatMap.contains k g.lobbies ≡ true)

-- The lobby `k` and the peers `ps` are there.
abbrev pub At : String → List String → GameData → Type 0
At k ps g =
    IsConsistent g
    × (FlatMap.contains k g.lobbies ≡ true)
    × ((p : String) → FlatSet.contains p ps ≡ true → FlatMap.contains p g.peers ≡ true)

pub Consistent-steady : Steady IsConsistent
Consistent-steady = record { along = λ g h s c. IsConsistent-same s c }

pub Known-steady : (p : String) → Steady (Known p)
Known-steady p = record {
  along = λ g h s c. (IsConsistent-same s c.0, is_some-seat _ _ (s.seats p) c.1);
}

pub Near-steady : (k : String) → Steady (Near k)
Near-steady k = record {
  along = λ g h s c. (IsConsistent-same s c.0, λ e. is_some-roster _ _ (s.rosters k) (c.1 e));
}

pub At-steady : (k : String) (ps : List String) → Steady (At k ps)
At-steady k ps = record {
  along = λ g h s c. (
    IsConsistent-same s c.0,
    is_some-roster _ _ (s.rosters k) c.1,
    λ p m. is_some-seat _ _ (s.seats p) (c.2 p m),
  );
}

pub Keeps-weaken :
    {A : Type 0} {P Q : GameData → Type 0} (m : M A)
    → ((g : GameData) → Q g → P g)
    → Keeps P m
    → Keeps Q m
Keeps-weaken m h k = record { at = λ w q. k.at w (h w.game q) }
