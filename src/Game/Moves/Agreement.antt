-- ===== src/Game/Moves/Agreement.antt =====
-- The changes of the membership after which peers and lobbies still agree.
use tiny_lobby_tests.Prelude.{
  Bool, true, false, String, none, some, ◌≡◌, ◌≢◌, refl, ap, ◌∙◌, sym, ◌==◌, if◌then◌else◌, arith,
  eq_iff, eq_of_test,
}
use tiny_lobby_tests.FlatMap
use tiny_lobby_tests.FlatSet
use tiny_lobby_tests.FlatSet.{FlatSet}
use tiny_lobby_tests.Game.{GameData}
use tiny_lobby_tests.Game.Rules.{seat, roster}
use tiny_lobby_tests.Game.Consistency.{IsConsistent}
use tiny_lobby_tests.Game.Moves.{Seat, Roster, Turn, only, vacate}

-- A peer that has moved out, or has not.
vacated :
    (b : Bool) (o : Seat) (i k : String)
    → (if b then vacate o else o) ≡ some (i, k)
    → (j : String) × (o ≡ some (i, j))
vacated true none i k e = cc
vacated true (some (j, l)) i k e = (l, ground arith)
vacated false o i k e = (k, e)

remained :
    (b : Bool) (o : Seat) (i k : String)
    → (if b then vacate o else o) ≡ some (i, k)
    → k ≢ ""
    → (b ≡ false) × (o ≡ some (i, k))
remained true none i k e n = cc
remained true (some (j, l)) i k e n = ground arith
remained false o i k e n = (refl, e)

kept :
    (b : Bool) (o : Roster) (x : String × String × FlatSet)
    → (if b then none else o) ≡ some x
    → (b ≡ false) × (o ≡ some x)
kept true o x e = cc
kept false o x e = (refl, e)

second : {i j k l : String} (o : Seat) → o ≡ some (i, k) → o ≡ some (j, l) → k ≡ l
second o a b = cc (a, b)

pub same_roster :
    (i i' h h' : String) (ps ps' : FlatSet) (o : Roster)
    → o ≡ some (i, h, ps)
    → o ≡ some (i', h', ps')
    → ps ≡ ps'
same_roster i i' h h' ps ps' o a b = cc (a, b)

module _ {g : GameData} (k h : String) (ps : FlatSet) (c : IsConsistent g)
    (found : roster (FlatMap.find k g.lobbies) ≡ some (k, h, ps)) where
  -- Two lobbies of one peer are the same.
  elsewhere :
      (q j : String)
      → seat (FlatMap.find q g.peers) ≡ some (q, j)
      → (k == j) ≡ false
      → FlatSet.contains q ps ≡ false
  elsewhere q j s n = go (FlatSet.contains q ps) refl
    where
      go : (b : Bool) → FlatSet.contains q ps ≡ b → b ≡ false
      go false m = refl
      go true m =
          let other = c.members k k h ps q found m in cc ((eq_iff k j).1 (second _ other s), n)

  -- A peer that stays names another lobby.
  apart_from :
      (p i j : String)
      → FlatSet.contains p ps ≡ false
      → seat (FlatMap.find p g.peers) ≡ some (i, j)
      → j ≢ ""
      → (k == j) ≡ false
  apart_from p i j out s n = go (k == j) refl
    where
      go : (b : Bool) → (k == j) ≡ b → b ≡ false
      go false m = refl
      go true m =
          let (t, qs, r, inside) = c.placed p i j s n in
          let same = same_roster k j h t ps qs _ found (rw (eq_of_test k j m) r) in
          cc (inside, out, same)

  nameless : (k == "") ≡ false
  nameless = go (k == "") refl
    where
      go : (b : Bool) → (k == "") ≡ b → b ≡ false
      go false m = refl
      go true m = cc (found, c.named, eq_of_test k "" m)

  -- The lobby `k` goes and its members leave it.
  pub closed-IsConsistent :
      {g' : GameData}
      → Turn (λ q o. if FlatSet.contains q ps then vacate o else o) (only k (λ o. none)) g g'
      → IsConsistent g'
  closed-IsConsistent a = record {
    own_ids = λ p i j e. let (l, s) = vacated _ _ i j (sym (a.seats p) ∙ e) in c.own_ids p i l s;
    lobby_ids = λ j i t qs e.
        let (n, r) = kept (k == j) _ _ (sym (a.rosters j) ∙ e) in c.lobby_ids j i t qs r;
    placed = λ p i j e n.
        let (out, s) = remained _ _ i j (sym (a.seats p) ∙ e) n in
        let (t, qs, r, m) = c.placed p i j s n in
        (t, qs, a.rosters j ∙ rw (apart_from p i j out s n) r, m);
    members = λ j i t qs q e m.
        let (n, r) = kept (k == j) _ _ (sym (a.rosters j) ∙ e) in
        let s = c.members j i t qs q r m in a.seats q ∙ rw (elsewhere q j s n) s;
    hosts =
        λ j i t qs e. let (n, r) = kept (k == j) _ _ (sym (a.rosters j) ∙ e) in c.hosts j i t qs r;
    named = a.rosters "" ∙ rw nameless c.named;
  }

module _ {g : GameData} (k h p h' : String) (ps : FlatSet) (c : IsConsistent g)
    (found : roster (FlatMap.find k g.lobbies) ≡ some (k, h, ps))
    (inside : FlatSet.contains p ps ≡ true)
    (hosted : FlatSet.contains h' (FlatSet.erase p ps) ≡ true) where
  abbrev changed : Bool → String → Roster
  changed b j = if b then some (k, h', FlatSet.erase p ps) else roster (FlatMap.find j g.lobbies)

  triple :
      (i j t : String) (qs : FlatSet)
      → (k == j) ≡ true
      → changed true j ≡ some (i, t, qs)
      → (i ≡ j) × (t ≡ h') × (qs ≡ FlatSet.erase p ps)
  triple i j t qs m e = (cc (e, eq_of_test k j m), cc e, cc e)

  ids :
      (j i t : String) (qs : FlatSet) (b : Bool)
      → (k == j) ≡ b
      → changed b j ≡ some (i, t, qs)
      → i ≡ j
  ids j i t qs true m e = (triple i j t qs m e).0
  ids j i t qs false m e = c.lobby_ids j i t qs e

  place :
      (q j t : String) (qs : FlatSet)
      → roster (FlatMap.find j g.lobbies) ≡ some (j, t, qs)
      → FlatSet.contains q qs ≡ true
      → (p == q) ≡ false
      → (b : Bool) → (k == j) ≡ b
      → (t' : String) × (qs' : FlatSet) × (changed b j ≡ some (j, t', qs'))
        × (FlatSet.contains q qs' ≡ true)
  place q j t qs r m out true e =
      let same = same_roster k j h t ps qs _ found (rw (eq_of_test k j e) r) in
      (
        h',
        FlatSet.erase p ps,
        rw (eq_of_test k j e) refl,
        rw (FlatSet.contains-erase p q ps, out) (ap (FlatSet.contains q) same ∙ m),
      )
  place q j t qs r m out false e = (t, qs, r, m)

  outside :
      (q : String) (b : Bool) (x : Bool)
      → (if b then false else x) ≡ true
      → (b ≡ false) × (x ≡ true)
  outside q true x e = cc
  outside q false x e = (refl, e)

  member :
      (j i t : String) (qs : FlatSet) (q : String) (b : Bool)
      → (k == j) ≡ b
      → changed b j ≡ some (i, t, qs)
      → FlatSet.contains q qs ≡ true
      → only p vacate q (seat (FlatMap.find q g.peers)) ≡ some (q, j)
  member j i t qs q true m e inn =
      let (_, _, u) = triple i j t qs m e in
      let (out, still) =
        outside q (p == q) (FlatSet.contains q ps)
          (sym (FlatSet.contains-erase p q ps) ∙ ap (FlatSet.contains q) (sym u) ∙ inn) in
      rw out (c.members k k h ps q found still ∙ ap (λ x. some (q, x)) (eq_of_test k j m))
  member j i t qs q false m e inn =
      let s = c.members j i t qs q e inn in
      let away = elsewhere k h ps c found q j s m in rw (others q away (p == q) refl) s
    where
      others :
          (r : String)
          → FlatSet.contains r ps ≡ false
          → (b : Bool) → (p == r) ≡ b
          → (p == r) ≡ false
      others r away true z = cc (inside, away, eq_of_test p r z)
      others r away false z = z

  host :
      (j i t : String) (qs : FlatSet) (b : Bool)
      → (k == j) ≡ b
      → changed b j ≡ some (i, t, qs)
      → FlatSet.contains t qs ≡ true
  host j i t qs true m e = let (_, v, u) = triple i j t qs m e in rw (u, v) hosted
  host j i t qs false m e = c.hosts j i t qs e

  -- The member `p` leaves, and the host of what remains is `h'`.
  pub dropped-IsConsistent :
      {g' : GameData}
      → Turn (only p vacate) (only k (λ o. some (k, h', FlatSet.erase p ps))) g g'
      → IsConsistent g'
  dropped-IsConsistent a = record {
    own_ids =
        λ q i j e. let (l, s) = vacated (p == q) _ i j (sym (a.seats q) ∙ e) in c.own_ids q i l s;
    lobby_ids = λ j i t qs e. ids j i t qs (k == j) refl (sym (a.rosters j) ∙ e);
    placed = λ q i j e n.
        let (out, s) = remained (p == q) _ i j (sym (a.seats q) ∙ e) n in
        let (t, qs, r, m) = c.placed q i j s n in
        let (t', qs', r', m') = place q j t qs r m out (k == j) refl in
        (t', qs', a.rosters j ∙ r', m');
    members =
        λ j i t qs q e m. a.seats q ∙ member j i t qs q (k == j) refl (sym (a.rosters j) ∙ e) m;
    hosts = λ j i t qs e. host j i t qs (k == j) refl (sym (a.rosters j) ∙ e);
    named = a.rosters "" ∙ rw (nameless k h ps c found) c.named;
  }
