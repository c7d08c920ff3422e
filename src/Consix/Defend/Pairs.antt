-- ===== src/Consix/Defend/Pairs.antt =====
-- Which pairs of threat points `DefendForMultiThreat` returns as steps.
use chess_set.Base.{
  ℕ, suc, Bool, ◌&&◌, ◌||◌, ◌≡◌, refl, ap, ◌∙◌, List, [], ◌∷◌, ◌++◌, All, inl, inr, Bool-cases,
  if◌then◌else◌, ltb, ◌==◌, arith,
}
use chess_set.Base.Int.{ℤ}
use chess_set.Consix.State.{Point, Step, Line, Search, next, empty}
use chess_set.Consix.Move.{put_stone}
use chess_set.Consix.Candidates.{sort, com_step_value}
use chess_set.Consix.Candidates.Squares.{Descending}
use chess_set.Consix.Run.{Run, ◌>>=◌, ◌>>◌, pure, gets, place, with_stones}
use chess_set.Consix.Run.Keeps.{Free, Emptied-eq, puts-Emptied, Emptied-refl}
use chess_set.Consix.Threats.{attack}
use chess_set.Consix.Threats.Attack.{attacked, attack-eq, Each, EachFree}
use chess_set.Consix.Threats.Others.{
  never, Others, AllFree, all_Others, Each-stone, Each-All, Each-less,
}
use chess_set.Consix.Value.{calculate_step_value, valued_step}
use chess_set.Consix.Defend.{defend_pair, defend_with, defend_from, defend_for_multi_threat}

abbrev pub both : ℕ → ℕ → ℕ → Bool
both i j x = x == i || x == j

abbrev pub two_stones : Search → Point → Point → ℕ → Search
two_stones g p q s = put_stone (put_stone g p s) q s

-- The step on two threat points, unless the attack goes on beside them and there are fewer than three
-- threats.
abbrev pub kept_pair : List Point → ℕ → ℕ → ℕ → Point → ℕ → Point → Search → List Step
kept_pair all side n i p j q g =
    if attacked (both i j) all side (two_stones g p q (next side)) && ltb n 3
    then []
    else (valued_step p q (next side) g).0 ∷ []

unfoldable pub kept_with : List Point → ℕ → ℕ → ℕ → Point → List Point → ℕ → Search → List Step
kept_with all side n i p [] j g = []
kept_with all side n i p (q ∷ qs) j g =
    kept_pair all side n i p j q g ++ kept_with all side n i p qs (suc j) g

-- The steps of all pairs of `ps`, from the index `i` on.
unfoldable pub kept_steps : List Point → ℕ → ℕ → List Point → ℕ → Search → List Step
kept_steps all side n [] i g = []
kept_steps all side n (p ∷ ps) i g =
    kept_with all side n i p ps (suc i) g ++ kept_steps all side n ps (suc i) g

with_stones-eq :
    {A : Type 0} (p q : Point) (s : ℕ) (look : Run A) (v : A) (g : Search)
    → g.board p.x p.y ≡ empty
    → g.board q.x q.y ≡ empty
    → look (two_stones g p q s) ≡ (v, two_stones g p q s)
    → with_stones p q s look g ≡ (v, g)
unfolding with_stones ◌>>=◌ ◌>>◌ place pure
with_stones-eq {A} p q s look v g ep eq h =
    ap (λ (r : A × Search). (r.0, put_stone (put_stone r.1 p empty) q empty)) h ∙ (λ i. (
      v,
      record g {
        board =
            Emptied-eq g.board _
              (puts-Emptied (Free g.board) p q s g.board (two_stones g p q s).board ep eq
                (Emptied-refl (Free g.board) (two_stones g p q s).board))
              i;
      },
    ))

valued_step-eq :
    (p q : Point) (s : ℕ) (g : Search)
    → g.board p.x p.y ≡ empty
    → g.board q.x q.y ≡ empty
    → valued_step p q s g ≡ ((valued_step p q s g).0, g)
unfolding valued_step calculate_step_value ◌>>=◌ gets pure
valued_step-eq p q s g ep eq =
    let back = with_stones-eq p q s _ _ g ep eq refl in
    ap (λ (r : ℤ × Search). ((valued_step p q s g).0, r.1)) back

module _ (all : List Point) (side n : ℕ) (d : Descending all) (g : Search)
    (free : AllFree g.board all) where
  attack_on_both :
      (i j : ℕ) (p q : Point)
      → Others p i all 0
      → Others q j all 0
      → attack (both i j) all side (two_stones g p q (next side)) ≡ (
        attacked (both i j) all side (two_stones g p q (next side)),
        two_stones g p q (next side),
      )
  attack_on_both i j p q op oq =
      let start : EachFree (both i j) g.board all 0 =
        Each-All (both i j) (λ r. g.board r.x r.y ≡ empty) _ all 0 (λ r e. e) free in
      let one =
        Each-stone (both i j) g.board p (next side) all 0
          (Each-less (λ x. x == i) (both i j) _ all 0 (λ z h. ground arith) op) start in
      attack-eq (both i j) side (two_stones g p q (next side)) all d (
        Each-stone (both i j) (put_stone g p (next side)).board q (next side) all 0
          (Each-less (λ x. x == j) (both i j) _ all 0 (λ z h. ground arith) oq) one)

  defend_pair-eq :
      (i j : ℕ) (p q : Point)
      → g.board p.x p.y ≡ empty
      → g.board q.x q.y ≡ empty
      → Others p i all 0
      → Others q j all 0
      → defend_pair all side n i p j q g ≡ (kept_pair all side n i p j q g, g)
  unfolding defend_pair ◌>>=◌ pure
  defend_pair-eq i j p q ep eq op oq =
      let met =
        with_stones-eq p q (next side) (attack (both i j) all side) _ g ep eq
          (attack_on_both i j p q op oq) in
      let lost = attacked (both i j) all side (two_stones g p q (next side)) in
      rw met (elim (Bool-cases (lost && ltb n 3)) [
        | inl e ↦ rw e refl
        | inr e ↦
            rw e
              (ap (λ (r : Step × Search). (r.0 ∷ [], r.1)) (valued_step-eq p q (next side) g ep eq))
      ])

  defend_with-eq :
      (i : ℕ) (p : Point) (qs : List Point) (j : ℕ)
      → g.board p.x p.y ≡ empty
      → Others p i all 0
      → AllFree g.board qs
      → Each never (λ q rs y. Others q y all 0) qs j
      → defend_with all side n i p qs j g ≡ (kept_with all side n i p qs j g, g)
  unfolding defend_with kept_with ◌>>=◌ pure
  defend_with-eq i p [] j ep op a o = refl
  defend_with-eq i p (q ∷ qs) j ep op a o =
      rw (defend_pair-eq i j p q ep a.0 op (o.0 refl))
        (rw (defend_with-eq i p qs (suc j) ep op a.1 o.1) refl)

  defend_from-eq :
      (ps : List Point) (i : ℕ)
      → AllFree g.board ps
      → Each never (λ p qs y. Others p y all 0) ps i
      → defend_from all side n ps i g ≡ (kept_steps all side n ps i g, g)
  unfolding defend_from kept_steps ◌>>=◌ pure
  defend_from-eq [] i a o = refl
  defend_from-eq (p ∷ ps) i a o =
      rw (defend_with-eq i p ps (suc i) a.0 (o.0 refl) a.1 o.1)
        (rw (defend_from-eq ps (suc i) a.1 o.1) refl)

-- On different threat points that stand on empty squares, `DefendForMultiThreat` returns the steps on
-- two of them after which, for no one or two stones of the side on the others, `AnalyzeLineSegID` is 15
-- at a stone that was put, and with three threats or more all steps on two of them, ordered by their
-- values; the state is as it was.
pub defend_for_multi_threat-eq :
    (si : Line) (g : Search)
    → Descending si.threat_point
    → All (λ p. g.board p.x p.y ≡ empty) si.threat_point
    → defend_for_multi_threat si g ≡ (
      sort com_step_value (kept_steps si.threat_point si.side si.threat_num si.threat_point 0 g),
      g,
    )
unfolding defend_for_multi_threat ◌>>=◌ pure
defend_for_multi_threat-eq si g d free =
    rw
      (defend_from-eq si.threat_point si.side si.threat_num d g free si.threat_point 0 free
        (all_Others si.threat_point 0 d))
      refl
