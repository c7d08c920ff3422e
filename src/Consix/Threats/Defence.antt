-- ===== src/Consix/Threats/Defence.antt =====
-- What `EnsureThreatNum` decides by its trials, said without a board that changes: whether one or two
-- stones of the other side on the threat points leave no attack.
use chess_set.Base.{
  ℕ, suc, Bool, not, ◌||◌, ◌≡◌, refl, List, [], ◌∷◌, All, inl, inr, Bool-cases, if◌then◌else◌, ltb,
  ◌==◌, arith,
}
use chess_set.Consix.State.{Point, Line, Search, next, empty}
use chess_set.Consix.Move.{put_stone}
use chess_set.Consix.Candidates.{unique_point}
use chess_set.Consix.Candidates.Squares.{Descending, unique_point_lem, unique_point-All}
use chess_set.Consix.Run.{◌>>=◌, pure, with_stone}
use chess_set.Consix.Threats.{
  attack, one_defends, second_defends, two_defend, two_directions, ensure_threat_num,
}
use chess_set.Consix.Threats.Attack.{any_point, attacked, attack-eq, Each, EachFree, with_stone-eq}
use chess_set.Consix.Threats.Others.{
  never, Apart, Others, Each-All, Each-less, all_Others, AllFree, Each-stone, after_free,
}

-- One stone of the other side, on one of the points, leaves `side` no attack on the others, in the
-- sense of `attacked`.
pub one_meets : List Point → ℕ → Search → Bool
one_meets all side g =
    any_point never (λ p ps i. not (attacked (λ x. x == i) all side (put_stone g p (next side))))
      all 0

-- A second stone does, after the point `i`.
abbrev pub second_meets : List Point → ℕ → ℕ → List Point → ℕ → Search → Bool
second_meets all side i qs j g =
    any_point never
      (λ q rs k. not (attacked (λ x. x == i || x == k) all side (put_stone g q (next side)))) qs j

-- Two stones do.
unfoldable pub two_meet : List Point → ℕ → Search → Bool
two_meet all side g =
    any_point never (λ p ps i. second_meets all side i ps (suc i) (put_stone g p (next side))) all 0

-- The trials on a list of different squares.
module _ (all : List Point) (side : ℕ) (d : Descending all) where
  attack_beside :
      (skip : ℕ → Bool) (g : Search) (p : Point)
      → g.board p.x p.y ≡ empty
      → EachFree skip g.board all 0
      → Each skip (λ q qs y. Apart p q) all 0
      → with_stone p (next side) (attack skip all side) g
        ≡ (attacked skip all side (put_stone g p (next side)), g)
  attack_beside skip g p e free o = with_stone-eq p (next side) (attack skip all side) _ g e (
      attack-eq skip side (put_stone g p (next side)) all d
        (Each-stone skip g.board p (next side) all 0 o free))

  one_defends-eq :
      (g : Search) (ps : List Point) (i : ℕ)
      → AllFree g.board all
      → AllFree g.board ps
      → Each never (λ p qs y. Others p y all 0) ps i
      → one_defends all side ps i g ≡ (
        any_point never
            (λ p qs i. not (attacked (λ x. x == i) all side (put_stone g p (next side))))
            ps
            i,
        g,
      )
  unfolding one_defends any_point ◌>>=◌ pure
  one_defends-eq g [] i free a o = refl
  one_defends-eq g (p ∷ ps) i free a o =
      let met =
        attack_beside (λ x. x == i) g p a.0
          (Each-All (λ x. x == i) (λ q. g.board q.x q.y ≡ empty) _ all 0 (λ q e. e) free)
          (o.0 refl) in
      rw met (elim (Bool-cases (attacked (λ x. x == i) all side (put_stone g p (next side)))) [
        | inl e ↦ rw e (one_defends-eq g ps (suc i) free a.1 o.1)
        | inr e ↦ rw e refl
      ])

  -- The second stone, on a board that has the first one, at `i`, already.
  second_defends-eq :
      (g : Search) (i : ℕ) (qs : List Point) (j : ℕ)
      → EachFree (λ x. x == i) g.board all 0
      → AllFree g.board qs
      → Each never (λ q rs y. Others q y all 0) qs j
      → second_defends all side i qs j g ≡ (second_meets all side i qs j g, g)
  unfolding second_defends any_point ◌>>=◌ pure
  second_defends-eq g i [] j free a o = refl
  second_defends-eq g i (q ∷ qs) j free a o =
      let both = λ (x : ℕ). x == i || x == j in
      let met =
        attack_beside both g q a.0 (Each-less (λ x. x == i) both _ all 0 (λ z h. ground arith) free)
          (Each-less (λ x. x == j) both _ all 0 (λ z h. ground arith) (o.0 refl)) in
      rw met (elim (Bool-cases (attacked both all side (put_stone g q (next side)))) [
        | inl e ↦ rw e (second_defends-eq g i qs (suc j) free a.1 o.1)
        | inr e ↦ rw e refl
      ])

  two_defend-eq :
      (g : Search) (ps : List Point) (i : ℕ)
      → AllFree g.board all
      → AllFree g.board ps
      → Descending ps
      → Each never (λ p qs y. Others p y all 0) ps i
      → two_defend all side ps i g ≡ (
        any_point never
            (λ p qs i. second_meets all side i qs (suc i) (put_stone g p (next side)))
            ps
            i,
        g,
      )
  unfolding two_defend any_point ◌>>=◌ pure
  two_defend-eq g [] i free a s o = refl
  two_defend-eq g (p ∷ ps) i free a s o =
      let g1 : Search = put_stone g p (next side) in
      let one =
        Each-stone (λ x. x == i) g.board p (next side) all 0 (o.0 refl)
          (Each-All (λ x. x == i) (λ q. g.board q.x q.y ≡ empty) _ all 0 (λ q e. e) free) in
      let met =
        with_stone-eq p (next side) (second_defends all side i ps (suc i)) _ g a.0 (
          second_defends-eq g1 i ps (suc i) one (after_free g.board p (next side) ps s.0 a.1)
            o.1) in
      rw met (elim (Bool-cases (second_meets all side i ps (suc i) g1)) [
        | inl e ↦ rw e refl
        | inr e ↦ rw e (two_defend-eq g ps (suc i) free a.1 s.1 o.1)
      ])

  one_defends-meets :
      (g : Search) → AllFree g.board all → one_defends all side all 0 g ≡ (one_meets all side g, g)
  unfolding one_meets
  one_defends-meets g a = one_defends-eq g all 0 a a (all_Others all 0 d)

  two_defend-meet :
      (g : Search) → AllFree g.board all → two_defend all side all 0 g ≡ (two_meet all side g, g)
  unfolding two_meet
  two_defend-meet g a = two_defend-eq g all 0 a a d (all_Others all 0 d)

-- The number of threats that `EnsureThreatNum` leaves on a line with the different points `all`.
unfoldable pub met_threats : List Point → ℕ → List ℕ → ℕ → Search → ℕ
met_threats all side threat n g =
    if ltb n 2 || not (two_directions threat)
    then n
    else if one_meets all side g
    then 1
    else if two_meet all side g
    then 2
    else n

-- When the threat points stand on empty squares, `EnsureThreatNum` keeps each of them once and counts
-- the threats anew when there are two or more, in two directions or more: 1 if, after one stone of the
-- other side on a threat point, no one or two stones of the side on the others give 15 from
-- `AnalyzeLineSegID` at a stone that was put, or else 2 if that is so after two stones of the other side,
-- or else as before. The state is as it was.
pub ensure_threat_num-eq :
    (line : Line) (threat : List ℕ) (g : Search)
    → All (λ p. g.board p.x p.y ≡ empty) line.threat_point
    → ensure_threat_num line threat g ≡ (
      record line {
        threat_point = unique_point line.threat_point;
        threat_num =
            met_threats (unique_point line.threat_point) line.side threat line.threat_num g;
      },
      g,
    )
unfolding ensure_threat_num met_threats ◌>>=◌ pure
ensure_threat_num-eq line threat g free =
    let all = unique_point line.threat_point in
    let a = unique_point-All (λ p. g.board p.x p.y ≡ empty) line.threat_point free in
    let d = (unique_point_lem line.threat_point).0 in
    let one = one_defends-meets all line.side d g a in
    let two = two_defend-meet all line.side d g a in
    elim (Bool-cases (ltb line.threat_num 2)) [
      | inl e ↦ rw e refl
      | inr e ↦ rw e (elim (Bool-cases (two_directions threat)) [
        | inr n ↦ rw n refl
        | inl y ↦ rw y (
            rw one (elim (Bool-cases (one_meets all line.side g)) [
              | inl m ↦ rw m refl
              | inr m ↦ rw m (
                  rw two (elim (Bool-cases (two_meet all line.side g)) [
                    | inl k ↦ rw k refl
                    | inr k ↦ rw k refl
                  ]))
            ]))
      ])
    ]
