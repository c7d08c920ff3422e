-- ===== src/Consix/Threats/Restored.antt =====
-- The trials of `EnsureThreatNum` take every stone away again.
use chess_set.Base.{
  ℕ, zero, suc, inl, inr, Bool-cases, All-append, Bool, true, false, ◌||◌, List, [], ◌∷◌, All,
  if◌then◌else◌, ltb, ◌==◌,
}
use chess_set.Base.Int.{ℤ, pos}
use chess_set.Consix.State.{Point, Line, Lines, Search, next, no_line}
use chess_set.Consix.Candidates.{unique_point}
use chess_set.Consix.Candidates.Squares.{unique_point-All}
use chess_set.Consix.Run.{Run, ◌>>=◌, pure, gets}
use chess_set.Consix.Run.Keeps.{
  Keeps, Restores, Keeps-Restores, Within, IsSafe, Allowed, Anywhere, Free, pure-IsSafe,
  gets-IsSafe, if-IsSafe, bind-IsSafe, with_stone-IsSafe,
}
use chess_set.Consix.Threats.{
  one_six, two_six, each_until, attack_one, attack_two, attack, one_defends, second_defends,
  two_defend, two_directions, ensure_threat_num, wants, add_line, add_lines, get_all_line_infor,
}

module _ (P : ℤ → ℤ → Type 0) where
  each_until-IsSafe :
      (skip : ℕ → Bool) (ps : List Point) (x : ℕ) (body : ℕ → Point → List Point → Bool → Run Bool)
      (lost : Bool)
      → All (Allowed P) ps
      → ((x : ℕ) (p : Point) (qs : List Point) (b : Bool)
          → Allowed P p
          → All (Allowed P) qs
          → IsSafe P (body x p qs b))
      → IsSafe P (each_until skip ps x body lost)
  unfolding each_until
  each_until-IsSafe skip [] x body lost a h = pure-IsSafe P lost
  each_until-IsSafe skip (p ∷ ps) x body lost a h =
      let rest = λ (b : Bool). each_until-IsSafe skip ps (suc x) body b a.1 h in
      if-IsSafe P (skip x) (rest lost) (
        bind-IsSafe P (h x p ps lost a.0 a.1)
          (λ lost'. if-IsSafe P lost' (pure-IsSafe P true) (rest lost')))

  attack_one-IsSafe :
      (side x : ℕ) (p : Point) (ps : List Point) (lost : Bool)
      → Allowed P p
      → IsSafe P (attack_one side x p ps lost)
  unfolding attack_one
  attack_one-IsSafe side x p ps lost a =
      with_stone-IsSafe P p side a
        (bind-IsSafe P (gets-IsSafe P (one_six side p)) (λ six. pure-IsSafe P (lost || six)))

  attack_two-IsSafe :
      (skip : ℕ → Bool) (side x : ℕ) (p : Point) (ps : List Point) (lost : Bool)
      → Allowed P p
      → All (Allowed P) ps
      → IsSafe P (attack_two skip side x p ps lost)
  unfolding attack_two
  attack_two-IsSafe skip side x p ps lost a all = with_stone-IsSafe P p side a (
      each_until-IsSafe skip ps (suc x) _ lost all (λ y q qs lost' c d.
        with_stone-IsSafe P q side c
          (bind-IsSafe P (gets-IsSafe P (two_six side p q)) (λ six. pure-IsSafe P (lost' || six)))))

  pub attack-IsSafe :
      (skip : ℕ → Bool) (all : List Point) (side : ℕ)
      → All (Allowed P) all
      → IsSafe P (attack skip all side)
  unfolding attack
  attack-IsSafe skip all side a =
      bind-IsSafe P
        (each_until-IsSafe skip all 0 (attack_one side) false a
          (λ x p qs b c d. attack_one-IsSafe side x p qs b c))
        (λ lost.
          each_until-IsSafe skip all 0 (attack_two skip side) lost a
            (λ x p qs b c d. attack_two-IsSafe skip side x p qs b c d))

  module _ (all : List Point) (side : ℕ) (a : All (Allowed P) all) where
    one_defends-IsSafe :
        (ps : List Point) (i : ℕ) → All (Allowed P) ps → IsSafe P (one_defends all side ps i)
    unfolding one_defends
    one_defends-IsSafe [] i c = pure-IsSafe P false
    one_defends-IsSafe (p ∷ ps) i c =
        bind-IsSafe P
          (with_stone-IsSafe P p (next side) c.0 (attack-IsSafe (λ x. x == i) all side a))
          (λ lost. if-IsSafe P lost (one_defends-IsSafe ps (suc i) c.1) (pure-IsSafe P true))

    second_defends-IsSafe :
        (i : ℕ) (qs : List Point) (j : ℕ)
        → All (Allowed P) qs
        → IsSafe P (second_defends all side i qs j)
    unfolding second_defends
    second_defends-IsSafe i [] j c = pure-IsSafe P false
    second_defends-IsSafe i (q ∷ qs) j c =
        bind-IsSafe P
          (with_stone-IsSafe P q (next side) c.0 (attack-IsSafe (λ x. x == i || x == j) all side a))
          (λ lost. if-IsSafe P lost (second_defends-IsSafe i qs (suc j) c.1) (pure-IsSafe P true))

    two_defend-IsSafe :
        (ps : List Point) (i : ℕ) → All (Allowed P) ps → IsSafe P (two_defend all side ps i)
    unfolding two_defend
    two_defend-IsSafe [] i c = pure-IsSafe P false
    two_defend-IsSafe (p ∷ ps) i c =
        bind-IsSafe P
          (with_stone-IsSafe P p (next side) c.0 (second_defends-IsSafe i ps (suc i) c.1))
          (λ found. if-IsSafe P found (pure-IsSafe P true) (two_defend-IsSafe ps (suc i) c.1))

  pub ensure_threat_num-IsSafe :
      (line : Line) (threat : List ℕ)
      → All (Allowed P) line.threat_point
      → IsSafe P (ensure_threat_num line threat)
  unfolding ensure_threat_num
  ensure_threat_num-IsSafe line threat a =
      let si : Line = record line { threat_point = unique_point line.threat_point } in
      let c : All (Allowed P) si.threat_point = unique_point-All (Allowed P) line.threat_point a in
      if-IsSafe P (ltb si.threat_num 2) (pure-IsSafe P si) (
        if-IsSafe P (two_directions threat)
          (bind-IsSafe P (one_defends-IsSafe si.threat_point si.side c si.threat_point 0 c) (λ one.
            if-IsSafe P one (pure-IsSafe P (record si { threat_num = 1 })) (
              bind-IsSafe P (two_defend-IsSafe si.threat_point si.side c si.threat_point 0 c)
                (λ two. pure-IsSafe P (if two then record si { threat_num = 2 } else si)))))
          (pure-IsSafe P si))

  -- `GetAllLineInfor`, where the threat points that it adds up stand on allowed squares.
  pub get_all_line_infor-IsSafe_at :
      (side which : ℕ) (g : Search)
      → Within P g.board
      → All
          (Allowed P)
          (add_lines g.line_info side which 92 0 (record no_line { side = side }) []).0.threat_point
      → Keeps P g (get_all_line_infor side which g).1
  unfolding get_all_line_infor ◌>>=◌ gets pure
  get_all_line_infor-IsSafe_at side which g w a =
      let summed = add_lines g.line_info side which 92 0 (record no_line { side = side }) [] in
      (ensure_threat_num-IsSafe summed.0 summed.1 a).keeps g w

add_line-All :
    (Q : Point → Type 0) (which : ℕ) (line sum : Line)
    → All Q line.threat_point
    → All Q sum.threat_point
    → All Q (add_line which line sum).threat_point
unfolding add_line
add_line-All Q which line sum h k = elim (Bool-cases (wants which 1)) [
  | inl e ↦ rw e (All-append Q sum.threat_point line.threat_point k h)
  | inr e ↦ rw e k
]

add_lines-All :
    (Q : Point → Type 0) (lines : Lines) (side which count i : ℕ) (sum : Line) (threat : List ℕ)
    → ((j : ℕ) → All Q (lines side (pos j)).threat_point)
    → All Q sum.threat_point
    → All Q (add_lines lines side which count i sum threat).0.threat_point
unfolding add_lines
add_lines-All Q lines side which zero i sum threat h k = k
add_lines-All Q lines side which (suc count) i sum threat h k =
    add_lines-All Q lines side which count (suc i) (add_line which (lines side (pos i)) sum) _ h
      (add_line-All Q which (lines side (pos i)) sum (h i) k)

pub anywhere : (ps : List Point) → All (Allowed Anywhere) ps
anywhere [] = tt
anywhere (p ∷ ps) = (tt, anywhere ps)

pub get_all_line_infor-IsSafe : (side which : ℕ) → IsSafe Anywhere (get_all_line_infor side which)
get_all_line_infor-IsSafe side which = record {
  keeps = λ g w. get_all_line_infor-IsSafe_at Anywhere side which g w (anywhere _);
}

-- `GetAllLineInfor` gives back the state, the board included, when the threat points that the table
-- of lines holds for the side stand on empty squares.
pub get_all_line_infor-Restores :
    (side which : ℕ) (g : Search)
    → ((i : ℕ) → All (Allowed (Free g.board)) (g.line_info side (pos i)).threat_point)
    → Restores g (get_all_line_infor side which g).1
get_all_line_infor-Restores side which g h = Keeps-Restores g (get_all_line_infor side which g).1 (
    get_all_line_infor-IsSafe_at (Free g.board) side which g (λ x y e. e)
      (add_lines-All (Allowed (Free g.board)) g.line_info side which 92 0
        (record no_line { side = side }) [] h tt))
