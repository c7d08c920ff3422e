-- ===== src/Consix/Defend/Restored.antt =====
-- The functions that construct defences take back every stone that they try.
use chess_set.Base.{ℕ, suc, Bool, ◌&&◌, ◌||◌, ap, ◌∙◌, List, [], ◌∷◌, All, ltb, ◌==◌, ◌⊎◌, inl, inr}
use chess_set.Base.Int.{ℤ}
use chess_set.Consix.State.{Point, Step, Line, Lines, Search, put, next, empty}
use chess_set.Consix.Candidates.{unique_point, equal_point}
use chess_set.Consix.Move.{put_stone, cross, recover}
use chess_set.Consix.Move.Restore.{recovered_lines-eq}
use chess_set.Consix.Run.{
  Run, ◌>>=◌, ◌>>◌, pure, gets, place, update_cross, recover_cross, new_lines,
}
use chess_set.Consix.Run.Keeps.{
  Keeps, IsSafe, Allowed, Anywhere, pure-IsSafe, if-IsSafe, bind-IsSafe, gather-IsSafe,
  puts-Emptied, put-Within, with_stones-IsSafe,
}
use chess_set.Consix.Run.Trial.{trial-IsSafe}
use chess_set.Consix.Threats.Restored.{attack-IsSafe, get_all_line_infor-IsSafe}
use chess_set.Consix.Value.Restored.{valued_step-IsSafe, construct_com_point-IsSafe}
use chess_set.Consix.Defend.{
  defend_pair, defend_with, defend_from, defend_for_multi_threat, backup_two, trial_step,
  both_sides, adjust_step, adjust_step_value, steps_with, steps_with_others, single_look,
  single_point, near_steps, best_steps, defend_for_single_threat,
}

module _ (P : ℤ → ℤ → Type 0) where
  module _ (all : List Point) (side threat_num : ℕ) (a : All (Allowed P) all) where
    defend_pair-IsSafe :
        (i j : ℕ) (p q : Point)
        → Allowed P p
        → Allowed P q
        → IsSafe P (defend_pair all side threat_num i p j q)
    unfolding defend_pair
    defend_pair-IsSafe i j p q b c =
        bind-IsSafe P
          (with_stones-IsSafe P p (next side) q b c
            (attack-IsSafe P (λ x. x == i || x == j) all side a))
          (λ lost.
            if-IsSafe P (lost && ltb threat_num 3) (pure-IsSafe P [])
              (bind-IsSafe P (valued_step-IsSafe P p q (next side) b c) (λ step. pure-IsSafe P _)))

    defend_with-IsSafe :
        (i : ℕ) (p : Point) (qs : List Point) (j : ℕ)
        → Allowed P p
        → All (Allowed P) qs
        → IsSafe P (defend_with all side threat_num i p qs j)
    unfolding defend_with
    defend_with-IsSafe i p [] j b c = pure-IsSafe P []
    defend_with-IsSafe i p (q ∷ qs) j b c =
        bind-IsSafe P (defend_pair-IsSafe i j p q b c.0) (λ found.
          bind-IsSafe P (defend_with-IsSafe i p qs (suc j) b c.1) (λ more. pure-IsSafe P _))

    defend_from-IsSafe :
        (ps : List Point) (i : ℕ)
        → All (Allowed P) ps
        → IsSafe P (defend_from all side threat_num ps i)
    unfolding defend_from
    defend_from-IsSafe [] i c = pure-IsSafe P []
    defend_from-IsSafe (p ∷ ps) i c =
        bind-IsSafe P (defend_with-IsSafe i p ps (suc i) c.0 c.1)
          (λ found. bind-IsSafe P (defend_from-IsSafe ps (suc i) c.1) (λ more. pure-IsSafe P _))

  pub defend_for_multi_threat-IsSafe :
      (si : Line) → All (Allowed P) si.threat_point → IsSafe P (defend_for_multi_threat si)
  unfolding defend_for_multi_threat
  defend_for_multi_threat-IsSafe si a =
      bind-IsSafe P (defend_from-IsSafe si.threat_point si.side si.threat_num a si.threat_point 0 a)
        (λ found. pure-IsSafe P _)

  trial_step-IsSafe :
      (step : Step) (side : ℕ) (temp : Lines) (look : Run (Line × Line))
      → Allowed P step.first
      → Allowed P step.second
      → IsSafe P look
      → IsSafe P (trial_step step side temp look)
  unfolding trial_step backup_two ◌>>=◌ ◌>>◌ place pure gets update_cross recover_cross
  trial_step-IsSafe step side temp look a b h = record {
    keeps = λ g v.
        let p : Point = step.first in
        let q : Point = step.second in
        let s : ℕ = next side in
        let start : Search =
          cross
            (cross (cross (cross (put_stone (put_stone g p side) q side) p side 2) p s 2) q side 2)
            q s 2 in
        let k : Keeps P start (look start).1 =
          h.keeps start
            (put-Within P q side (put g.board p.x p.y side) b (put-Within P p side g.board a v)) in
        let aside : Lines = backup_two step side g.line_info temp in
        record {
          board = puts-Emptied P p q side g.board (look start).1.board a b k.board;
          rest =
              ap
                (λ (t : Search).
                  recover
                    (recover
                      (recover (recover (put_stone (put_stone t p empty) q empty) p aside side 2) p
                        aside s 2)
                      q aside side 2)
                    q aside s 2)
                k.rest
              ∙ (λ i. record g {
                board = put (put (look start).1.board p.x p.y empty) q.x q.y empty;
                temp_hash_table = (look start).1.temp_hash_table;
                hash_list = (look start).1.hash_list;
                line_info =
                    recovered_lines-eq g.pre_table (put (put g.board p.x p.y side) q.x q.y side) p q
                      side s 2 g.line_info temp i;
              });
        };
  }

  pub steps_with-IsSafe :
      (p : Point) (side : ℕ) (qs : List Point)
      → Allowed P p
      → ((q : Point) → Allowed P q)
      → IsSafe P (steps_with p side qs)
  unfolding steps_with
  steps_with-IsSafe p side qs a all =
      gather-IsSafe P qs
        (λ q. bind-IsSafe P (valued_step-IsSafe P p q side a (all q)) (λ step. pure-IsSafe P _))

  pub steps_with_others-IsSafe :
      (p : Point) (side : ℕ) (qs : List Point)
      → Allowed P p
      → ((q : Point) → Allowed P q)
      → IsSafe P (steps_with_others p side qs)
  unfolding steps_with_others
  steps_with_others-IsSafe p side qs a all = gather-IsSafe P qs (λ q.
      if-IsSafe P (equal_point p q) (pure-IsSafe P [])
        (bind-IsSafe P (valued_step-IsSafe P p q side a (all q)) (λ step. pure-IsSafe P _)))

-- The lists of the table may hold any squares, so from here on every square is allowed.
pub both_sides-IsSafe : (s1 w1 s2 w2 : ℕ) → IsSafe Anywhere (both_sides s1 w1 s2 w2)
unfolding both_sides
both_sides-IsSafe s1 w1 s2 w2 =
    bind-IsSafe Anywhere (get_all_line_infor-IsSafe s1 w1) (λ one.
      bind-IsSafe Anywhere (get_all_line_infor-IsSafe s2 w2) (λ two. pure-IsSafe Anywhere _))

adjust_step-IsSafe : (side : ℕ) (step : Step) → IsSafe Anywhere (adjust_step side step)
unfolding adjust_step
adjust_step-IsSafe side step =
    bind-IsSafe Anywhere
      (trial_step-IsSafe Anywhere step side new_lines _ tt tt
        (both_sides-IsSafe side 2 (next side) 2))
      (λ lines. pure-IsSafe Anywhere _)

pub adjust_step_value-IsSafe :
    (ms : List Step) (side : ℕ) → IsSafe Anywhere (adjust_step_value ms side)
unfolding adjust_step_value
adjust_step_value-IsSafe ms side = gather-IsSafe Anywhere ms (adjust_step-IsSafe side)

single_look-IsSafe :
    (s1 s2 : ℕ) (c d : Bool) (p : Point) → IsSafe Anywhere (single_look s1 s2 c d p)
unfolding single_look
single_look-IsSafe s1 s2 c d p = bind-IsSafe Anywhere (both_sides-IsSafe s1 0 s2 0) (λ lines.
    if-IsSafe Anywhere _ (pure-IsSafe Anywhere _) (
      if-IsSafe Anywhere c
        (bind-IsSafe Anywhere (steps_with-IsSafe Anywhere p s1 _ tt (λ q. tt))
          (λ steps. pure-IsSafe Anywhere _))
        (if-IsSafe Anywhere d
          (bind-IsSafe Anywhere (steps_with-IsSafe Anywhere p s1 _ tt (λ q. tt))
            (λ steps. pure-IsSafe Anywhere _))
          (pure-IsSafe Anywhere _))))

single_point-IsSafe :
    (s1 s2 : ℕ) (c d : Bool) (p : Point) → IsSafe Anywhere (single_point s1 s2 c d p)
unfolding single_point
single_point-IsSafe s1 s2 c d p =
    bind-IsSafe Anywhere
      (trial-IsSafe Anywhere p s1 s1 0 s2 0 new_lines tt (single_look-IsSafe s1 s2 c d p))
      (λ found. combined found)
  where
    combined :
        (found : List Step ⊎ List Point)
        → IsSafe Anywhere (elim found [
          | inl steps ↦ pure steps
          | inr qs ↦ steps_with_others p s1 (unique_point qs)
        ])
    combined (inl steps) = pure-IsSafe Anywhere steps
    combined (inr qs) = steps_with_others-IsSafe Anywhere p s1 (unique_point qs) tt (λ q. tt)

near_steps-IsSafe : (s1 s2 : ℕ) (p : Point) → IsSafe Anywhere (near_steps s1 s2 p)
unfolding near_steps
near_steps-IsSafe s1 s2 p =
    bind-IsSafe Anywhere (construct_com_point-IsSafe Anywhere p s1 s2 tt)
      (λ near. steps_with_others-IsSafe Anywhere p s1 near tt (λ q. tt))

pub best_steps-IsSafe :
    (low high from most side : ℕ) (ms : List Step)
    → IsSafe Anywhere (best_steps low high from most side ms)
unfolding best_steps
best_steps-IsSafe low high from most side ms =
    bind-IsSafe Anywhere
      (if-IsSafe Anywhere _ (adjust_step_value-IsSafe _ side) (pure-IsSafe Anywhere _))
      (λ adjusted. pure-IsSafe Anywhere _)

pub defend_for_single_threat-IsSafe :
    (si1 si2 : Line) (c d : Bool) → IsSafe Anywhere (defend_for_single_threat si1 si2 c d)
unfolding defend_for_single_threat
defend_for_single_threat-IsSafe si1 si2 c d =
    bind-IsSafe Anywhere
      (gather-IsSafe Anywhere si2.threat_point (single_point-IsSafe si1.side si2.side c d))
      (λ found.
        bind-IsSafe Anywhere
          (if-IsSafe Anywhere _
            (gather-IsSafe Anywhere si2.threat_point (near_steps-IsSafe si1.side si2.side))
            (pure-IsSafe Anywhere _))
          (λ all.
            if-IsSafe Anywhere c (pure-IsSafe Anywhere _)
              (if-IsSafe Anywhere d (pure-IsSafe Anywhere _) (best_steps-IsSafe _ _ _ _ _ _))))
