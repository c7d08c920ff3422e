-- ===== src/Consix/Search/Keeps.antt =====
-- Every search of the tree gives back the state: the table of lines, the key, the depths and all else
-- but the tables of histories; and no square of the board has a stone that it had not before.
use chess_set.Base.{
  ℕ, zero, suc, Bool, true, false, ◌||◌, not, ap, ◌∙◌, List, [], ◌∷◌, if◌then◌else◌, ltb, leb, ◌==◌,
}
use chess_set.Base.Int.{ℤ, pos, ◌+ℤ◌, ◌-ℤ◌, ltb_ℤ}
use chess_set.Consix.State.{Point, Step, Line, Lines, Search, put, next, empty, threat}
use chess_set.Consix.Move.{
  make_move, back_move, update_board, recover_board, backup_step, toggle_step,
}
use chess_set.Consix.Move.Restore.{toggle_step-toggle_step, recovered_lines-eq}
use chess_set.Consix.Run.{Run, new_lines}
use chess_set.Consix.Run.Keeps.{
  Keeps, IsSafe, Anywhere, pure-IsSafe, gets-IsSafe, if-IsSafe, bind-IsSafe, then-IsSafe,
  puts-Emptied,
}
use chess_set.Consix.Threats.Restored.{get_all_line_infor-IsSafe, anywhere}
use chess_set.Consix.Defend.Restored.{
  defend_for_multi_threat-IsSafe, defend_for_single_threat-IsSafe,
}
use chess_set.Consix.Build.Restored.{construct_step_for_no_threat-IsSafe}
use chess_set.Consix.Judge.Restored.{
  need_con_search_for_double_threat-IsSafe, need_con_search_for_single_threat-IsSafe,
  discount-IsSafe,
}
use chess_set.Consix.History.Lookup.{look_up_hash_table-IsSafe, remember-IsSafe}
use chess_set.Consix.Search.{
  minus, try_step, tried_before, max_loop, min_loop, new_steps, new_list, move_list, con_search,
  max_expand, min_expand, max_leaf, max_level, min_level, max_search, min_search,
}

pub try_step-IsSafe :
    (step : Step) (side : ℕ) (temp : Lines) {rest : Run ℤ}
    → IsSafe Anywhere rest
    → IsSafe Anywhere (try_step step side temp rest)
unfolding try_step make_move back_move update_board recover_board backup_step toggle_step
try_step-IsSafe step side temp {rest} h = record {
  keeps = λ g v.
      let p : Point = step.first in
      let q : Point = step.second in
      let made : Search = (make_move g step side temp).0 in
      let aside : Lines = backup_step g step side temp in
      let k : Keeps Anywhere made (rest made).1 = h.keeps made (λ x y e. tt) in
      record {
        board = puts-Emptied Anywhere p q side g.board (rest made).1.board tt tt k.board;
        rest = ap (λ (t : Search). back_move t step side aside) k.rest ∙ (λ i. record g {
          board = put (put (rest made).1.board p.x p.y empty) q.x q.y empty;
          temp_hash_table = (rest made).1.temp_hash_table;
          hash_list = (rest made).1.hash_list;
          hash_key64 = toggle_step-toggle_step g step side i;
          line_info =
              recovered_lines-eq g.pre_table (put (put g.board p.x p.y side) q.x q.y side) p q side
                (next side) 0 g.line_info temp i;
        });
      };
}

module _ (side large : ℕ) (temp : Lines) {deeper : ℤ → ℤ → Run ℤ}
    (h : (a b : ℤ) → IsSafe Anywhere (deeper a b)) where
  pub max_loop-IsSafe :
      (alpha beta best : ℤ) (ms : List Step)
      → IsSafe Anywhere (max_loop side large temp deeper alpha beta best ms)
  unfolding max_loop
  max_loop-IsSafe alpha beta best [] = pure-IsSafe Anywhere _
  max_loop-IsSafe alpha beta best (step ∷ ms) =
      bind-IsSafe Anywhere (try_step-IsSafe step side temp (h alpha beta)) (λ value.
        let beta' : ℤ = if ltb_ℤ value beta then value else beta in
        let best' : ℤ = if ltb_ℤ value best then value else best in
        if-IsSafe Anywhere
          (ltb_ℤ value alpha || not (ltb_ℤ (minus (pos threat -ℤ pos large +ℤ pos 1)) beta'))
          (pure-IsSafe Anywhere _)
          (bind-IsSafe Anywhere (max_loop-IsSafe alpha beta' best' ms)
            (λ t. pure-IsSafe Anywhere (tried_before step value t))))

  pub min_loop-IsSafe :
      (alpha beta best : ℤ) (ms : List Step)
      → IsSafe Anywhere (min_loop side large temp deeper alpha beta best ms)
  unfolding min_loop
  min_loop-IsSafe alpha beta best [] = pure-IsSafe Anywhere _
  min_loop-IsSafe alpha beta best (step ∷ ms) =
      bind-IsSafe Anywhere (try_step-IsSafe step side temp (h alpha beta)) (λ value.
        let alpha' : ℤ = if ltb_ℤ alpha value then value else alpha in
        let best' : ℤ = if ltb_ℤ best value then value else best in
        if-IsSafe Anywhere
          (ltb_ℤ beta value || not (ltb_ℤ alpha' (pos threat -ℤ pos large +ℤ pos 1)))
          (pure-IsSafe Anywhere _)
          (bind-IsSafe Anywhere (min_loop-IsSafe alpha' beta best' ms)
            (λ t. pure-IsSafe Anywhere (tried_before step value t))))

pub new_list-IsSafe :
    (own other : Line) (one two : Bool) → IsSafe Anywhere (new_list own other one two)
unfolding new_list
new_list-IsSafe own other one two =
    if-IsSafe Anywhere (leb 2 other.threat_num)
      (defend_for_multi_threat-IsSafe Anywhere other (anywhere other.threat_point))
      (if-IsSafe Anywhere (other.threat_num == 1)
        (defend_for_single_threat-IsSafe own other one two)
        (construct_step_for_no_threat-IsSafe own other one))

pub move_list-IsSafe :
    (sorted : Bool) (depth : ℕ) (own other : Line) (one two : Bool)
    → IsSafe Anywhere (move_list sorted depth own other one two)
unfolding move_list
move_list-IsSafe sorted depth own other one two =
    bind-IsSafe Anywhere (look_up_hash_table-IsSafe Anywhere depth) (λ looked.
      bind-IsSafe Anywhere (gets-IsSafe Anywhere (λ g. g.hash_list)) (λ seen.
        if-IsSafe Anywhere looked (pure-IsSafe Anywhere _) (new_list-IsSafe own other one two)))

pub con_search-IsSafe :
    (depth : ℕ) (own other : Line) → IsSafe Anywhere (con_search depth own other)
unfolding con_search
con_search-IsSafe depth own other =
    bind-IsSafe Anywhere (need_con_search_for_double_threat-IsSafe own other) (λ one.
      bind-IsSafe Anywhere (need_con_search_for_single_threat-IsSafe own other)
        (λ two. bind-IsSafe Anywhere (gets-IsSafe Anywhere _) (λ large. pure-IsSafe Anywhere _)))

module _ {deeper : ℤ → ℤ → Run ℤ} (h : (a b : ℤ) → IsSafe Anywhere (deeper a b)) where
  pub max_expand-IsSafe :
      (alpha beta : ℤ) (depth : ℕ) (si_com si_per : Line) (one two : Bool)
      → IsSafe Anywhere (max_expand deeper alpha beta depth si_com si_per one two)
  unfolding max_expand
  max_expand-IsSafe alpha beta depth si_com si_per one two =
      bind-IsSafe Anywhere (gets-IsSafe Anywhere _) (λ color.
        bind-IsSafe Anywhere (gets-IsSafe Anywhere _) (λ large.
          bind-IsSafe Anywhere (move_list-IsSafe true depth si_per si_com one two) (λ ms.
            bind-IsSafe Anywhere
              (max_loop-IsSafe (next color) large new_lines h alpha beta (pos threat) ms)
              (λ t.
                then-IsSafe Anywhere (remember-IsSafe Anywhere depth t.pruning (new_steps t))
                  (pure-IsSafe Anywhere t.best_value)))))

  pub min_expand-IsSafe :
      (alpha beta : ℤ) (depth : ℕ) (si_com si_per : Line) (one two : Bool)
      → IsSafe Anywhere (min_expand deeper alpha beta depth si_com si_per one two)
  unfolding min_expand
  min_expand-IsSafe alpha beta depth si_com si_per one two =
      bind-IsSafe Anywhere (gets-IsSafe Anywhere _) (λ color.
        bind-IsSafe Anywhere (gets-IsSafe Anywhere _) (λ large.
          bind-IsSafe Anywhere (move_list-IsSafe false depth si_com si_per one two) (λ ms.
            bind-IsSafe Anywhere
              (min_loop-IsSafe color large new_lines h alpha beta (minus (pos threat)) ms)
              (λ t.
                then-IsSafe Anywhere (remember-IsSafe Anywhere depth t.pruning (new_steps t))
                  (pure-IsSafe Anywhere t.best_value)))))

  pub max_leaf-IsSafe :
      (depth : ℕ) (si_com si_per : Line) → IsSafe Anywhere (max_leaf depth si_com si_per)
  unfolding max_leaf
  max_leaf-IsSafe depth si_com si_per = bind-IsSafe Anywhere (gets-IsSafe Anywhere _) (λ large.
      if-IsSafe Anywhere (depth == large) (discount-IsSafe si_com si_per _)
        (pure-IsSafe Anywhere _))

  pub max_level-IsSafe :
      (alpha beta : ℤ) (depth : ℕ) → IsSafe Anywhere (max_level deeper alpha beta depth)
  unfolding max_level
  max_level-IsSafe alpha beta depth = bind-IsSafe Anywhere (gets-IsSafe Anywhere _) (λ color.
      bind-IsSafe Anywhere (get_all_line_infor-IsSafe color 0) (λ si_com.
        bind-IsSafe Anywhere (get_all_line_infor-IsSafe (next color) 0) (λ si_per.
          bind-IsSafe Anywhere (gets-IsSafe Anywhere _) (λ maximal.
            if-IsSafe Anywhere (ltb 0 si_per.threat_num) (pure-IsSafe Anywhere _) (
              if-IsSafe Anywhere (ltb 2 si_com.threat_num) (pure-IsSafe Anywhere _) (
                if-IsSafe Anywhere (leb maximal depth)
                  (bind-IsSafe Anywhere (con_search-IsSafe depth si_per si_com) (λ go.
                    if-IsSafe Anywhere go.0
                      (max_expand-IsSafe alpha beta depth si_com si_per go.1 go.2)
                      (max_leaf-IsSafe depth si_com si_per)))
                  (max_expand-IsSafe alpha beta depth si_com si_per false false)))))))

  pub min_level-IsSafe :
      (alpha beta : ℤ) (depth : ℕ) → IsSafe Anywhere (min_level deeper alpha beta depth)
  unfolding min_level
  min_level-IsSafe alpha beta depth = bind-IsSafe Anywhere (gets-IsSafe Anywhere _) (λ color.
      bind-IsSafe Anywhere (get_all_line_infor-IsSafe color 0) (λ si_com.
        bind-IsSafe Anywhere (get_all_line_infor-IsSafe (next color) 0) (λ si_per.
          bind-IsSafe Anywhere (gets-IsSafe Anywhere _) (λ maximal.
            if-IsSafe Anywhere (ltb 0 si_com.threat_num) (pure-IsSafe Anywhere _) (
              if-IsSafe Anywhere (ltb 2 si_per.threat_num) (pure-IsSafe Anywhere _) (
                if-IsSafe Anywhere (leb maximal depth)
                  (bind-IsSafe Anywhere (con_search-IsSafe depth si_com si_per) (λ go.
                    if-IsSafe Anywhere go.0
                      (min_expand-IsSafe alpha beta depth si_com si_per go.1 go.2)
                      (pure-IsSafe Anywhere _)))
                  (min_expand-IsSafe alpha beta depth si_com si_per false false)))))))

mutual
  unfolding max_search min_search

  pub max_search-IsSafe :
      (fuel : ℕ) (alpha beta : ℤ) (depth : ℕ) → IsSafe Anywhere (max_search fuel alpha beta depth)
  max_search-IsSafe zero alpha beta depth = pure-IsSafe Anywhere (pos 0)
  max_search-IsSafe (suc fuel) alpha beta depth =
      max_level-IsSafe (λ a b. min_search-IsSafe fuel a b (suc depth)) alpha beta depth

  pub min_search-IsSafe :
      (fuel : ℕ) (alpha beta : ℤ) (depth : ℕ) → IsSafe Anywhere (min_search fuel alpha beta depth)
  min_search-IsSafe zero alpha beta depth = pure-IsSafe Anywhere (pos 0)
  min_search-IsSafe (suc fuel) alpha beta depth =
      min_level-IsSafe (λ a b. max_search-IsSafe fuel a b (suc depth)) alpha beta depth

-- `MaxSearch` and `MinSearch`, from any state and on any bounds: all fields but the board and the tables
-- of histories are given back as they were, and a square of the board is as it was, or empty.
pub search-Keeps :
    (fuel : ℕ) (alpha beta : ℤ) (depth : ℕ) (g : Search)
    → Keeps Anywhere g (max_search fuel alpha beta depth g).1
      × Keeps Anywhere g (min_search fuel alpha beta depth g).1
search-Keeps fuel alpha beta depth g = (
  (max_search-IsSafe fuel alpha beta depth).keeps g (λ x y e. tt),
  (min_search-IsSafe fuel alpha beta depth).keeps g (λ x y e. tt),
)
