-- ===== src/Consix/Search/Position.antt =====
-- What `ComputerMove` leaves of the position when it searches for a step.
use chess_set.Base.{
  ℕ, Bool, true, false, not, ◌≡◌, refl, ap, ◌∙◌, List, [], ◌∷◌, if◌then◌else◌, ◌==◌,
}
use chess_set.Base.Int.{ℤ, pos, ◌+ℤ◌, ◌-ℤ◌, ltb_ℤ}
use chess_set.Consix.State.{Step, Line, Lines, Search, threat}
use chess_set.Consix.Run.{Run, ◌>>=◌, ◌>>◌, pure, gets, new_lines}
use chess_set.Consix.Run.Keeps.{Keeps, IsSafe, Anywhere, Emptied, Emptied-refl, Emptied-trans}
use chess_set.Consix.History.{release_hash_table}
use chess_set.Consix.Search.{minus}
use chess_set.Consix.Search.Keeps.{try_step-IsSafe, move_list-IsSafe, max_search-IsSafe}
use chess_set.Consix.Search.Root.{
  set_byte, set_large_depth, found_win, root_loop, reset_depths, best_step, search_step,
}

-- The position is the same, but for stones that may be gone.
pub record SamePosition (g h : Search) : Type 0 where
  pub board : Emptied Anywhere g.board h.board
  pub lines : h.line_info ≡ g.line_info
  pub key : h.hash_key64 ≡ g.hash_key64
  pub turn : h.step_id ≡ g.step_id
  pub color : h.computer_color ≡ g.computer_color
  pub player : h.player ≡ g.player

same_refl : (g : Search) → SamePosition g g
same_refl g = record {
  board = Emptied-refl Anywhere g.board;
  lines = refl;
  key = refl;
  turn = refl;
  color = refl;
  player = refl;
}

same_trans : (f g h : Search) → SamePosition f g → SamePosition g h → SamePosition f h
same_trans f g h p q = record {
  board = Emptied-trans Anywhere f.board g.board h.board p.board q.board;
  lines = q.lines ∙ p.lines;
  key = q.key ∙ p.key;
  turn = q.turn ∙ p.turn;
  color = q.color ∙ p.color;
  player = q.player ∙ p.player;
}

-- An action that leaves the position.
record Leaves {A : Type 0} (m : Run A) : Type 0 where
  leaves : (g : Search) → SamePosition g (m g).1

safe-Leaves : {A : Type 0} {m : Run A} → IsSafe Anywhere m → Leaves m
safe-Leaves {A} {m} h = record {
  leaves = λ g.
      let k : Keeps Anywhere g (m g).1 = h.keeps g (λ x y e. tt) in
      record {
        board = k.board;
        lines = ap (λ (t : Search). t.line_info) k.rest;
        key = ap (λ (t : Search). t.hash_key64) k.rest;
        turn = ap (λ (t : Search). t.step_id) k.rest;
        color = ap (λ (t : Search). t.computer_color) k.rest;
        player = ap (λ (t : Search). t.player) k.rest;
      };
}

pure-Leaves : {A : Type 0} (a : A) → Leaves (pure a)
unfolding pure
pure-Leaves a = record { leaves = same_refl }

gets-Leaves : {A : Type 0} (f : Search → A) → Leaves (gets f)
unfolding gets
gets-Leaves f = record { leaves = same_refl }

bind-Leaves :
    {A B : Type 0} {m : Run A} {f : A → Run B}
    → Leaves m
    → ((a : A) → Leaves (f a))
    → Leaves (m >>= f)
unfolding ◌>>=◌
bind-Leaves {A} {B} {m} {f} h k = record {
  leaves =
      λ g. same_trans g (m g).1 (f (m g).0 (m g).1).1 (h.leaves g) ((k (m g).0).leaves (m g).1);
}

then-Leaves : {A B : Type 0} {m : Run A} {k : Run B} → Leaves m → Leaves k → Leaves (m >> k)
unfolding ◌>>◌
then-Leaves {A} {B} {m} {k} h l = record {
  leaves = λ g. same_trans g (m g).1 (k (m g).1).1 (h.leaves g) (l.leaves (m g).1);
}

if-Leaves :
    {A : Type 0} (c : Bool) {m k : Run A} → Leaves m → Leaves k → Leaves (if c then m else k)
if-Leaves true h k = h
if-Leaves false h k = k

-- The depths, the flag of a win and the tables of histories are no part of the position.
set_large_depth-Leaves : (n : ℕ) → Leaves (set_large_depth n)
unfolding set_large_depth
set_large_depth-Leaves n = record {
  leaves = λ g. record {
    board = Emptied-refl Anywhere g.board;
    lines = refl;
    key = refl;
    turn = refl;
    color = refl;
    player = refl;
  };
}

found_win-Leaves : Leaves found_win
unfolding found_win
found_win-Leaves = record {
  leaves = λ g. record {
    board = Emptied-refl Anywhere g.board;
    lines = refl;
    key = refl;
    turn = refl;
    color = refl;
    player = refl;
  };
}

release-Leaves : Leaves (λ g. (tt {0}, release_hash_table g))
unfolding release_hash_table
release-Leaves = record {
  leaves = λ g. record {
    board = Emptied-refl Anywhere g.board;
    lines = refl;
    key = refl;
    turn = refl;
    color = refl;
    player = refl;
  };
}

reset_depths-Leaves : Leaves reset_depths
unfolding reset_depths
reset_depths-Leaves = record { leaves = λ g. reset g.will_win g }
  where
    reset :
        (c : Bool) (g : Search)
        → SamePosition g (
            if c then g else record g {
              max_depth = set_byte g.max_depth g.computer_color g.max_depth_back_up;
              large_depth = set_byte g.large_depth g.computer_color g.large_depth_back_up;
            })
    reset true g = same_refl g
    reset false g = record {
      board = Emptied-refl Anywhere g.board;
      lines = refl;
      key = refl;
      turn = refl;
      color = refl;
      player = refl;
    }

root_loop-Leaves :
    (fuel color : ℕ) (temp : Lines) (alpha beta : ℤ) (ms : List Step)
    → Leaves (root_loop fuel color temp alpha beta ms)
unfolding root_loop
root_loop-Leaves fuel color temp alpha beta [] = pure-Leaves []
root_loop-Leaves fuel color temp alpha beta (step ∷ ms) =
    bind-Leaves
      (safe-Leaves (try_step-IsSafe step color temp (max_search-IsSafe fuel alpha beta 1)))
      (λ value. bind-Leaves (gets-Leaves (λ g. g.large_depth g.computer_color)) (λ large.
        let alpha' : ℤ = if ltb_ℤ alpha value then value else alpha in
        if-Leaves (not (ltb_ℤ alpha' (pos threat -ℤ pos large +ℤ pos 1)))
          (then-Leaves found_win-Leaves (pure-Leaves _))
          (bind-Leaves (root_loop-Leaves fuel color temp alpha' beta ms) (λ rest. pure-Leaves _))))

-- Whenever `ComputerMove` searches for its step, on whatever lines, the table of lines, the key, the turn,
-- the colour and the side to move are as before, and no square of the board has a stone that it had not.
pub search_step-SamePosition :
    (fuel : ℕ) (si_com si_per : Line) (g : Search)
    → SamePosition g (search_step fuel si_com si_per g).1
unfolding search_step
search_step-SamePosition fuel si_com si_per g = whole.leaves g
  where
    whole : Leaves (search_step fuel si_com si_per)
    whole = bind-Leaves (gets-Leaves (λ g. g.computer_color)) (λ color.
        bind-Leaves (gets-Leaves (λ g. g.step_id)) (λ id.
          then-Leaves (if-Leaves (id == 2) (set_large_depth-Leaves 5) (pure-Leaves tt)) (
            then-Leaves release-Leaves (
              bind-Leaves (safe-Leaves (move_list-IsSafe false 0 si_com si_per false false)) (λ ms.
                bind-Leaves
                  (root_loop-Leaves fuel color new_lines (minus (pos threat)) (pos threat) ms)
                  (λ tried. then-Leaves reset_depths-Leaves (
                    then-Leaves (if-Leaves (id == 2) (set_large_depth-Leaves 9) (pure-Leaves tt))
                      (pure-Leaves (best_step tried)))))))))
