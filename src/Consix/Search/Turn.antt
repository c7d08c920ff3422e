-- ===== src/Consix/Search/Turn.antt =====
-- `ComputerMove` leaves the turn alone, on all of its ways to a step.
use chess_set.Base.{
  ℕ, Bool, true, false, ◌≡◌, refl, ap, ◌∙◌, List, [], ◌∷◌, Option, none, some, if◌then◌else◌, ltb,
}
use chess_set.Consix.State.{Point, Step, Line, Search, next, empty}
use chess_set.Consix.Run.{Run, ◌>>=◌, ◌>>◌, pure, gets, place}
use chess_set.Consix.Run.Keeps.{IsSafe, Anywhere}
use chess_set.Consix.Threats.{win_pair, win_with, construct_win_step, two_six}
use chess_set.Consix.Threats.Restored.{get_all_line_infor-IsSafe}
use chess_set.Consix.History.{con_strange_step}
use chess_set.Consix.Search.Root.{search_step}
use chess_set.Consix.Search.Position.{search_step-SamePosition}
use chess_set.Consix.Search.Root

-- The side to move, the number of the step, and the computer's colour.
abbrev pub turn_of : Search → ℕ × ℕ × ℕ
turn_of g = (g.player, g.step_id, g.computer_color)

-- An action that leaves them as they are.
pub record Fixes {A : Type 0} (m : Run A) : Type 0 where
  pub fixes : (g : Search) → turn_of (m g).1 ≡ turn_of g

module _ {A : Type 0} where
  pure-Fixes : (a : A) → Fixes (pure a)
  unfolding pure
  pure-Fixes a = record { fixes = λ g. refl }

  gets-Fixes : (f : Search → A) → Fixes (gets f)
  unfolding gets
  gets-Fixes f = record { fixes = λ g. refl }

  if-Fixes : (c : Bool) {m k : Run A} → Fixes m → Fixes k → Fixes (if c then m else k)
  if-Fixes true h k = h
  if-Fixes false h k = k

  safe-Fixes : {m : Run A} → IsSafe Anywhere m → Fixes m
  safe-Fixes {m} h = record { fixes = λ g. ap turn_of (h.keeps g (λ x y e. tt)).rest }

bind-Fixes :
    {A B : Type 0} {m : Run A} {f : A → Run B} → Fixes m → ((a : A) → Fixes (f a)) → Fixes (m >>= f)
unfolding ◌>>=◌
bind-Fixes {A} {B} {m} {f} h k = record { fixes = λ g. (k (m g).0).fixes (m g).1 ∙ h.fixes g }

then-Fixes : {A B : Type 0} {m : Run A} {k : Run B} → Fixes m → Fixes k → Fixes (m >> k)
unfolding ◌>>◌
then-Fixes {A} {B} {m} {k} h l = record { fixes = λ g. l.fixes (m g).1 ∙ h.fixes g }

place-Fixes : (p : Point) (s : ℕ) → Fixes (place p s)
unfolding place
place-Fixes p s = record { fixes = λ g. refl }

win_pair-Fixes : (side : ℕ) (p q : Point) → Fixes (win_pair side p q)
unfolding win_pair
win_pair-Fixes side p q = then-Fixes (place-Fixes p side) (
    then-Fixes (place-Fixes q side) (
      bind-Fixes (gets-Fixes (two_six side p q)) (λ six.
        if-Fixes six
          (then-Fixes (place-Fixes p empty) (then-Fixes (place-Fixes q empty) (pure-Fixes _)))
          (pure-Fixes none))))

found-Fixes :
    {A : Type 0} (o : Option Step) (f : Step → Run A) (m : Run A)
    → ((step : Step) → Fixes (f step))
    → Fixes m
    → Fixes (elim o [ some step ↦ f step | none ↦ m ])
found-Fixes none f m h k = k
found-Fixes (some step) f m h k = h step

win_with-Fixes : (side : ℕ) (p : Point) (qs : List Point) → Fixes (win_with side p qs)
unfolding win_with
win_with-Fixes side p [] = pure-Fixes none
win_with-Fixes side p (q ∷ qs) =
    bind-Fixes (win_pair-Fixes side p q)
      (λ found. found-Fixes found _ _ (λ step. pure-Fixes (some step)) (win_with-Fixes side p qs))

construct_win_step-Fixes : (ps : List Point) (side : ℕ) → Fixes (construct_win_step ps side)
unfolding construct_win_step
construct_win_step-Fixes [] side = pure-Fixes _
construct_win_step-Fixes (p ∷ ps) side =
    bind-Fixes (win_with-Fixes side p ps)
      (λ found. found-Fixes found _ _ (λ step. pure-Fixes step) (construct_win_step-Fixes ps side))

search_step-Fixes : (fuel : ℕ) (si_com si_per : Line) → Fixes (search_step fuel si_com si_per)
search_step-Fixes fuel si_com si_per = record {
  fixes = λ g.
      let same = search_step-SamePosition fuel si_com si_per g in
      λ i. (same.player i, same.turn i, same.color i);
}

pub computer_move-Fixes : (fuel : ℕ) → Fixes (Root.computer_move fuel)
unfolding Root.computer_move
computer_move-Fixes fuel = bind-Fixes (gets-Fixes (λ g. g.computer_color)) (λ color.
    bind-Fixes (safe-Fixes (get_all_line_infor-IsSafe color 0)) (λ si_com.
      bind-Fixes (safe-Fixes (get_all_line_infor-IsSafe (next color) 0)) (λ si_per.
        then-Fixes (record { fixes = λ g. refl })
          (bind-Fixes (gets-Fixes _) (λ strange.
            if-Fixes strange
              (bind-Fixes (gets-Fixes (λ g. con_strange_step g.board))
                (λ step. pure-Fixes (some step)))
              (if-Fixes (ltb 0 si_com.threat_num)
                (bind-Fixes (construct_win_step-Fixes si_com.threat_point color)
                  (λ step. pure-Fixes (some step)))
                (search_step-Fixes fuel si_com si_per)))))))
