-- ===== src/Consix/Search/Agree.antt =====
-- Actions that give the same on all states whose depths are within a limit, and the levels of the
-- search as such actions: they are the same when the calls of the next level are.
use chess_set.Base.{
  ℕ, ◌≤◌, Bool, true, false, ◌||◌, not, ◌≡◌, refl, sym, ap, ◌∙◌, List, [], ◌∷◌, if◌then◌else◌, ltb,
  leb, subst,
}
use chess_set.Base.Int.{ℤ, pos, ◌+ℤ◌, ◌-ℤ◌, ltb_ℤ}
use chess_set.Consix.State.{Step, Line, Lines, Search, next, threat}
use chess_set.Consix.Move.{make_move, back_move, update_board}
use chess_set.Consix.Run.{Run, ◌>>=◌, pure, gets, new_lines}
use chess_set.Consix.Run.Keeps.{Keeps, IsSafe, Anywhere}
use chess_set.Consix.Threats.Restored.{get_all_line_infor-IsSafe}
use chess_set.Consix.Search.Keeps.{
  try_step-IsSafe, move_list-IsSafe, con_search-IsSafe, max_loop-IsSafe, min_loop-IsSafe,
}
use chess_set.Consix.Search.{
  minus, try_step, tried_before, max_loop, min_loop, max_expand, min_expand, max_level, min_level,
}

-- Both depths of the side that the computer plays are at most `limit`.
pub record Within (limit : ℕ) (g : Search) : Type 0 where
  pub max_within : g.max_depth g.computer_color ≤ limit
  pub large_within : g.large_depth g.computer_color ≤ limit

module _ (limit : ℕ) where
  -- The two actions give the same on all states whose depths are within the limit.
  abbrev pub Agree : {A : Type 0} → Run A → Run A → Type 0
  Agree m k = (g : Search) → Within limit g → m g ≡ k g

  Keeps-Within : (g h : Search) → Keeps Anywhere g h → Within limit g → Within limit h
  Keeps-Within g h k w = record {
    max_within =
        subst (λ n. n ≤ limit) (sym (ap (λ (t : Search). t.max_depth t.computer_color) k.rest))
          w.max_within;
    large_within =
        subst (λ n. n ≤ limit) (sym (ap (λ (t : Search). t.large_depth t.computer_color) k.rest))
          w.large_within;
  }

  pub safe-Within :
      {A : Type 0} {m : Run A}
      → IsSafe Anywhere m
      → (g : Search) → Within limit g
      → Within limit (m g).1
  safe-Within {A} {m} h g w = Keeps-Within g (m g).1 (h.keeps g (λ x y e. tt)) w

  pub after :
      {A B : Type 0} {m : Run A} {f k : A → Run B}
      → IsSafe Anywhere m
      → ((a : A) → Agree (f a) (k a))
      → Agree (m >>= f) (m >>= k)
  unfolding ◌>>=◌
  after {A} {B} {m} {f} {k} h e g w = e (m g).0 (m g).1 (safe-Within h g w)

  pub first :
      {A B : Type 0} {m l : Run A} {f k : A → Run B}
      → Agree m l
      → IsSafe Anywhere m
      → ((a : A) → Agree (f a) (k a))
      → Agree (m >>= f) (l >>= k)
  unfolding ◌>>=◌
  first {A} {B} {m} {l} {f} {k} d h e g w =
      e (m g).0 (m g).1 (safe-Within h g w) ∙ ap (λ (r : A × Search). k r.0 r.1) (d g w)

  pub read :
      {A B : Type 0} (v : Search → A) (f k : A → Run B)
      → ((g : Search) → Within limit g → f (v g) g ≡ k (v g) g)
      → Agree (gets v >>= f) (gets v >>= k)
  unfolding ◌>>=◌ gets
  read v f k e g w = e g w

  pub either :
      {A : Type 0} (c : Bool) {m l m' l' : Run A}
      → Agree m m'
      → Agree l l'
      → Agree (if c then m else l) (if c then m' else l')
  either true d e = d
  either false d e = e

  pub same : {A : Type 0} (m : Run A) → Agree m m
  same m g w = refl

  try_step-Agree :
      (step : Step) (side : ℕ) (temp : Lines) {m l : Run ℤ}
      → Agree m l
      → Agree (try_step step side temp m) (try_step step side temp l)
  unfolding try_step make_move update_board
  try_step-Agree step side temp {m} {l} e g w =
      ap (λ (r : ℤ × Search). (r.0, back_move r.1 step side (make_move g step side temp).1))
        (e (make_move g step side temp).0
          (record { max_within = w.max_within; large_within = w.large_within }))

  module _ {d e : ℤ → ℤ → Run ℤ} (agree : (a b : ℤ) → Agree (d a b) (e a b))
      (safe : (a b : ℤ) → IsSafe Anywhere (d a b)) where
    max_loop-Agree :
        (side large : ℕ) (temp : Lines) (alpha beta best : ℤ) (ms : List Step)
        → Agree
            (max_loop side large temp d alpha beta best ms)
            (max_loop side large temp e alpha beta best ms)
    unfolding max_loop
    max_loop-Agree side large temp alpha beta best [] = same _
    max_loop-Agree side large temp alpha beta best (step ∷ ms) =
        first (try_step-Agree step side temp (agree alpha beta))
          (try_step-IsSafe step side temp (safe alpha beta))
          (λ value.
            let beta' : ℤ = if ltb_ℤ value beta then value else beta in
            let best' : ℤ = if ltb_ℤ value best then value else best in
            either
              (ltb_ℤ value alpha || not (ltb_ℤ (minus (pos threat -ℤ pos large +ℤ pos 1)) beta'))
              (same _)
              (first (max_loop-Agree side large temp alpha beta' best' ms)
                (max_loop-IsSafe side large temp safe alpha beta' best' ms)
                (λ t. same (pure (tried_before step value t)))))

    min_loop-Agree :
        (side large : ℕ) (temp : Lines) (alpha beta best : ℤ) (ms : List Step)
        → Agree
            (min_loop side large temp d alpha beta best ms)
            (min_loop side large temp e alpha beta best ms)
    unfolding min_loop
    min_loop-Agree side large temp alpha beta best [] = same _
    min_loop-Agree side large temp alpha beta best (step ∷ ms) =
        first (try_step-Agree step side temp (agree alpha beta))
          (try_step-IsSafe step side temp (safe alpha beta))
          (λ value.
            let alpha' : ℤ = if ltb_ℤ alpha value then value else alpha in
            let best' : ℤ = if ltb_ℤ best value then value else best in
            either (ltb_ℤ beta value || not (ltb_ℤ alpha' (pos threat -ℤ pos large +ℤ pos 1)))
              (same _)
              (first (min_loop-Agree side large temp alpha' beta best' ms)
                (min_loop-IsSafe side large temp safe alpha' beta best' ms)
                (λ t. same (pure (tried_before step value t)))))

    max_expand-Agree :
        (alpha beta : ℤ) (depth : ℕ) (si_com si_per : Line) (one two : Bool)
        → Agree
            (max_expand d alpha beta depth si_com si_per one two)
            (max_expand e alpha beta depth si_com si_per one two)
    unfolding max_expand
    max_expand-Agree alpha beta depth si_com si_per one two =
        read (λ g. g.computer_color) _ _
          (λ g w.
            let color = g.computer_color in
            read (λ g. g.large_depth g.computer_color) _ _
              (λ g w.
                after (move_list-IsSafe true depth si_per si_com one two)
                  (λ ms.
                    first
                      (max_loop-Agree (next color) (g.large_depth g.computer_color) new_lines alpha
                        beta (pos threat) ms)
                      (max_loop-IsSafe (next color) (g.large_depth g.computer_color) new_lines safe
                        alpha beta (pos threat) ms)
                      (λ t. same _))
                  g w)
              g w)

    min_expand-Agree :
        (alpha beta : ℤ) (depth : ℕ) (si_com si_per : Line) (one two : Bool)
        → Agree
            (min_expand d alpha beta depth si_com si_per one two)
            (min_expand e alpha beta depth si_com si_per one two)
    unfolding min_expand
    min_expand-Agree alpha beta depth si_com si_per one two =
        read (λ g. g.computer_color) _ _
          (λ g w.
            let color = g.computer_color in
            read (λ g. g.large_depth g.computer_color) _ _
              (λ g w.
                after (move_list-IsSafe false depth si_com si_per one two)
                  (λ ms.
                    first
                      (min_loop-Agree color (g.large_depth g.computer_color) new_lines alpha beta
                        (minus (pos threat)) ms)
                      (min_loop-IsSafe color (g.large_depth g.computer_color) new_lines safe alpha
                        beta (minus (pos threat)) ms)
                      (λ t. same _))
                  g w)
              g w)

    pub max_level-Agree :
        (alpha beta : ℤ) (depth : ℕ)
        → Agree (max_level d alpha beta depth) (max_level e alpha beta depth)
    unfolding max_level
    max_level-Agree alpha beta depth =
        read (λ g. g.computer_color) _ _
          (λ g w.
            let color = g.computer_color in
            after (get_all_line_infor-IsSafe color 0)
              (λ si_com. after (get_all_line_infor-IsSafe (next color) 0) (λ si_per.
                read (λ g. g.max_depth g.computer_color) _ _
                  (λ g w.
                    either (ltb 0 si_per.threat_num) (same _)
                      (either (ltb 2 si_com.threat_num) (same _) (
                        either (leb (g.max_depth g.computer_color) depth)
                          (after (con_search-IsSafe depth si_per si_com) (λ go.
                            either go.0 (max_expand-Agree alpha beta depth si_com si_per go.1 go.2)
                              (same _)))
                          (max_expand-Agree alpha beta depth si_com si_per false false)))
                      g w)))
              g w)

    pub min_level-Agree :
        (alpha beta : ℤ) (depth : ℕ)
        → Agree (min_level d alpha beta depth) (min_level e alpha beta depth)
    unfolding min_level
    min_level-Agree alpha beta depth =
        read (λ g. g.computer_color) _ _
          (λ g w.
            let color = g.computer_color in
            after (get_all_line_infor-IsSafe color 0)
              (λ si_com. after (get_all_line_infor-IsSafe (next color) 0) (λ si_per.
                read (λ g. g.max_depth g.computer_color) _ _
                  (λ g w.
                    either (ltb 0 si_com.threat_num) (same _)
                      (either (ltb 2 si_per.threat_num) (same _) (
                        either (leb (g.max_depth g.computer_color) depth)
                          (after (con_search-IsSafe depth si_com si_per) (λ go.
                            either go.0 (min_expand-Agree alpha beta depth si_com si_per go.1 go.2)
                              (same _)))
                          (min_expand-Agree alpha beta depth si_com si_per false false)))
                      g w)))
              g w)
