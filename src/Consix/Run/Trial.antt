-- ===== src/Consix/Run/Trial.antt =====
-- `trial` gives back the table of lines: the fields that an update writes are among those that were
-- kept aside, also where the two updates copy different fields.
use chess_set.Base.{ℕ, Bool, true, false, ◌≡◌, refl, ap, ◌∙◌, fun_ext, leb, if◌then◌else◌}
use chess_set.Base.Int.{ℤ}
use chess_set.Consix.State.{Point, Line, Lines, Board, Search, put, empty}
use chess_set.Consix.Lines.{copy_fields, backup_line, recover_line, update_line_for_cross}
use chess_set.Consix.Lines.Copy.{
  backup_line_at, recover_line_at, update_line_for_cross_at, reaches, copy_if, copy_fields_over,
  copy_fields_through, copy_fields_same,
}
use chess_set.Consix.Move.{put_stone, cross, recover}
use chess_set.Consix.Run.{Run, ◌>>=◌, ◌>>◌, pure, gets, place, update_cross, recover_cross, trial}
use chess_set.Consix.Run.Keeps.{Keeps, IsSafe, Allowed, put-Emptied, put-Within}

abbrev pick {ℓ} : {A : Type ℓ} → Bool → A → A → A
pick b x y = if b then x else y

-- A field: two copies aside, two updates, two recoveries.
pick_undo {ℓ} :
    {A : Type ℓ} (c d : Bool) (old t x y : A)
    → let kept = pick d old (pick c old t) in
      pick d kept (pick c kept (pick d y (pick c x old))) ≡ old
pick_undo true true old t x y = refl
pick_undo true false old t x y = refl
pick_undo false true old t x y = refl
pick_undo false false old t x y = refl

fields_undo :
    (v w : ℕ) (old t x y : Line)
    → let kept = copy_fields w old (copy_fields v old t) in
      copy_fields w kept (copy_fields v kept (copy_fields w y (copy_fields v x old))) ≡ old
unfolding copy_fields
fields_undo v w old t x y = λ i. record old {
  threat_point =
      pick_undo (leb v 1) (leb w 1) old.threat_point t.threat_point x.threat_point y.threat_point i;
  big_poten_point =
      pick_undo (leb v 2) (leb w 2) old.big_poten_point t.big_poten_point x.big_poten_point
        y.big_poten_point i;
  sma_poten_point =
      pick_undo (leb v 3) (leb w 3) old.sma_poten_point t.sma_poten_point x.sma_poten_point
        y.sma_poten_point i;
  big_poten_step =
      pick_undo (leb v 4) (leb w 4) old.big_poten_step t.big_poten_step x.big_poten_step
        y.big_poten_step i;
  sma_poten_step =
      pick_undo (leb v 5) (leb w 5) old.sma_poten_step t.sma_poten_step x.sma_poten_step
        y.sma_poten_step i;
  com_point = pick_undo (leb v 6) (leb w 6) old.com_point t.com_point x.com_point y.com_point i;
}

-- One field set on its own: keep, update, recover.
alone : (w : ℕ) (old t x : Line) → copy_fields w (copy_fields w old t) (copy_fields w x old) ≡ old
alone w old t x =
    copy_fields_through w old t (copy_fields w x old)
    ∙ copy_fields_over w old x old
    ∙ copy_fields_same w old

undo2 :
    (v w : ℕ) (b c : Bool) (old t x y : Line)
    → let kept = copy_if w c old (copy_if v b old t) in
      copy_if w c kept (copy_if v b kept (copy_if w c y (copy_if v b x old))) ≡ old
undo2 v w true true old t x y = fields_undo v w old t x y
undo2 v w true false old t x y = alone v old t x
undo2 v w false true old t x y = alone w old t y
undo2 v w false false old t x y = refl

-- The lines after two copies aside, two updates on any board, and two recoveries.
module _ (pre_table : ℕ → ℕ) (board : Board) (p : Point) (s1 w1 s2 w2 : ℕ) (info temp : Lines) where
  kept : Lines
  kept = backup_line p info (backup_line p info temp s1 w1) s2 w2

  analysed : Lines
  analysed =
      update_line_for_cross pre_table board p s2 w2
        (update_line_for_cross pre_table board p s1 w1 info)

  recovered : recover_line p (recover_line p analysed kept s1 w1) kept s2 w2 ≡ info
  unfolding kept analysed
  recovered = fun_ext λ s. fun_ext λ id.
      simp (recover_line_at, backup_line_at, update_line_for_cross_at)
        (undo2 w1 w2 (reaches s1 p s id) (reaches s2 p s id) (info s id) (temp s id) _ _)

module _ (P : ℤ → ℤ → Type 0) {A : Type 0} {look : Run A} where
  -- What is looked at on trial leaves the state as it was, when the look itself does.
  pub trial-IsSafe :
      (p : Point) (stone s1 w1 s2 w2 : ℕ) (temp : Lines)
      → Allowed P p
      → IsSafe P look
      → IsSafe P (trial p stone s1 w1 s2 w2 temp look)
  unfolding trial ◌>>=◌ ◌>>◌ place pure gets update_cross recover_cross kept analysed
  trial-IsSafe p stone s1 w1 s2 w2 temp a h = record {
    keeps = λ g v.
        let start : Search = cross (cross (put_stone g p stone) p s1 w1) p s2 w2 in
        let k : Keeps P start (look start).1 = h.keeps start (put-Within P p stone g.board a v) in
        let aside : Lines =
          backup_line p g.line_info (backup_line p g.line_info temp s1 w1) s2 w2 in
        record {
          board = put-Emptied P p stone g.board (look start).1.board a k.board;
          rest =
              ap
                (λ (t : Search).
                  recover (recover (put_stone t p empty) p aside s1 w1) p aside s2 w2)
                k.rest
              ∙ (λ i. record g {
                board = put (look start).1.board p.x p.y empty;
                temp_hash_table = (look start).1.temp_hash_table;
                hash_list = (look start).1.hash_list;
                line_info =
                    recovered g.pre_table (put g.board p.x p.y stone) p s1 w1 s2 w2 g.line_info temp
                      i;
              });
        };
  }
