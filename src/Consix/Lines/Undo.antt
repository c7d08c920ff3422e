-- ===== src/Consix/Lines/Undo.antt =====
-- Lines that were kept aside before an update, and copied back after it, are as they were.
use chess_set.Base.{ℕ, Bool, true, false, ◌≡◌, refl, ◌∙◌}
use chess_set.Consix.State.{Line}
use chess_set.Consix.Lines.{copy_fields}
use chess_set.Consix.Lines.Copy.{copy_fields_over, copy_fields_through, copy_fields_same, copy_if}

-- `old` is the line before the update.
module _ (w : ℕ) (old : Line) where
  -- `l` differs from `old` only in what `which = w` copies.
  abbrev Mends : Line → Type 0
  Mends l = copy_fields w old l ≡ old

  -- `t` has what is copied from `old`.
  abbrev Keeps : Line → Type 0
  Keeps t = (l : Line) → Mends l → copy_fields w t l ≡ old

  update-Mends : (b : Bool) (x l : Line) → Mends l → Mends (copy_if w b x l)
  update-Mends true x l m = copy_fields_over w old x l ∙ m
  update-Mends false x l m = m

  copy-Keeps : (t : Line) → Keeps (copy_fields w old t)
  copy-Keeps t l m = copy_fields_through w old t l ∙ m

  backup-Keeps : (b : Bool) (t : Line) → Keeps t → Keeps (copy_if w b old t)
  backup-Keeps true t k = copy-Keeps t
  backup-Keeps false t k = k

  recover_old : (b : Bool) (t : Line) → Keeps t → copy_if w b t old ≡ old
  recover_old true t k = k old (copy_fields_same w old)
  recover_old false t k = refl

  updated : (x : Line) → Mends (copy_fields w x old)
  updated x = update-Mends true x old (copy_fields_same w old)

  -- The first of the recoveries that writes mends the line, and the later ones keep it.
  mend3 :
      (b2 b3 b4 : Bool) (k l : Line)
      → Keeps k
      → Mends l
      → copy_if w b4 k (copy_if w b3 k (copy_if w b2 k (copy_if w true k l))) ≡ old
  mend3 b2 b3 b4 k l keeps mends =
      rw (keeps l mends, recover_old b2 k keeps, recover_old b3 k keeps) (recover_old b4 k keeps)

  -- Four backups, any update, four recoveries.
  pub undo4 :
      (b1 b2 b3 b4 : Bool) (t x1 x2 x3 x4 : Line)
      → let kept = copy_if w b4 old (copy_if w b3 old (copy_if w b2 old (copy_if w b1 old t))) in
        let l = copy_if w b4 x4 (copy_if w b3 x3 (copy_if w b2 x2 (copy_if w b1 x1 old))) in
        copy_if w b4 kept (copy_if w b3 kept (copy_if w b2 kept (copy_if w b1 kept l))) ≡ old
  undo4 false false false false t x1 x2 x3 x4 = refl
  undo4 true b2 b3 b4 t x1 x2 x3 x4 =
      mend3 b2 b3 b4 _ _ (backup-Keeps b4 _ (backup-Keeps b3 _ (backup-Keeps b2 _ (copy-Keeps t))))
        (update-Mends b4 x4 _ (update-Mends b3 x3 _ (update-Mends b2 x2 _ (updated x1))))
  undo4 false true b3 b4 t x1 x2 x3 x4 =
      mend3 false b3 b4 _ _ (backup-Keeps b4 _ (backup-Keeps b3 _ (copy-Keeps t)))
        (update-Mends b4 x4 _ (update-Mends b3 x3 _ (updated x2)))
  undo4 false false true b4 t x1 x2 x3 x4 =
      mend3 false false b4 _ _ (backup-Keeps b4 _ (copy-Keeps t))
        (update-Mends b4 x4 _ (updated x3))
  undo4 false false false true t x1 x2 x3 x4 =
      mend3 false false false _ _ (copy-Keeps t) (updated x4)
