-- ===== src/Consix/Game/Quiet.antt =====
-- The scan of a line without stones.
use chess_set.Base.{
  ℕ, zero, suc, ◌+◌, ◌-◌, ◌^◌, ◌≤◌, ◌<◌, ◌≡◌, refl, ◌∙◌, ap, ap₂, inl, inr, Bool, true, false, ◌&&◌,
  ◌||◌, Bool-cases, List, [], ◌++◌, if◌then◌else◌, ltb, ◌==◌, ltb→lt, ≢→==, arith,
}
use chess_set.Base.Int.{ℤ, pos, ◌≤ℤ◌, ◌+ℤ◌, int_laws}
use chess_set.Consix.State.{Angle, Board, Point, Step, no_line, empty}
use chess_set.Consix.Coord.{Pos, increase_dir, inside}
use chess_set.Consix.Coord.Geometry.{OnBoard}
use chess_set.Consix.Scan.{
  collect, Scan, scan_start, shape_len, shape_threats, valuate_shape, shape_index, add_shape,
  end_shape, returned, scan_square, scan_loop, scan_fuel, analyze_line,
}
use chess_set.Consix.Scan.Shape.{shape_len-eq, pow_pos, pow_add}
use chess_set.Consix.Scan.Fuel.{lead, lead-increase_dir, lead_near, lead_start}
use chess_set.Consix.Scan.Local.{
  Near, OnBoard-Near, inside-OnBoard, increase_dir-Near, scan_loop_off, scan_loop_next,
}

-- The table of shapes gives a shape without stones the type 1, and one with a single stone a type
-- of at most 8, as for a board where one stone does not threaten.
pub record Quiet (table : ℕ → ℕ) : Type 0 where
  pub no_stone : (len : ℕ) → 6 ≤ len → len ≤ 19 → table (shape_index len 0) ≡ 1
  pub one_stone : (len i : ℕ) → 6 ≤ len → len ≤ 19 → i < len → table (shape_index len 0 + 2 ^ i) ≤ 8

collect_none :
    {A : Type 0} (count start : ℕ) (body : ℕ → List A)
    → ((i : ℕ) → start ≤ i → i < start + count → body i ≡ [])
    → collect count start body ≡ []
collect_none zero start body h = refl
collect_none (suc count) start body h =
    ap₂ ◌++◌ (h start (omega arith) (omega arith))
      (collect_none count (suc start) body (λ i lo hi. h i (omega arith) (omega arith)))

guarded :
    {A : Type 0} (a b c : Bool) (x : List A) → b ≡ false → (if a && b && c then x else []) ≡ []
guarded true b c x h = rw h refl
guarded false b c x h = refl

abbrev good_big : ℕ → Bool
good_big k = k == 11 || k == 13

abbrev good_small : ℕ → Bool
good_small k = k == 9 || k == 10

big_no : (k : ℕ) → k ≤ 8 → good_big k ≡ false
big_no k h = rw (≢→== k 11 (omega arith), ≢→== k 13 (omega arith)) refl

small_no : (k : ℕ) → k ≤ 8 → good_small k ≡ false
small_no k h = rw (≢→== k 9 (omega arith), ≢→== k 10 (omega arith)) refl

index_back : (len : ℕ) → 6 ≤ len → shape_index len 0 + 64 ≡ 2 ^ len + 0
index_back len h =
    let more = pow_add 6 (len - 6) in
    let one = pow_pos (len - 6) in
    let whole : 2 ^ (6 + (len - 6)) ≡ 2 ^ len = ap (λ k. 2 ^ k) (omega arith) in omega arith

nothing :
    (a b c : List Point) (d e : List Step)
    → a ≡ []
    → b ≡ []
    → d ≡ []
    → e ≡ []
    → c ≡ []
    → record no_line {
      big_poten_point = a;
      sma_poten_point = b;
      big_poten_step = d;
      sma_poten_step = e;
      com_point = c;
    }
      ≡ no_line
nothing a b c d e p q r s t = λ i. record no_line {
  big_poten_point = p i;
  sma_poten_point = q i;
  big_poten_step = r i;
  sma_poten_step = s i;
  com_point = t i;
}

and_false : (a b : Bool) → b ≡ false → (a && b) ≡ false
and_false true b h = h
and_false false b h = refl

-- No pair of stones counts on a shape of type 1.
no_pairs : (b : Bool) (x : List Step) → x ≡ [] → (if b then x else []) ≡ []
no_pairs true x h = h
no_pairs false x h = refl

module _ (table : ℕ → ℕ) (quiet : Quiet table) (angle : Angle) where
  -- A shape without stones is worth nothing.
  blank_shape :
      (cur : Pos) (len : ℕ)
      → 6 ≤ len
      → len ≤ 19
      → valuate_shape table cur (shape_index len 0) angle 0 ≡ no_line
  unfolding valuate_shape shape_threats
  blank_shape cur len lo hi =
      let size_of = shape_len (shape_index len 0 + 64) in
      rw (quiet.no_stone len lo hi) (
        nothing _ _ _ _ _
          (collect_none size_of 0 _ (λ i from upto. guarded _ _ _ _ (big_no _ (few i upto))))
          (collect_none size_of 0 _ (λ i from upto. guarded _ _ _ _ (small_no _ (few i upto))))
          (collect_none size_of 0 _ (λ i from upto. no_pairs _ _ (
            collect_none (size_of - suc i) (suc i) _
              (λ j from' upto'. guarded _ _ _ _ (and_false _ _ refl)))))
          (collect_none size_of 0 _ (λ i from upto. no_pairs _ _ (
            collect_none (size_of - suc i) (suc i) _
              (λ j from' upto'. guarded _ _ _ _ (and_false _ _ refl)))))
          (collect_none size_of 0 _ (λ i from upto. guarded _ _ _ _ (and_false _ _ refl))))
    where
      size : shape_len (shape_index len 0 + 64) ≡ len
      size = ap shape_len (index_back len lo) ∙ shape_len-eq len 0 (omega arith) (pow_pos len)

      few :
          (i : ℕ)
          → i < 0 + shape_len (shape_index len 0 + 64)
          → table (shape_index len 0 + 2 ^ i) ≤ 8
      few i h = quiet.one_stone len i lo hi (omega (arith, size))

-- A scan that has met no stone.
pub record Blank (angle : Angle) (s : Scan) : Type 0 where
  pub near : Near s.here
  pub style0 : s.style ≡ 0
  pub acc0 : s.acc ≡ no_line
  pub within : pos s.len ≤ℤ lead angle s.here

next_le : (n : ℕ) (a b : ℤ) → pos n ≤ℤ a → b ≡ a +ℤ pos 1 → pos (n + 1) ≤ℤ b
next_le n a b h e = omega int_laws

module _ (table : ℕ → ℕ) (board : Board) (side : ℕ) (angle : Angle) where
  scan_square-Blank :
      (s : Scan)
      → board s.here.x s.here.y ≡ empty
      → OnBoard s.here
      → Blank angle s
      → (s' : Scan) × (scan_square table board side angle 0 s ≡ inr s') × Blank angle s'
  unfolding scan_square
  scan_square-Blank s e o b = rw e (
    record s {
      here = increase_dir angle s.here;
      cur = if s.opp_side then s.here else s.cur;
      opp_side = false;
      len = s.len + 1;
    },
    refl,
    record {
      near = increase_dir-Near angle o;
      style0 = b.style0;
      acc0 = b.acc0;
      within = next_le s.len _ _ b.within (lead-increase_dir angle s.here);
    },
  )

  scan_loop-Blank :
      (fuel : ℕ) (s : Scan)
      → ((p : Pos) → OnBoard p → board p.x p.y ≡ empty)
      → Blank angle s
      → (s' : Scan) × (scan_loop table board side angle 0 fuel s ≡ inr s') × Blank angle s'
  unfolding scan_loop
  scan_loop-Blank zero s clear b = (s, refl, b)
  scan_loop-Blank (suc fuel) s clear b = elim (Bool-cases (inside s.here)) [
    | inr off ↦ (s, scan_loop_off table side angle 0 board fuel s off, b)
    | inl on ↦
        let o = inside-OnBoard b.near on in
        let (s1, step, b1) = scan_square-Blank s (clear s.here o) o b in
        let (s2, rest, b2) = scan_loop-Blank fuel s1 clear b1 in
        (s2, scan_loop_next table side angle 0 board fuel s s1 on step ∙ rest, b2)
  ]

  end_blank :
      (s : Scan)
      → Quiet table
      → s.style ≡ 0
      → s.acc ≡ no_line
      → s.len ≤ 19
      → returned (end_shape table angle 0 s) ≡ no_line
  unfolding end_shape add_shape
  end_blank s quiet z a l = elim (Bool-cases (ltb 5 s.len)) [
    | inr e ↦ rw e a
    | inl e ↦
        let shape = blank_shape table quiet angle s.cur s.len (ltb→lt 5 s.len e) l in
        rw (e, z, shape, a) refl
  ]

  -- The analysis of a line of a board without stones finds nothing.
  pub analyze_blank :
      (start : Pos)
      → Quiet table
      → ((p : Pos) → OnBoard p → board p.x p.y ≡ empty)
      → OnBoard start
      → analyze_line table board side angle 0 start ≡ no_line
  unfolding analyze_line
  analyze_blank start quiet clear o =
      let begin : Blank angle (scan_start start) = record {
        near = OnBoard-Near o;
        style0 = refl;
        acc0 = refl;
        within = lead_start angle o;
      } in
      let (s, run, b) = scan_loop-Blank scan_fuel (scan_start start) clear begin in
      let far = lead_near angle b.near in
      let some_way = b.within in
      rw (run, analyze_line) (end_blank s quiet b.style0 b.acc0 (short s.len _ some_way far))
    where
      short : (n : ℕ) (a : ℤ) → pos n ≤ℤ a → a ≤ℤ pos 19 → n ≤ 19
      short n a h k = omega int_laws
