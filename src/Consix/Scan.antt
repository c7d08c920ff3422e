-- ===== src/Consix/Scan.antt =====
-- search.cpp, the scan of one line of the board: `ValuateShape` and `AnalyzeLine`; Scan.Segment has
-- `CalSingleLineValue` and `AnalyzeLineSegID`. A maximal run of squares that `side` holds or that
-- are empty is a shape: `len` squares, and in `style` a bit for each one that `side` holds.
pub mod Segment
pub mod Local
pub mod Shape
pub mod Fuel
pub mod Value
use package.chess_set.Base.{
  ℕ, zero, suc, ◌+◌, ◌-◌, ◌*◌, ◌/◌, ◌%◌, ◌^◌, Bool, true, false, ◌&&◌, ◌||◌, not, List, [], ◌∷◌,
  ◌++◌, ◌⊎◌, inl, inr, if◌then◌else◌, ltb, leb, ◌==◌,
}
use package.chess_set.Base.Int.{ℤ, pos, ◌==ℤ◌}
use package.chess_set.Consix.State.{
  Angle, Point, Step, Line, Board, at, pair, no_line, empty, next, winlose, line_type_value,
}
use package.chess_set.Consix.Coord.{Pos, increase_dir, decrease_dir, inside, along, get_start_point}

-- `(n >> i) & 1`.
abbrev pub bit : ℕ → ℕ → Bool
bit n i = (n / 2 ^ i) % 2 == 1

-- `for (i = start; i < start + count; i++)` over a body that appends to a vector.
abbrev pub collect {ℓ} : {A : Type ℓ} → ℕ → ℕ → (ℕ → List A) → List A
collect zero start body = []
collect (suc count) start body = body start ++ collect count (suc start) body

-- The number of ones in the six lowest bits.
abbrev pub ones6 : ℕ → ℕ
ones6 t =
    (if bit t 0 then 1 else 0)
    + (if bit t 1 then 1 else 0)
    + (if bit t 2 then 1 else 0)
    + (if bit t 3 then 1 else 0)
    + (if bit t 4 then 1 else 0)
    + (if bit t 5 then 1 else 0)

-- The point `k` squares on from the start of a shape.
abbrev pub square : Angle → Pos → ℕ → Point
square angle cur k = let q = along angle k cur in at q.x q.y

-- `for (i = 1; i < 32; i++) if ((Style << i) < 0) break; Len = 32 - i - 1`: the sign of the
-- shifted 32-bit value is its bit 31.
unfoldable pub top_loop : ℕ → ℕ → ℕ → ℕ
top_loop zero i style = i
top_loop (suc count) i style =
    let rest = top_loop count (suc i) style in
    if leb (2 ^ 31) (style * 2 ^ i % 2 ^ 32) then i else rest

unfoldable pub shape_len : ℕ → ℕ
shape_len style = 32 - top_loop 31 1 style - 1

-- The windows of six squares with four or five stones: their empty squares are threat points. With
-- five stones there is one empty square, after which the source leaves its loop.
unfoldable pub window_points : Angle → Pos → ℕ → ℕ → List Point
window_points angle cur style i =
    let t = style / 2 ^ i % 64 in
    let num = ones6 t in
    if num == 5 || num == 4
    then collect 6 0 (λ j. if bit t j then [] else square angle cur (i + j) ∷ [])
    else []

module _ (pre_table : ℕ → ℕ) where
  -- `ThreatNum` of one shape, by its type.
  unfoldable pub shape_threats : ℕ → ℕ
  shape_threats id =
      if id == 9 || id == 10 || id == 12
      then 1
      else if id == 11 || id == 13
      then 2
      else if id == 14
      then 3
      else 0

  unfoldable pub valuate_shape : Pos → ℕ → Angle → ℕ → Line
  valuate_shape cur shape_index angle which =
      let style = shape_index + 64 in
      let len = shape_len style in
      let id = pre_table shape_index in
      let free = λ (i : ℕ). not (bit style i) in
      let one = λ (i : ℕ). pre_table (shape_index + 2 ^ i) in
      let two = λ (i j : ℕ). pre_table (shape_index + 2 ^ i + 2 ^ j) in
      let basic = record no_line { value = line_type_value id; threat_num = shape_threats id } in
      let threats = record basic {
        threat_point = collect (len - 5) 0 (window_points angle cur style);
      } in
      let single = λ (good : ℕ → Bool) (w : ℕ). collect len 0 (λ i.
        if free i && good (one i) && (which == w || which == 0)
        then square angle cur i ∷ []
        else []) in
      let double = λ (good : ℕ → Bool) (w : ℕ). collect len 0 (λ i.
        if free i && not (which == 2 || which == 3 || which == 6)
        then collect (len - suc i) (suc i) (λ j.
          if free j && good (two i j) && (which == w || which == 0)
          then pair (square angle cur i) (square angle cur j) ∷ []
          else [])
        else []) in
      let potential = record basic {
        big_poten_point = single (λ k. k == 11 || k == 13) 2;
        sma_poten_point = single (λ k. k == 9 || k == 10) 3;
        com_point = single (λ k. k == 5 && id == 2) 6;
        big_poten_step = double (λ k. (k == 11 || k == 13 || k == 14) && (id == 5 || id == 7)) 4;
        sma_poten_step = double (λ k. (k == 9 || k == 10 || k == 12) && (id == 3 || id == 4)) 5;
      } in
      if which == 7
      then basic
      else if leb 9 id && (which == 1 || which == 0)
      then threats
      else potential

-- The variables of the loop of `AnalyzeLine`; `acc` is `VL2`.
pub record Scan : Type 0 where
  pub here : Pos
  pub cur : Pos
  pub len : ℕ
  pub style : ℕ
  pub opp_side : Bool
  pub acc : Line

-- `VL2` with what one shape adds to it.
unfoldable pub add_shape : Line → Line → Line
add_shape sum shape = record sum {
  value = sum.value + shape.value;
  threat_num = sum.threat_num + shape.threat_num;
  threat_point = sum.threat_point ++ shape.threat_point;
  big_poten_point = sum.big_poten_point ++ shape.big_poten_point;
  sma_poten_point = sum.sma_poten_point ++ shape.sma_poten_point;
  big_poten_step = sum.big_poten_step ++ shape.big_poten_step;
  sma_poten_step = sum.sma_poten_step ++ shape.sma_poten_step;
  com_point = sum.com_point ++ shape.com_point;
}

-- The index of a shape in `PreTable`.
abbrev pub shape_index : ℕ → ℕ → ℕ
shape_index len style = 2 ^ len + style - 64

-- The loops that scan a line run at most 19 times.
abbrev pub scan_fuel : ℕ
scan_fuel = 20

abbrev pub scan_start : Pos → Scan
scan_start p = record { here = p; cur = p; len = 0; style = 0; opp_side = false; acc = no_line }

abbrev pub returned : Line ⊎ Line → Line
returned (inl l) = l
returned (inr l) = l

-- `if (Len > 5) { … }`: a shape that wins is returned at once (`inl`).
unfoldable pub end_shape : (ℕ → ℕ) → Angle → ℕ → Scan → Line ⊎ Line
end_shape pre_table angle which s =
    let shape = valuate_shape pre_table s.cur (shape_index s.len s.style) angle which in
    if ltb 5 s.len
    then if shape.value == winlose then inl shape else inr (add_shape s.acc shape)
    else inr s.acc

module _ (pre_table : ℕ → ℕ) (board : Board) (side : ℕ) (angle : Angle) (which : ℕ) where
  -- The body of the loop of `AnalyzeLine`.
  unfoldable pub scan_square : Scan → Line ⊎ Scan
  scan_square s =
      let cur' = if s.opp_side then s.here else s.cur in
      let there = increase_dir angle s.here in
      let here_s = record s { cur = cur'; opp_side = false } in
      let longer = record s { here = there; cur = cur'; opp_side = false; len = s.len + 1 } in
      let held = record s {
        here = there;
        cur = cur';
        opp_side = false;
        len = s.len + 1;
        style = s.style + 2 ^ s.len;
      } in
      let cut = λ (l : Line). record s {
        here = there;
        cur = cur';
        opp_side = true;
        len = 0;
        style = 0;
        acc = l;
      } in
      if board s.here.x s.here.y == empty
      then inr longer
      else if board s.here.x s.here.y == side
      then inr held
      else elim (end_shape pre_table angle which here_s) [ inl won ↦ inl won | inr l ↦ inr (cut l) ]

  unfoldable pub scan_loop : ℕ → Scan → Line ⊎ Scan
  scan_loop zero s = inr s
  scan_loop (suc fuel) s = elim (inside s.here) [
    | false ↦ inr s
    | true ↦ elim (scan_square s) [ inl won ↦ inl won | inr s' ↦ scan_loop fuel s' ]
  ]

  unfoldable pub analyze_line : Pos → Line
  analyze_line start = elim (scan_loop scan_fuel (scan_start start)) [
    | inl won ↦ won
    | inr s ↦ returned (end_shape pre_table angle which s)
  ]
