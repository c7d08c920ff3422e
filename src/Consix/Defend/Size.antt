-- ===== src/Consix/Defend/Size.antt =====
-- How many steps the constructed lists have at most.
use chess_set.Base.{
  ℕ, ◌+◌, ◌*◌, ◌/◌, ◌≤◌, ◌<◌, Bool, true, false, ◌&&◌, ◌≡◌, refl, ◌∙◌, List, if◌then◌else◌, ltb,
  leb, length, inl, inr, Bool-cases, arith, if_false, le→ltb, lt→leb, ltb→le,
}
use chess_set.Consix.State.{Step, Line, Search}
use chess_set.Consix.Candidates.{sort, com_step_value, zero_step}
use chess_set.Consix.Candidates.Order.{length-sort, length-resize}
use chess_set.Consix.Run.{◌>>=◌, pure}
use chess_set.Consix.Run.Returns.{Returns, then-Returns, pure-Returns, bind-Returns}
use chess_set.Consix.Defend.{narrow, cut_list, best_steps, defend_for_single_threat}

abbrev pub AtMost : ℕ → List Step → Type 0
AtMost n ms = length ms ≤ n

-- A narrowed list has a step, and at most one more than wanted.
pub narrow-AtMost : (most : ℕ) (ms : List Step) → AtMost (most + 1) (narrow most ms)
unfolding narrow
narrow-AtMost most ms = elim (Bool-cases (ltb most (length ms * 4 / 5))) [
  | inl e ↦ rw e (omega (arith, length-resize zero_step most ms))
  | inr e ↦ rw e (
      omega (
        arith,
        length-resize zero_step (length ms * 4 / 5 + 1) ms,
        ltb→le most (length ms * 4 / 5) e,
      ))
]

cut_list-short :
    (low high : ℕ) (ms : List Step) → length ms ≤ low → low < high → cut_list low high ms ≡ ms
unfolding cut_list
cut_list-short low high ms h k =
    if_false (leb high (length ms)) _ _ (lt→leb high (length ms) (omega arith))
    ∙ if_false (ltb low (length ms) && ltb (length ms) high) _ ms
        (rw (le→ltb low (length ms) h) refl)

pub best_steps-AtMost :
    (low high from most side : ℕ) (ms : List Step)
    → most ≤ low
    → low < high
    → most < from
    → Returns (AtMost most) (best_steps low high from most side ms)
unfolding best_steps
best_steps-AtMost low high from most side ms h k l = elim (Bool-cases (ltb most (length ms))) [
  | inl e ↦ bind-Returns _ (λ adjusted.
      pure-Returns _
        (rw e (omega (arith, length-resize zero_step most (sort com_step_value adjusted)))))
  | inr e ↦
      let small : length ms ≤ most = ltb→le most (length ms) e in
      let short : length (sort com_step_value (cut_list low high ms)) ≤ most =
        rw (cut_list-short low high ms (omega arith) k)
          (omega (arith, length-sort com_step_value ms)) in
      rw (e, lt→leb from (length ms) (omega arith)) (returned (cut_list low high ms) short)
]
  where
    returned :
        {most : ℕ} (cut : List Step)
        → length (sort com_step_value cut) ≤ most
        → Returns (AtMost most) (pure cut >>= λ adjusted. pure (sort com_step_value adjusted))
    returned cut h =
        then-Returns {R = λ ms. ms ≡ cut} (pure-Returns cut refl) (λ ms e. pure-Returns _ (rw e h))

-- `DefendForSingleThreat` returns at most 20 steps, at most 4 in a search for two threats and at most
-- 5 in a search for one.
pub defend_for_single_threat-AtMost :
    (si1 si2 : Line) (con_search1 con_search2 : Bool) (g : Search)
    → length (defend_for_single_threat si1 si2 con_search1 con_search2 g).0
      ≤ (if con_search1 then 4 else if con_search2 then 5 else 20)
unfolding defend_for_single_threat
defend_for_single_threat-AtMost si1 si2 con_search1 con_search2 g =
    (sizes con_search1 con_search2).result g
  where
    sizes :
        (c d : Bool)
        → Returns
            (AtMost (if c then 4 else if d then 5 else 20))
            (defend_for_single_threat si1 si2 c d)
    sizes true d =
        bind-Returns _ (λ found. bind-Returns _ (λ all. pure-Returns _ (narrow-AtMost 3 _)))
    sizes false true =
        bind-Returns _ (λ found. bind-Returns _ (λ all. pure-Returns _ (narrow-AtMost 4 _)))
    sizes false false = bind-Returns _ (λ found.
        bind-Returns _ (λ all.
          best_steps-AtMost 30 60 30 20 si1.side _ (omega arith) (omega arith) (omega arith)))
