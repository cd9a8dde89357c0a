-- ===== src/Agent/Loop/Bounds.antt =====
-- The loop of the agent comes to an end, within the cap on its turns.
use secure_claw.Base.{
  ℕ, zero, suc, ◌+◌, ◌≤◌, ◌<◌, ◌≡◌, refl, Bool, true, false, Option, none, some, arith, ltb, not,
  if_cases, if◌then◌else◌, ap, String,
}
use secure_claw.Agent.Turn.{TurnEnv, Turn}
use secure_claw.Agent.Loop.{
  LoopState, Ended, out_of_fuel, turn_end, after_stream, run_turn, cap_turns, count_turn,
  unless_thrown, loop,
}

module _ (env : TurnEnv) where
  turn_count-after_stream :
      (st : LoopState) (turn : Turn) (o : Option String)
      → (after_stream env st turn o).0.turn_count ≡ st.turn_count
  unfolding after_stream turn_end
  turn_count-after_stream st turn none = refl
  turn_count-after_stream st turn (some message) = refl

  turn_count-run_turn : (st : LoopState) → (run_turn env st).0.turn_count ≡ st.turn_count
  unfolding run_turn
  turn_count-run_turn st = turn_count-after_stream st _ _

  abbrev pub ran_out : Ended → Bool
  ran_out out_of_fuel = true
  ran_out _ = false

  abbrev pub Within : ℕ → LoopState × Ended → Type 0
  Within max_turns r = (ran_out r.1 ≡ false) × (r.0.turn_count ≤ suc max_turns)

  unless_thrown-Within :
      (max_turns : ℕ) (st : LoopState) (o : Option String) (rest : LoopState × Ended)
      → st.turn_count ≤ max_turns
      → Within max_turns rest
      → Within max_turns (unless_thrown env (st, o) rest)
  unfolding unless_thrown
  unless_thrown-Within max_turns st none rest h k = k
  unless_thrown-Within max_turns st (some message) rest h k = (refl, omega arith)

  -- With as much fuel as there are turns left, and one more, the loop comes to its end, and it
  -- has counted no more than one turn beyond the cap, which is the one that the cap stops.
  pub loop-Within :
      (max_turns fuel : ℕ) (st : LoopState)
      → st.turn_count ≤ max_turns
      → max_turns < fuel + st.turn_count
      → Within max_turns (loop env max_turns fuel st)
  unfolding loop cap_turns
  loop-Within max_turns zero st h k = absurd (omega arith)
  loop-Within max_turns (suc fuel) st h k =
      if_cases (Within max_turns) (not st.continue_loop) (λ stopped. (refl, omega arith))
        (λ going.
          if_cases (Within max_turns) (ltb max_turns (suc st.turn_count))
            (λ capped. (refl, omega arith))
            (λ within.
              let counted = turn_count-run_turn (count_turn env st) in
              unless_thrown-Within max_turns (run_turn env (count_turn env st)).0 _ _ (ground arith)
                (loop-Within max_turns fuel (run_turn env (count_turn env st)).0 (ground arith)
                  (ground arith))))

  same_branches {ℓ} :
      {A : Type ℓ} (b c : Bool) (x y : A) {z z' : A}
      → (b ≡ false → c ≡ false → z ≡ z')
      → (if b then x else if c then y else z) ≡ (if b then x else if c then y else z')
  same_branches true c x y h = refl
  same_branches false true x y h = refl
  same_branches false false x y h = h refl refl

  -- The result does not depend on the fuel, once that is enough.
  pub loop_ignores_fuel :
      (max_turns fuel fuel' : ℕ) (st : LoopState)
      → st.turn_count ≤ max_turns
      → max_turns < fuel + st.turn_count
      → max_turns < fuel' + st.turn_count
      → loop env max_turns fuel st ≡ loop env max_turns fuel' st
  unfolding loop
  loop_ignores_fuel max_turns zero fuel' st h k k' = absurd (omega arith)
  loop_ignores_fuel max_turns (suc fuel) zero st h k k' = absurd (omega arith)
  loop_ignores_fuel max_turns (suc fuel) (suc fuel') st h k k' =
      same_branches (not st.continue_loop) (ltb max_turns (suc st.turn_count)) _ _ (λ going within.
        let counted = turn_count-run_turn (count_turn env st) in
        ap (unless_thrown env (run_turn env (count_turn env st))) (
          loop_ignores_fuel max_turns fuel fuel' (run_turn env (count_turn env st)).0 (ground arith)
            (ground arith) (ground arith)))
