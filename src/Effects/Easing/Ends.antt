-- ===== src/Effects/Easing/Ends.antt =====
-- Where the easing equations (effects.core.js) start and end.
use sbt_example.Common.{◌≡◌, ◌≢◌, sym, arith, List, [], ◌∷◌, ◌++◌, map, All, All-append}
use sbt_example.Js.Number.{Numbers, ◌+◌, neg, whole}
use sbt_example.Js.Number.Laws.{NumberLaws}
use sbt_example.Effects.Easing.{
  swing, ease_in_quad, ease_out_quad, ease_in_out_quad, ease_in_cubic, ease_out_cubic,
  ease_in_out_cubic, ease_in_quart, ease_out_quart, ease_in_out_quart, ease_in_quint,
  ease_out_quint, ease_in_out_quint, ease_in_expo, ease_out_expo, ease_in_out_expo, ease_in_circ,
  ease_out_circ, ease_in_out_circ,
}
use sbt_example.Effects.Easing.Springs.{ease_in_elastic, ease_out_elastic, ease_in_out_elastic}

module _ (A : Type 0) ⦃n : Numbers A⦄ where
  abbrev pub powers : List (A → A → A → A → A)
  powers =
      swing ∷ ease_in_quad ∷ ease_out_quad ∷ ease_in_out_quad ∷ ease_in_cubic ∷ ease_out_cubic
      ∷ ease_in_out_cubic ∷ ease_in_quart ∷ ease_out_quart ∷ ease_in_out_quart ∷ ease_in_quint
      ∷ ease_out_quint ∷ ease_in_out_quint ∷ []

  abbrev pub others : List (A → A → A → A → A)
  others =
      ease_in_expo ∷ ease_out_expo ∷ ease_in_out_expo ∷ ease_in_circ ∷ ease_out_circ
      ∷ ease_in_out_circ ∷ ease_in_elastic ∷ ease_out_elastic ∷ ease_in_out_elastic ∷ []

module _ {A : Type 0} ⦃n : Numbers A⦄ (laws : NumberLaws A) (b c d : A) (hb : laws.IsOrdinary b)
    (hc : laws.IsOrdinary c) (hd : laws.IsOrdinary d) (moves : d ≢ whole 0) where
  powers-start : map (λ ease. ease (whole 0) b c d) (powers A) ≡ map (λ ease. b) (powers A)
  unfolding swing ease_in_quad ease_out_quad ease_in_out_quad ease_in_cubic ease_out_cubic
      ease_in_out_cubic ease_in_quart ease_out_quart ease_in_out_quart ease_in_quint ease_out_quint
      ease_in_out_quint
  powers-start =
      let zero_ordinary = laws.whole-IsOrdinary 0 (omega arith) in
      let one_ordinary = laws.whole-IsOrdinary 1 (omega arith) in
      simp (
        laws.zero_div d hd moves,
        laws.zero_div_half d hd moves,
        laws.zero_lt_one,
        laws.zero_sub,
        laws.mul_zero c hc,
        laws.mul_zero (neg c) (laws.neg-IsOrdinary c hc),
        laws.half_zero c hc,
        laws.zero_mul (whole 0) zero_ordinary,
        laws.zero_mul (neg (whole 2))
            (laws.neg-IsOrdinary _ (laws.whole-IsOrdinary 2 (omega arith))),
        laws.neg_mul_neg,
        laws.one_mul,
        laws.neg_add (whole 1) one_ordinary,
        laws.sub_self (whole 1) one_ordinary,
        laws.zero_add,
      )

  powers-end : map (λ ease. ease d b c d) (powers A) ≡ map (λ ease. c + b) (powers A)
  unfolding swing ease_in_quad ease_out_quad ease_in_out_quad ease_in_cubic ease_out_cubic
      ease_in_out_cubic ease_in_quart ease_out_quart ease_in_out_quart ease_in_quint ease_out_quint
      ease_in_out_quint
  powers-end =
      let zero_ordinary = laws.whole-IsOrdinary 0 (omega arith) in
      let one_ordinary = laws.whole-IsOrdinary 1 (omega arith) in
      let two_ordinary = laws.whole-IsOrdinary 2 (omega arith) in
      simp (
        laws.div_self d hd moves,
        laws.div_half d hd moves,
        laws.two_lt_one,
        laws.zero_sub,
        laws.mul_one,
        laws.one_sub_two,
        laws.two_sub_one,
        laws.neg_one_sub_one,
        laws.zero_mul (whole 0) zero_ordinary,
        laws.neg_mul_neg,
        laws.neg_div,
        laws.half_two c hc,
        laws.one_mul,
        laws.sub_self (whole 1) one_ordinary,
        laws.sub_self (whole 2) two_ordinary,
        laws.zero_add,
      )

  others-start : map (λ ease. ease (whole 0) b c d) (others A) ≡ map (λ ease. b) (others A)
  unfolding ease_in_expo ease_out_expo ease_in_out_expo ease_in_circ ease_out_circ ease_in_out_circ
      ease_in_elastic ease_out_elastic ease_in_out_elastic
  others-start =
      let zero_ordinary = laws.whole-IsOrdinary 0 (omega arith) in
      let one_ordinary = laws.whole-IsOrdinary 1 (omega arith) in
      simp (
        laws.equal_self (whole 0) zero_ordinary,
        laws.equal_ne (whole 0) d zero_ordinary hd (λ e. moves (sym e)),
        laws.zero_div d hd moves,
        laws.zero_div_half d hd moves,
        laws.zero_lt_one,
        laws.zero_sub,
        laws.mul_zero c hc,
        laws.mul_zero (neg c) (laws.neg-IsOrdinary c hc),
        laws.half_zero (neg c) (laws.neg-IsOrdinary c hc),
        laws.mul_zero (neg (whole 10))
            (laws.neg-IsOrdinary _ (laws.whole-IsOrdinary 10 (omega arith))),
        laws.zero_mul (whole 0) zero_ordinary,
        laws.sub_zero,
        laws.neg_mul_neg,
        laws.one_mul,
        laws.neg_add (whole 1) one_ordinary,
        laws.pow_zero,
        laws.sqrt_zero,
        laws.sqrt_one,
        laws.sub_self (whole 1) one_ordinary,
        laws.zero_add,
      )

  others-end : map (λ ease. ease d b c d) (others A) ≡ map (λ ease. c + b) (others A)
  unfolding ease_in_expo ease_out_expo ease_in_out_expo ease_in_circ ease_out_circ ease_in_out_circ
      ease_in_elastic ease_out_elastic ease_in_out_elastic
  others-end =
      let zero_ordinary = laws.whole-IsOrdinary 0 (omega arith) in
      let one_ordinary = laws.whole-IsOrdinary 1 (omega arith) in
      let two_ordinary = laws.whole-IsOrdinary 2 (omega arith) in
      simp (
        laws.equal_self d hd,
        laws.equal_self (whole 1) one_ordinary,
        laws.equal_self (whole 2) two_ordinary,
        laws.equal_ne d (whole 0) hd zero_ordinary moves,
        laws.div_self d hd moves,
        laws.div_half d hd moves,
        laws.two_lt_one,
        laws.zero_sub,
        laws.mul_one,
        laws.mul_zero (whole 10) (laws.whole-IsOrdinary 10 (omega arith)),
        laws.zero_mul (whole 0) zero_ordinary,
        laws.sub_zero,
        laws.one_add_one,
        laws.neg_mul_neg,
        laws.neg_div,
        laws.half_two c hc,
        laws.pow_zero,
        laws.sqrt_zero,
        laws.sqrt_one,
        laws.sub_self (whole 1) one_ordinary,
        laws.sub_self (whole 2) two_ordinary,
        laws.add_comm b c,
      )

  abbrev HasEnds : (A → A → A → A → A) → Type 0
  HasEnds ease = (ease (whole 0) b c d ≡ b) × (ease d b c d ≡ c + b)

  All-HasEnds :
      (curves : List (A → A → A → A → A))
      → map (λ ease. ease (whole 0) b c d) curves ≡ map (λ ease. b) curves
      → map (λ ease. ease d b c d) curves ≡ map (λ ease. c + b) curves
      → All HasEnds curves
  All-HasEnds [] starts ends = tt
  All-HasEnds (ease ∷ curves) starts ends =
      let starts' : map (λ ease. ease (whole 0) b c d) curves ≡ map (λ ease. b) curves = cc in
      let ends' : map (λ ease. ease d b c d) curves ≡ map (λ ease. c + b) curves = cc in
      ((cc, cc), All-HasEnds curves starts' ends')

  -- For ordinary numbers and a duration that is not zero, an animated property has its first value
  -- at the time 0 and its last one at the end of the duration. This holds of swing and of the
  -- quadratic, cubic, quartic, quintic, exponential, circular and elastic equations.
  pub eases-ends :
      All (λ ease. (ease (whole 0) b c d ≡ b) × (ease d b c d ≡ c + b)) (powers A ++ others A)
  eases-ends =
      All-append HasEnds (powers A) (others A) (All-HasEnds (powers A) powers-start powers-end)
        (All-HasEnds (others A) others-start others-end)
