-- ===== src/Effects/Easing.antt =====
-- effects.core.js: the easing equations. Each gives the value of an animated property at the time
-- `t` of the duration `d`, where it starts at `b` and changes by `c`. The first argument, which
-- none of them reads, is left out.
pub mod Springs
pub mod Ends
mod Tests
use sbt_example.Common.{ℕ, Bool, Option, none, some, if◌then◌else◌, Str, units, same}
use sbt_example.Js.Number.{Numbers, ◌+◌, ◌-◌, ◌*◌, ◌/◌, ◌<◌, ◌==◌, neg, whole, decimal}

module _ {A : Type 0} ⦃n : Numbers A⦄ where
  unfoldable pub ease_in_quad : A → A → A → A → A
  ease_in_quad t b c d = let t = t / d in c * t * t + b

  unfoldable pub ease_out_quad : A → A → A → A → A
  ease_out_quad t b c d = let t = t / d in neg c * t * (t - whole 2) + b

  -- `swing`, with the name that the file gives to `def`.
  unfoldable pub swing : A → A → A → A → A
  swing = ease_out_quad

  unfoldable pub ease_in_out_quad : A → A → A → A → A
  ease_in_out_quad t b c d =
      let t = t / (d / whole 2) in
      if t < whole 1
      then c / whole 2 * t * t + b
      else let t = t - whole 1 in neg c / whole 2 * (t * (t - whole 2) - whole 1) + b

  unfoldable pub ease_in_cubic : A → A → A → A → A
  ease_in_cubic t b c d = let t = t / d in c * t * t * t + b

  unfoldable pub ease_out_cubic : A → A → A → A → A
  ease_out_cubic t b c d = let t = t / d - whole 1 in c * (t * t * t + whole 1) + b

  unfoldable pub ease_in_out_cubic : A → A → A → A → A
  ease_in_out_cubic t b c d =
      let t = t / (d / whole 2) in
      if t < whole 1
      then c / whole 2 * t * t * t + b
      else let t = t - whole 2 in c / whole 2 * (t * t * t + whole 2) + b

  unfoldable pub ease_in_quart : A → A → A → A → A
  ease_in_quart t b c d = let t = t / d in c * t * t * t * t + b

  unfoldable pub ease_out_quart : A → A → A → A → A
  ease_out_quart t b c d = let t = t / d - whole 1 in neg c * (t * t * t * t - whole 1) + b

  unfoldable pub ease_in_out_quart : A → A → A → A → A
  ease_in_out_quart t b c d =
      let t = t / (d / whole 2) in
      if t < whole 1
      then c / whole 2 * t * t * t * t + b
      else let t = t - whole 2 in neg c / whole 2 * (t * t * t * t - whole 2) + b

  unfoldable pub ease_in_quint : A → A → A → A → A
  ease_in_quint t b c d = let t = t / d in c * t * t * t * t * t + b

  unfoldable pub ease_out_quint : A → A → A → A → A
  ease_out_quint t b c d = let t = t / d - whole 1 in c * (t * t * t * t * t + whole 1) + b

  unfoldable pub ease_in_out_quint : A → A → A → A → A
  ease_in_out_quint t b c d =
      let t = t / (d / whole 2) in
      if t < whole 1
      then c / whole 2 * t * t * t * t * t + b
      else let t = t - whole 2 in c / whole 2 * (t * t * t * t * t + whole 2) + b

  unfoldable pub ease_in_sine : A → A → A → A → A
  ease_in_sine t b c d = neg c * n.cos (t / d * (n.pi / whole 2)) + c + b

  unfoldable pub ease_out_sine : A → A → A → A → A
  ease_out_sine t b c d = c * n.sin (t / d * (n.pi / whole 2)) + b

  unfoldable pub ease_in_out_sine : A → A → A → A → A
  ease_in_out_sine t b c d = neg c / whole 2 * (n.cos (n.pi * t / d) - whole 1) + b

  unfoldable pub ease_in_expo : A → A → A → A → A
  ease_in_expo t b c d =
      if t == whole 0 then b else c * n.pow (whole 2) (whole 10 * (t / d - whole 1)) + b

  unfoldable pub ease_out_expo : A → A → A → A → A
  ease_out_expo t b c d =
      if t == d then b + c else c * (neg (n.pow (whole 2) (neg (whole 10) * t / d)) + whole 1) + b

  unfoldable pub ease_in_out_expo : A → A → A → A → A
  ease_in_out_expo t b c d =
      if t == whole 0
      then b
      else if t == d
      then b + c
      else let t = t / (d / whole 2) in
        if t < whole 1
        then c / whole 2 * n.pow (whole 2) (whole 10 * (t - whole 1)) + b
        else let t = t - whole 1 in
          c / whole 2 * (neg (n.pow (whole 2) (neg (whole 10) * t)) + whole 2) + b

  unfoldable pub ease_in_circ : A → A → A → A → A
  ease_in_circ t b c d = let t = t / d in neg c * (n.sqrt (whole 1 - t * t) - whole 1) + b

  unfoldable pub ease_out_circ : A → A → A → A → A
  ease_out_circ t b c d = let t = t / d - whole 1 in c * n.sqrt (whole 1 - t * t) + b

  unfoldable pub ease_in_out_circ : A → A → A → A → A
  ease_in_out_circ t b c d =
      let t = t / (d / whole 2) in
      if t < whole 1
      then neg c / whole 2 * (n.sqrt (whole 1 - t * t) - whole 1) + b
      else let t = t - whole 2 in c / whole 2 * (n.sqrt (whole 1 - t * t) + whole 1) + b
