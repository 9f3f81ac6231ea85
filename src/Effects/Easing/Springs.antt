-- ===== src/Effects/Easing/Springs.antt =====
-- effects.core.js: the easing equations that overshoot.
use sbt_example.Common.{Option, none, some, if◌then◌else◌}
use sbt_example.Js.Number.{Numbers, ◌+◌, ◌-◌, ◌*◌, ◌/◌, ◌<◌, ◌==◌, neg, whole, decimal}

module _ {A : Type 0} ⦃n : Numbers A⦄ where
  -- `s` of an elastic equation with the period `p`; its amplitude `a` is `c` in either branch.
  unfoldable pub phase : A → A → A
  phase c p = if c < n.abs c then p / whole 4 else p / (whole 2 * n.pi) * n.asin (c / c)

  -- `Math.sin((t*d-s)*(2*Math.PI)/p)`.
  unfoldable pub swing_at : A → A → A → A → A
  swing_at t c d p = n.sin ((t * d - phase c p) * (whole 2 * n.pi) / p)

  unfoldable pub ease_in_elastic : A → A → A → A → A
  ease_in_elastic t b c d =
      if t == whole 0
      then b
      else let t = t / d in
        if t == whole 1
        then b + c
        else let p = d * decimal 3 1 in
          let t = t - whole 1 in neg (c * n.pow (whole 2) (whole 10 * t) * swing_at t c d p) + b

  unfoldable pub ease_out_elastic : A → A → A → A → A
  ease_out_elastic t b c d =
      if t == whole 0
      then b
      else let t = t / d in
        if t == whole 1
        then b + c
        else let p = d * decimal 3 1 in
          c * n.pow (whole 2) (neg (whole 10) * t) * swing_at t c d p + c + b

  unfoldable pub ease_in_out_elastic : A → A → A → A → A
  ease_in_out_elastic t b c d =
      if t == whole 0
      then b
      else let t = t / (d / whole 2) in
        if t == whole 2
        then b + c
        else let p = d * (decimal 3 1 * decimal 15 1) in
          let u = t - whole 1 in
          if t < whole 1
          then neg (decimal 5 1) * (c * n.pow (whole 2) (whole 10 * u) * swing_at u c d p) + b
          else c * n.pow (whole 2) (neg (whole 10) * u) * swing_at u c d p * decimal 5 1 + c + b

  -- `if (s == undefined) s = 1.70158`.
  unfoldable pub overshoot : Option A → A
  overshoot none = decimal 170158 5
  overshoot (some s) = s

  unfoldable pub ease_in_back : A → A → A → A → Option A → A
  ease_in_back t b c d s =
      let s = overshoot s in let t = t / d in c * t * t * ((s + whole 1) * t - s) + b

  unfoldable pub ease_out_back : A → A → A → A → Option A → A
  ease_out_back t b c d s =
      let s = overshoot s in
      let t = t / d - whole 1 in c * (t * t * ((s + whole 1) * t + s) + whole 1) + b

  unfoldable pub ease_in_out_back : A → A → A → A → Option A → A
  ease_in_out_back t b c d s =
      let t = t / (d / whole 2) in
      let s = overshoot s * decimal 1525 3 in
      if t < whole 1
      then c / whole 2 * (t * t * ((s + whole 1) * t - s)) + b
      else let t = t - whole 2 in c / whole 2 * (t * t * ((s + whole 1) * t + s) + whole 2) + b

  -- A bounce that is least at the time `low`, where its value is `up`.
  unfoldable pub bounce : A → A → A → A → A → A
  bounce low up t b c = let t = t - low in c * (decimal 75625 4 * t * t + up) + b

  unfoldable pub ease_out_bounce : A → A → A → A → A
  ease_out_bounce t b c d =
      let t = t / d in
      if t < whole 1 / decimal 275 2
      then c * (decimal 75625 4 * t * t) + b
      else if t < whole 2 / decimal 275 2
      then bounce (decimal 15 1 / decimal 275 2) (decimal 75 2) t b c
      else if t < decimal 25 1 / decimal 275 2
      then bounce (decimal 225 2 / decimal 275 2) (decimal 9375 4) t b c
      else bounce (decimal 2625 3 / decimal 275 2) (decimal 984375 6) t b c

  unfoldable pub ease_in_bounce : A → A → A → A → A
  ease_in_bounce t b c d = c - ease_out_bounce (d - t) (whole 0) c d + b

  unfoldable pub ease_in_out_bounce : A → A → A → A → A
  ease_in_out_bounce t b c d =
      if t < d / whole 2
      then ease_in_bounce (t * whole 2) (whole 0) c d * decimal 5 1 + b
      else ease_out_bounce (t * whole 2 - d) (whole 0) c d * decimal 5 1 + c * decimal 5 1 + b
