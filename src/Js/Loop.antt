-- ===== src/Js/Loop.antt =====
-- The loop of the URI coders: one step reads a character at the head of a string and gives what it
-- stands for and what is left to read.
use mathlib.Core.Path.{subst}
use sbt_example.Common.{
  ℕ, zero, suc, ◌≤◌, ◌≡◌, refl, ap, Str, [], ◌∷◌, ◌++◌, arith, length, length-append, Outcome, ok,
  throw, type_error, ◌>>=◌, Outcome-cases, bind_inv, All, All-append, All-right, sym, inl, inr,
}

abbrev pub Coder : Type 0
Coder = ℕ → Str → Outcome (Str × Str)

-- Fuel bounds the rounds; a round reads at least one unit, so the string's length is enough.
unfoldable pub convert : Coder → ℕ → Str → Outcome Str
convert f fuel [] = ok []
convert f zero (c ∷ s) = throw type_error
convert f (suc fuel) (c ∷ s) = do (out, rest) ← f c s; more ← convert f fuel rest; ok (out ++ more)

-- What a step leaves to read is no longer than what stood behind its first unit.
abbrev pub IsAdvancing : Coder → Type 0
IsAdvancing f = (c : ℕ) (s out rest : Str) → f c s ≡ ok (out, rest) → length rest ≤ length s

-- More fuel than the length changes nothing.
pub convert_enough :
    (f : Coder)
    → IsAdvancing f
    → (m n : ℕ) (s : Str) → length s ≤ m
    → length s ≤ n
    → convert f m s ≡ convert f n s
unfolding convert
convert_enough f adv zero zero s hm hn = refl
convert_enough f adv m n [] hm hn = ground arith
convert_enough f adv zero (suc n) (c ∷ s) hm hn = absurd (omega arith)
convert_enough f adv (suc m) zero (c ∷ s) hm hn = absurd (omega arith)
convert_enough f adv (suc m) (suc n) (c ∷ s) hm hn = elim (Outcome-cases (f c s)) [
  | inl ((out, rest), e) ↦
      let short = adv c s out rest e in
      rw e (rw (convert_enough f adv m n rest (omega arith) (omega arith)))
  | inr (x, e) ↦ rw e
]

-- Inversion of a round that does not throw.
pub convert_step :
    (f : Coder) (m : ℕ) (c : ℕ) (s e : Str)
    → convert f (suc m) (c ∷ s) ≡ ok e
    → (out rest more : Str) × (f c s ≡ ok (out, rest))
      × (convert f m rest ≡ ok more)
      × (e ≡ out ++ more)
unfolding convert
convert_step f m c s e h =
    let ((out, rest), read, h') = bind_inv (f c s) _ h in
    let (more, converted, e') = bind_inv (convert f m rest) _ h' in
    (out, rest, more, read, converted, cc)

-- What one step writes, a step of the second coder reads back, whatever follows it.
abbrev pub IsReadBy : (ℕ → Type 0) → Coder → Coder → Type 0
IsReadBy P enc dec =
    (c : ℕ) (s out rest : Str)
    → All P (c ∷ s)
    → enc c s ≡ ok (out, rest)
    → (o : ℕ) × (os used : Str) × (out ≡ o ∷ os)
      × (c ∷ s ≡ used ++ rest)
      × ((t : Str) → dec o (os ++ t) ≡ ok (used, t))

pub convert_nil : (f : Coder) (m : ℕ) → convert f m [] ≡ ok []
unfolding convert
convert_nil f zero = refl
convert_nil f (suc m) = refl

-- A round whose step is known.
convert_run :
    (f : Coder) (n o : ℕ) (os t used more : Str)
    → f o (os ++ t) ≡ ok (used, t)
    → convert f n t ≡ ok more
    → convert f (suc n) (o ∷ (os ++ t)) ≡ ok (used ++ more)
unfolding convert
convert_run f n o os t used more h k = rw (h, k)

module _ (P : ℕ → Type 0) (enc dec : Coder) (adv : IsAdvancing enc)
    (reads : IsReadBy P enc dec) where
  -- Then the second loop reads back what the first has written.
  pub convert-convert :
      (m n : ℕ) (s e : Str)
      → All P s
      → length s ≤ m
      → length e ≤ n
      → convert enc m s ≡ ok e
      → convert dec n e ≡ ok s
  convert-convert m n [] e p hm hn h =
      let nothing : e ≡ [] = cc (convert_nil enc m) in rw nothing (convert_nil dec n)
  convert-convert zero n (c ∷ s) e p hm hn h = absurd (omega arith)
  convert-convert (suc m) zero (c ∷ s) e p hm hn h =
      let (out, rest, more, read, later, joined) = convert_step enc m c s e h in
      let (o, os, used, first, consumed, back) = reads c s out rest p read in
      absurd (omega (arith, ap length joined, ap length first, length-append out more))
  convert-convert (suc m) (suc n) (c ∷ s) e p hm hn h =
      let (out, rest, more, read, later, joined) = convert_step enc m c s e h in
      let (o, os, used, first, consumed, back) = reads c s out rest p read in
      let joined' : e ≡ o ∷ (os ++ more) = cc in
      let short = adv c s out rest read in
      let ih =
        convert-convert m n rest more (All-right P used rest (subst (λ x. All P x) consumed p))
          (omega arith) (omega (arith, ap length joined', length-append os more)) later in
      rw (joined', consumed) (convert_run dec n o os more used rest (back more) ih)

-- What holds of every unit that a step writes holds of the whole result.
pub convert-All :
    (P Q : ℕ → Type 0) (f : Coder)
    → ((c : ℕ) (s out rest : Str) → All P (c ∷ s) → f c s ≡ ok (out, rest) → All Q out × All P rest)
    → (m : ℕ) (s e : Str) → All P s
    → convert f m s ≡ ok e
    → All Q e
convert-All P Q f step m [] e p h =
    let nothing : [] ≡ e = cc (convert_nil f m) in subst (λ l. All Q l) nothing tt
convert-All P Q f step zero (c ∷ s) e p h = unfold convert in cc
convert-All P Q f step (suc m) (c ∷ s) e p h =
    let (out, rest, more, read, later, joined) = convert_step f m c s e h in
    let (written, left) = step c s out rest p read in
    subst (λ l. All Q l) (sym joined)
      (All-append Q out more written (convert-All P Q f step m rest more left later))
