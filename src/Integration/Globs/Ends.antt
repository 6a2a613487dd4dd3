-- ===== src/Integration/Globs/Ends.antt =====
-- src/integration.rs: the loop of vim_glob_matches ends, and what vim_glob_matches answers.
use native.Mathlib.Nat.{mul-le-mul_right}
use vim_script.Prelude.{
  ℕ, zero, suc, ◌+◌, ◌*◌, ◌≤◌, ◌<◌, ◌≡◌, refl, Bool, true, false, ◌||◌, Option, none, some, [], ◌∷◌,
  Text, arith, ◌==◌, length, Bool-cases, inl, inr,
}
use vim_script.Integration.Globs.{
  GlobStep, backtrack, glob_step, go_on, glob_loop, glob_fuel, or_false, vim_glob_matches,
  any_suffix, glob,
}
use vim_script.Integration.Globs.Meaning.{NoStar, loop-glob, alternative}

-- The rest of the subject at the last star, or more than the subject.
abbrev room : ℕ → Option (Text × Text) → ℕ
room subject none = suc subject
room subject (some (p, s)) = length s

module _ (P S : ℕ) where
  -- The state of a loop over a pattern and a subject of these lengths.
  abbrev Bounded : Option (Text × Text) → Text → Text → Type 0
  Bounded none p s = (length p ≤ P) × (length s ≤ S)
  Bounded (some (q, t)) p s =
      (length p ≤ P) × (length s ≤ S) × (length q ≤ P) × (length t ≤ S) × (length s ≤ length t)

  abbrev measure : Option (Text × Text) → Text → Text → ℕ
  measure star p s = room S star * (P + S + 1) + (length p + length s)

  abbrev Smaller : ℕ → GlobStep → Type 0
  Smaller n (GlobStep.finished b) = Unit {0}
  Smaller n (GlobStep.next p s star) = Bounded star p s × (measure star p s < n)

  backtrack-Smaller :
      (star : Option (Text × Text)) (p : Text) (c : ℕ) (s : Text)
      → Bounded star p (c ∷ s)
      → Smaller (measure star p (c ∷ s)) (backtrack star)
  unfolding backtrack
  backtrack-Smaller none p c s h = tt
  backtrack-Smaller (some (q, [])) p c s h = absurd (omega arith)
  backtrack-Smaller (some (q, d ∷ t)) p c s h = (omega arith, grind arith)

  star-Smaller :
      (star : Option (Text × Text)) (q : ℕ) (p : Text) (c : ℕ) (s : Text)
      → Bounded star (q ∷ p) (c ∷ s)
      → Smaller (measure star (q ∷ p) (c ∷ s)) (GlobStep.next p (c ∷ s) (some (p, c ∷ s)))
  star-Smaller none q p c s h = (
    omega arith,
    omega (arith, mul-le-mul_right {m = suc (length s)} {n = suc S} (P + S + 1) (omega arith)),
  )
  star-Smaller (some (r, t)) q p c s h = (
    omega arith,
    omega (arith, mul-le-mul_right {m = suc (length s)} {n = length t} (P + S + 1) (omega arith)),
  )

  literal-Smaller :
      (star : Option (Text × Text)) (q : ℕ) (p : Text) (c : ℕ) (s : Text)
      → Bounded star (q ∷ p) (c ∷ s)
      → Smaller (measure star (q ∷ p) (c ∷ s)) (GlobStep.next p s star)
  literal-Smaller none q p c s h = (omega arith, omega arith)
  literal-Smaller (some (r, t)) q p c s h = (omega arith, omega arith)

  step-Smaller :
      (p s : Text) (star : Option (Text × Text))
      → Bounded star p s
      → Smaller (measure star p s) (glob_step p s star)
  unfolding glob_step
  step-Smaller p [] star h = tt
  step-Smaller [] (c ∷ s) star h = backtrack-Smaller star [] c s h
  step-Smaller (q ∷ p) (c ∷ s) star h = elim (Bool-cases ((q == b'?') || (q == c))) [
    | inl matches ↦ rw matches (literal-Smaller star q p c s h)
    | inr differs ↦ elim (Bool-cases (q == b'*')) [
      | inl is_star ↦ rw (differs, is_star) (star-Smaller star q p c s h)
      | inr literal ↦ rw (differs, literal) (backtrack-Smaller star (q ∷ p) c s h)
    ]
  ]

  ended :
      (fuel n : ℕ) (step : GlobStep)
      → Smaller n step
      → n ≤ fuel
      → ((p s : Text) (star : Option (Text × Text))
          → Bounded star p s
          → measure star p s < fuel
          → (b : Bool) × (glob_loop fuel p s star ≡ some b))
      → (b : Bool) × (go_on (glob_loop fuel) step ≡ some b)
  unfolding go_on
  ended fuel n (GlobStep.finished b) smaller le rest = (b, refl)
  ended fuel n (GlobStep.next p s star) (bounded, less) le rest =
      rest p s star bounded (omega arith)

  -- The loop ends within as many rounds as its measure.
  loop-some :
      (fuel : ℕ) (p s : Text) (star : Option (Text × Text))
      → Bounded star p s
      → measure star p s < fuel
      → (b : Bool) × (glob_loop fuel p s star ≡ some b)
  unfolding glob_loop
  loop-some zero p s star h enough = absurd (omega arith)
  loop-some (suc fuel) p s star h enough =
      ended fuel (measure star p s) (glob_step p s star) (step-Smaller p s star h) (omega arith)
        (loop-some fuel)

-- `vim_glob_matches` ends, and it answers whether the glob matches the subject, where the subject
-- has no `*` in it.
pub vim_glob_matches-glob :
    (pattern subject : Text)
    → NoStar subject
    → ((b : Bool) × (glob_loop (glob_fuel pattern subject) pattern subject none ≡ some b))
      × (vim_glob_matches pattern subject ≡ glob pattern subject)
unfolding vim_glob_matches or_false alternative
vim_glob_matches-glob pattern subject free =
    let (b, e) =
      loop-some (length pattern) (length subject) (glob_fuel pattern subject) pattern subject none
        (omega arith) (grind arith) in
    let means = loop-glob (glob_fuel pattern subject) pattern subject none b free tt e in
    ((b, e), rw e (ground (arith, means)))

any_text : (s : Text) → any_suffix (glob []) s ≡ true
unfolding any_suffix glob
any_text [] = refl
any_text (c ∷ s) = rw (any_text s) (ground arith)

two_rounds :
    (fuel c : ℕ) (s : Text) → 1 < fuel → glob_loop fuel (b'*' ∷ []) (b'*' ∷ c ∷ s) none ≡ some false
unfolding glob_loop go_on glob_step backtrack
two_rounds zero c s h = absurd (omega arith)
two_rounds (suc zero) c s h = absurd (omega arith)
two_rounds (suc (suc fuel)) c s h = refl

-- A glob that is a single `*`, which stands for any text, does not match a subject that begins
-- with `*` and goes on: the loop takes the `*` of the pattern for a character.
pub lone_star-refused :
    (c : ℕ) (s : Text)
    → (glob (b'*' ∷ []) (b'*' ∷ c ∷ s) ≡ true)
      × (vim_glob_matches (b'*' ∷ []) (b'*' ∷ c ∷ s) ≡ false)
unfolding vim_glob_matches or_false glob
lone_star-refused c s = (
  any_text (b'*' ∷ c ∷ s),
  rw (two_rounds (glob_fuel (b'*' ∷ []) (b'*' ∷ c ∷ s)) c s (grind arith)) refl,
)
