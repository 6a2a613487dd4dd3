-- ===== src/Integration/Globs/Meaning.antt =====
-- src/integration.rs: what the loop of vim_glob_matches answers.
use vim_script.Prelude.{
  ℕ, zero, suc, ◌≡◌, refl, ◌∙◌, Bool, true, false, ◌||◌, Option, none, some, [], ◌∷◌, Text, arith,
  ◌==◌, drop, length, ◌≤◌, contains_char, Bool-cases, inl, inr,
}
use vim_script.Integration.Globs.{
  all_stars, GlobStep, backtrack, go_on, glob_step, glob_loop, any_suffix, one_character, glob,
}

abbrev pub NoStar : Text → Type 0
NoStar s = contains_char s b'*' ≡ false

-- A place after the last star is tried with the characters that the star has not yet taken.
unfoldable pub any_later : (Text → Bool) → Text → Bool
any_later f [] = false
any_later f (c ∷ s) = any_suffix f s

unfoldable pub alternative : Option (Text × Text) → Bool
alternative none = false
alternative (some (pattern, subject)) = any_later (glob pattern) subject

-- Whatever the pattern after the last star matches, from its place on, the rest of the pattern
-- matches in what is left of the subject.
abbrev pub Covers : Option (Text × Text) → Text → Text → Type 0
Covers none p s = Unit {0}
Covers (some (pattern, subject)) p s =
    NoStar subject
    × (length s ≤ length subject)
    × ((k : ℕ) → glob pattern (drop k subject) ≡ true → any_suffix (glob p) s ≡ true)

abbrev pub Means : GlobStep → Bool → Type 0
Means (GlobStep.finished b) r = b ≡ r
Means (GlobStep.next p s star) r = NoStar s × Covers star p s × ((glob p s || alternative star) ≡ r)

all_stars-glob : (p : Text) → all_stars p ≡ glob p []
unfolding all_stars glob any_suffix one_character
all_stars-glob [] = refl
all_stars-glob (q ∷ p) = ground (arith, all_stars-glob p)

any_suffix-drop : (f : Text → Bool) (k : ℕ) (s : Text) → f (drop k s) ≡ true → any_suffix f s ≡ true
unfolding any_suffix
any_suffix-drop f zero [] h = h
any_suffix-drop f (suc k) [] h = h
any_suffix-drop f zero (c ∷ s) h = ground arith
any_suffix-drop f (suc k) (c ∷ s) h = ground (arith, any_suffix-drop f k s h)

drop-any_suffix :
    (f : Text → Bool) (s : Text) → any_suffix f s ≡ true → (k : ℕ) × (f (drop k s) ≡ true)
unfolding any_suffix
drop-any_suffix f [] h = (0, h)
drop-any_suffix f (c ∷ s) h = elim (Bool-cases (f (c ∷ s))) [
  | inl here ↦ (0, here)
  | inr later ↦ let (k, e) = drop-any_suffix f s (ground arith) in (suc k, e)
]

any_suffix-literal :
    (q : ℕ) (p : Text) (c : ℕ) (s : Text)
    → (q == b'*') ≡ false
    → any_suffix (glob (q ∷ p)) (c ∷ s) ≡ true
    → any_suffix (glob p) s ≡ true
unfolding any_suffix glob one_character
any_suffix-literal q p c [] literal h = ground arith
any_suffix-literal q p c (d ∷ s) literal h = ground (arith, any_suffix-literal q p d s literal)

any_suffix-twice :
    (f : Text → Bool) (s : Text) → any_suffix (any_suffix f) s ≡ true → any_suffix f s ≡ true
unfolding any_suffix
any_suffix-twice f [] h = h
any_suffix-twice f (c ∷ s) h = ground (arith, any_suffix-twice f s)

absorbed :
    (star : Option (Text × Text)) (p s : Text)
    → Covers star p s
    → alternative star ≡ true
    → any_suffix (glob p) s ≡ true
unfolding alternative any_later
absorbed none p s covers h = cc
absorbed (some (pattern, [])) p s covers h = cc
absorbed (some (pattern, c ∷ subject)) p s (free, short, covers) h =
    let (k, e) = drop-any_suffix (glob pattern) subject h in covers (suc k) e

NoStar-rest : (c : ℕ) (s : Text) → NoStar (c ∷ s) → NoStar s
unfolding contains_char
NoStar-rest c s h = ground arith

NoStar-head : (c : ℕ) (s : Text) → NoStar (c ∷ s) → (c == b'*') ≡ false
unfolding contains_char
NoStar-head c s h = ground arith

glob-later : (p : Text) (s : Text) → (glob p s || any_later (glob p) s) ≡ any_suffix (glob p) s
unfolding any_later any_suffix
glob-later p [] = ground arith
glob-later p (c ∷ s) = refl

-- Trying again from the next place after the last star.
backtrack-Means :
    (star : Option (Text × Text)) (p : Text) (c : ℕ) (s : Text)
    → Covers star p (c ∷ s)
    → glob p (c ∷ s) ≡ false
    → Means (backtrack star) (glob p (c ∷ s) || alternative star)
unfolding backtrack alternative any_later any_suffix
backtrack-Means none p c s covers differs = rw differs refl
backtrack-Means (some (pattern, [])) p c s (free, short, covers) differs = absurd (omega arith)
backtrack-Means (some (pattern, d ∷ r)) p c s (free, short, covers) differs =
    let rest : NoStar r = NoStar-rest d r free in
    (
      rest,
      (rest, omega arith, λ k e. any_suffix-drop (glob pattern) k r e),
      rw (differs, any_later) (glob-later pattern r),
    )

literal-Covers :
    (star : Option (Text × Text)) (q : ℕ) (p : Text) (c : ℕ) (s : Text)
    → (q == b'*') ≡ false
    → Covers star (q ∷ p) (c ∷ s)
    → Covers star p s
literal-Covers none q p c s literal covers = tt
literal-Covers (some (pattern, subject)) q p c s literal (free, short, covers) =
    (free, omega arith, λ k e. any_suffix-literal q p c s literal (covers k e))

literal-Means :
    (star : Option (Text × Text)) (q : ℕ) (p : Text) (c : ℕ) (s : Text)
    → NoStar (c ∷ s)
    → Covers star (q ∷ p) (c ∷ s)
    → ((q == b'?') || (q == c)) ≡ true
    → Means (GlobStep.next p s star) (glob (q ∷ p) (c ∷ s) || alternative star)
unfolding glob one_character
literal-Means star q p c s free covers matches =
    let literal : (q == b'*') ≡ false = ground (arith, NoStar-head c s free) in
    (NoStar-rest c s free, literal-Covers star q p c s literal covers, rw (literal, matches) refl)

starred : (q : ℕ) (p s : Text) → (q == b'*') ≡ true → glob (q ∷ p) s ≡ any_suffix (glob p) s
unfolding glob
starred q p s h = rw h refl

mismatch :
    (q : ℕ) (p : Text) (c : ℕ) (s : Text)
    → ((q == b'?') || (q == c)) ≡ false
    → (q == b'*') ≡ false
    → glob (q ∷ p) (c ∷ s) ≡ false
unfolding glob one_character
mismatch q p c s differs literal = rw (literal, differs) refl

glob_nil : (c : ℕ) (s : Text) → glob [] (c ∷ s) ≡ false
unfolding glob
glob_nil c s = refl

star_choice :
    (star : Option (Text × Text)) (q : ℕ) (p : Text) (c : ℕ) (s : Text)
    → Covers star (q ∷ p) (c ∷ s)
    → (q == b'*') ≡ true
    → (glob p (c ∷ s) || any_later (glob p) (c ∷ s)) ≡ (glob (q ∷ p) (c ∷ s) || alternative star)
unfolding glob any_suffix any_later
star_choice star q p c s covers matches = ground (
  arith,
  any_suffix-twice (glob p) (c ∷ s),
  absorbed star (q ∷ p) (c ∷ s) covers,
  starred q p (c ∷ s) matches,
)

star-Means :
    (star : Option (Text × Text)) (q : ℕ) (p : Text) (c : ℕ) (s : Text)
    → NoStar (c ∷ s)
    → Covers star (q ∷ p) (c ∷ s)
    → (q == b'*') ≡ true
    → Means (GlobStep.next p (c ∷ s) (some (p, c ∷ s))) (glob (q ∷ p) (c ∷ s) || alternative star)
unfolding alternative any_later
star-Means star q p c s free covers matches = (
  free,
  (free, omega arith, λ k e. any_suffix-drop (glob p) k (c ∷ s) e),
  star_choice star q p c s covers matches,
)

step-Means :
    (p s : Text) (star : Option (Text × Text))
    → NoStar s
    → Covers star p s
    → Means (glob_step p s star) (glob p s || alternative star)
unfolding glob_step any_suffix
step-Means p [] star free covers = ground (arith, all_stars-glob p, absorbed star p [] covers)
step-Means [] (c ∷ s) star free covers = backtrack-Means star [] c s covers (glob_nil c s)
step-Means (q ∷ p) (c ∷ s) star free covers = elim (Bool-cases ((q == b'?') || (q == c))) [
  | inl matches ↦ rw matches (literal-Means star q p c s free covers matches)
  | inr differs ↦ elim (Bool-cases (q == b'*')) [
    | inl is_star ↦ rw (differs, is_star) (star-Means star q p c s free covers is_star)
    | inr literal ↦
        rw (differs, literal)
          (backtrack-Means star (q ∷ p) c s covers (mismatch q p c s differs literal))
  ]
]

continued :
    (fuel : ℕ) (step : GlobStep) (r b : Bool)
    → Means step r
    → ((p s : Text) (star : Option (Text × Text)) (b : Bool)
        → NoStar s
        → Covers star p s
        → glob_loop fuel p s star ≡ some b
        → b ≡ (glob p s || alternative star))
    → go_on (glob_loop fuel) step ≡ some b
    → b ≡ r
unfolding go_on
continued fuel (GlobStep.finished x) r b means later e = ground arith
continued fuel (GlobStep.next p s star) r b (free, covers, same) later e =
    later p s star b free covers e ∙ same

-- A loop that ends answers whether the pattern matches, at its place or after the last star.
pub loop-glob :
    (fuel : ℕ) (p s : Text) (star : Option (Text × Text)) (b : Bool)
    → NoStar s
    → Covers star p s
    → glob_loop fuel p s star ≡ some b
    → b ≡ (glob p s || alternative star)
unfolding glob_loop
loop-glob zero p s star b free covers e = cc
loop-glob (suc fuel) p s star b free covers e =
    continued fuel (glob_step p s star) (glob p s || alternative star) b
      (step-Means p s star free covers) (loop-glob fuel) e
