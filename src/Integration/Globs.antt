-- ===== src/Integration/Globs.antt =====
-- src/integration.rs: vim_glob_matches. An index is the suffix of the text that is left from it on.
pub mod Meaning
pub mod Ends
use vim_script.Prelude.{
  ℕ, zero, suc, ◌+◌, ◌*◌, Bool, true, false, ◌||◌, ◌&&◌, Option, none, some, [], ◌∷◌, Text, ◌==◌,
  if◌then◌else◌, drop, length,
}

unfoldable pub all_stars : Text → Bool
all_stars [] = true
all_stars (q ∷ p) = (q == b'*') && all_stars p

-- What one round of the loop does: it ends, or it goes on with a rest of the pattern, a rest of
-- the subject, and what follows the last star with the place in the subject where it was met.
pub data GlobStep : Type 0 where
  finished : Bool → GlobStep
  next : Text → Text → Option (Text × Text) → GlobStep

unfoldable pub backtrack : Option (Text × Text) → GlobStep
backtrack none = GlobStep.finished false
backtrack (some (pattern, subject)) =
    GlobStep.next pattern (drop 1 subject) (some (pattern, drop 1 subject))

unfoldable pub glob_step : Text → Text → Option (Text × Text) → GlobStep
unfolding backtrack all_stars
glob_step p [] star = GlobStep.finished (all_stars p)
glob_step [] (c ∷ s) star = backtrack star
glob_step (q ∷ p) (c ∷ s) star =
    if (q == b'?') || (q == c)
    then GlobStep.next p s star
    else if q == b'*'
    then GlobStep.next p (c ∷ s) (some (p, c ∷ s))
    else backtrack star

-- The loop, with as many rounds as the fuel; `none` when they were too few.
abbrev pub Loop : Type 0
Loop = Text → Text → Option (Text × Text) → Option Bool

unfoldable pub go_on : Loop → GlobStep → Option Bool
go_on loop (GlobStep.finished b) = some b
go_on loop (GlobStep.next p s star) = loop p s star

unfoldable pub glob_loop : (fuel : ℕ) → Loop
unfolding glob_step go_on
glob_loop zero p s star = none
glob_loop (suc fuel) p s star = go_on (glob_loop fuel) (glob_step p s star)

-- Enough rounds for any pattern and subject.
abbrev pub glob_fuel : Text → Text → ℕ
glob_fuel pattern subject = (length subject + 2) * (length pattern + length subject + 1)

unfoldable pub or_false : Option Bool → Bool
or_false none = false
or_false (some b) = b

unfoldable pub vim_glob_matches : Text → Text → Bool
unfolding glob_loop or_false
vim_glob_matches pattern subject =
    or_false (glob_loop (glob_fuel pattern subject) pattern subject none)

-- What a glob means: `*` stands for any text, `?` for any character, and any other character for
-- itself.
unfoldable pub any_suffix : (Text → Bool) → Text → Bool
any_suffix f [] = f []
any_suffix f (c ∷ s) = f (c ∷ s) || any_suffix f s

unfoldable pub one_character : ℕ → (Text → Bool) → Text → Bool
one_character q f [] = false
one_character q f (c ∷ s) = ((q == b'?') || (q == c)) && f s

unfoldable pub glob : Text → Text → Bool
unfolding any_suffix one_character
glob [] [] = true
glob [] (c ∷ s) = false
glob (q ∷ p) s = if q == b'*' then any_suffix (glob p) s else one_character q (glob p) s
