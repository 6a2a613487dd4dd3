-- ===== src/ExParser/Scanning.antt =====
-- src/ex_parser.rs: what the primitive methods do on a printed line.
use vim_script.Prelude.{
  ℕ, ◌+◌, ◌≡◌, refl, ap, Bool, true, false, [], ◌∷◌, ◌++◌, Text, arith, len_utf8, byte_length,
  is_ascii_digit, is_ascii_alphabetic, all_by,
}
use vim_script.ExParser.Cursor.{Cursor, is_blank_char, take_while, horizontal_space, word, digits}

-- A text that is empty or begins with a character that fails the test.
abbrev pub Stops : (ℕ → Bool) → Text → Type 0
Stops p [] = Unit {0}
Stops p (c ∷ s) = p c ≡ false

take_while-Stops :
    (p : ℕ → Bool) (s : Text) (at : ℕ)
    → Stops p s
    → take_while p s at ≡ ([], record { rest = s; at = at })
unfolding take_while
take_while-Stops p [] at h = refl
take_while-Stops p (c ∷ s) at h = rw h refl

pub take_while-append :
    (p : ℕ → Bool) (s t : Text) (at : ℕ)
    → all_by p s ≡ true
    → Stops p t
    → take_while p (s ++ t) at ≡ (s, record { rest = t; at = at + byte_length s })
unfolding take_while byte_length all_by
take_while-append p [] t at all stops = ground (arith, take_while-Stops p t at stops)
take_while-append p (c ∷ s) t at all stops =
    ground (arith, take_while-append p s t (at + len_utf8 c))

pub horizontal_space-Stops :
    (s : Text) (at : ℕ)
    → Stops is_blank_char s
    → horizontal_space (record { rest = s; at = at }) ≡ record { rest = s; at = at }
unfolding horizontal_space
horizontal_space-Stops s at h =
    ap (λ (r : Text × Cursor). r.1) (take_while-Stops is_blank_char s at h)

pub horizontal_space-one :
    (s : Text) (at : ℕ)
    → Stops is_blank_char s
    → horizontal_space (record { rest = b' ' ∷ s; at = at }) ≡ record { rest = s; at = at + 1 }
unfolding horizontal_space take_while len_utf8
horizontal_space-one s at h =
    ap (λ (r : Text × Cursor). r.1) (take_while-Stops is_blank_char s (at + 1) h)

pub word-append :
    (s t : Text) (at : ℕ)
    → all_by is_ascii_alphabetic s ≡ true
    → Stops is_ascii_alphabetic t
    → word (record { rest = s ++ t; at = at }) ≡ (s, record { rest = t; at = at + byte_length s })
unfolding word
word-append s t at = take_while-append is_ascii_alphabetic s t at

pub digits-append :
    (s t : Text) (at : ℕ)
    → all_by is_ascii_digit s ≡ true
    → Stops is_ascii_digit t
    → digits (record { rest = s ++ t; at = at }) ≡ (s, record { rest = t; at = at + byte_length s })
unfolding digits
digits-append s t at = take_while-append is_ascii_digit s t at
