-- ===== src/ExParser/Ends.antt =====
-- src/ex_parser.rs: the loops over modifiers and offsets end by themselves.
use vim_script.Prelude.{
  ℕ, zero, suc, ◌+◌, ◌-◌, ◌≤◌, ◌<◌, ◌≡◌, refl, Bool, Option, none, some, [], ◌∷◌, Text, arith,
  text_eq, if◌then◌else◌, length, len_utf8, is_ascii_digit, is_ascii_alphabetic, pos, neg_ℤ,
  Option-cases, inl, inr,
}
use vim_script.Ast.{CommandModifier, Address}
use vim_script.ExParser.Cursor.{
  Line, Cursor, ExParseResult, peek, bump, bump_over, is_blank_char, take_while, horizontal_space,
  word, digits, accept,
}
use vim_script.ExParser.Modifiers.{modifier_of, next_modifier, prepend_modifier, modifiers_loop}
use vim_script.ExParser.Ranges.{sign_of, amount_of, offsets_loop}

take_while-length :
    (p : ℕ → Bool) (s : Text) (at : ℕ)
    → length (take_while p s at).0 + length (take_while p s at).1.rest ≡ length s
unfolding take_while
take_while-length p [] at = refl
take_while-length p (c ∷ s) at = ground (arith, take_while-length p s (at + len_utf8 c))

horizontal_space-length : (c : Cursor) → length (horizontal_space c).rest ≤ length c.rest
unfolding horizontal_space
horizontal_space-length c = omega (arith, take_while-length is_blank_char c.rest c.at)

bump_over-length : (s : Text) (at : ℕ) → length (bump_over s at).rest ≡ length s - 1
unfolding bump_over
bump_over-length [] at = refl
bump_over-length (c ∷ s) at = omega arith

accept-length : (ch : ℕ) (c : Cursor) → length (accept ch c).1.rest ≤ length c.rest
unfolding accept bump
accept-length ch c = ground (arith, bump_over-length c.rest c.at)

modifier_of-rest :
    (w : Text) (c : Cursor) (r : CommandModifier × Cursor)
    → modifier_of w c ≡ some r
    → length r.1.rest ≤ length c.rest
unfolding modifier_of
modifier_of-rest w c r e = ground (arith, accept-length b'!' c)

-- A modifier is a word that is not empty.
modifier_of-filled :
    (w : Text) (c : Cursor) (r : CommandModifier × Cursor)
    → modifier_of w c ≡ some r
    → (0 < length w) × (length r.1.rest ≤ length c.rest)
unfolding modifier_of text_eq
modifier_of-filled [] c r e = cc
modifier_of-filled (d ∷ w) c r e = (omega arith, modifier_of-rest (d ∷ w) c r e)

next_modifier-length :
    (c : Cursor) (r : CommandModifier × Cursor)
    → next_modifier c ≡ some r
    → length r.1.rest < length c.rest
unfolding next_modifier word
next_modifier-length c r e =
    let (filled, le) =
      modifier_of-filled (take_while is_ascii_alphabetic c.rest c.at).0
        (take_while is_ascii_alphabetic c.rest c.at).1 r e in
    omega (arith, take_while-length is_ascii_alphabetic c.rest c.at)

nothing_left : (c : Cursor) → length c.rest ≡ 0 → next_modifier c ≡ none
nothing_left c empty = elim (Option-cases (next_modifier c)) [
  | inl e ↦ e
  | inr (r, e) ↦ absurd (omega (arith, next_modifier-length c r e))
]

-- Where the fuel is the length of the line, the loop over modifiers ends at a place where no
-- modifier follows.
modifiers_loop-ends :
    (fuel : ℕ) (c : Cursor) → length c.rest ≤ fuel → next_modifier (modifiers_loop fuel c).1 ≡ none
unfolding modifiers_loop prepend_modifier
modifiers_loop-ends zero c le = nothing_left c (omega arith)
modifiers_loop-ends (suc fuel) c le = elim (Option-cases (next_modifier c)) [
  | inl e ↦ rw (e, modifiers_loop) e
  | inr ((m, after), e) ↦
      rw (e, modifiers_loop, prepend_modifier)
        (modifiers_loop-ends fuel (horizontal_space after)
          (omega (arith, next_modifier-length c (m, after) e, horizontal_space-length after)))
]

no_sign : (c : Cursor) → length c.rest ≡ 0 → sign_of (peek c.rest) ≡ none
unfolding peek
no_sign c empty = at_end c.rest empty
  where
    at_end : (s : Text) → length s ≡ 0 → sign_of (peek s) ≡ none
    at_end [] h = refl
    at_end (d ∷ s) h = absurd (omega arith)

signed :
    (c : Cursor) (plus : Bool) (n : ℕ)
    → sign_of (peek c.rest) ≡ some plus
    → length c.rest ≤ suc n
    → length (digits (bump c)).1.rest ≤ n
unfolding digits bump
signed c plus n e le =
    let b = bump_over c.rest c.at in
    omega (arith, take_while-length is_ascii_digit b.rest b.at, bump_over-length c.rest c.at)

module _ (l : Line) where
  -- Whether an address has been read with no sign behind it, or an error has been met.
  abbrev OffsetsEnd : ExParseResult (Option Address × Cursor) → Type 0
  OffsetsEnd (ExParseResult.parsed (a, c)) = sign_of (peek c.rest) ≡ none
  OffsetsEnd (ExParseResult.failed d) = Unit {0}

  -- The loop over offsets likewise.
  offsets_loop-ends :
      (fuel : ℕ) (a : Address) (c : Cursor)
      → length c.rest ≤ fuel
      → OffsetsEnd (offsets_loop l fuel a c)
  unfolding offsets_loop
  offsets_loop-ends zero a c le = no_sign c (omega arith)
  offsets_loop-ends (suc fuel) a c le = elim (Option-cases (sign_of (peek c.rest))) [
    | inl e ↦ rw (e, offsets_loop) e
    | inr (plus, e) ↦ elim (Option-cases (amount_of (digits (bump c)).0)) [
      | inl bad ↦ rw (e, offsets_loop, bad) tt
      | inr (n, good) ↦
          rw (e, offsets_loop, good)
            (offsets_loop-ends fuel (Address.offset a (if plus then pos n else neg_ℤ (pos n)))
              (digits (bump c)).1 (signed c plus fuel e le))
    ]
  ]
