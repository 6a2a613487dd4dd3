-- ===== src/Source/Files/Bytes.antt =====
-- src/source.rs: texts by their byte offsets.
use vim_script.Prelude.{
  ℕ, zero, suc, ◌+◌, ◌-◌, ◌<◌, ◌≤◌, ◌≡◌, refl, ap, ◌∙◌, true, some, [], ◌∷◌, ◌++◌, Text, ◌==◌,
  arith, len_utf8, byte_length, cons_first, split_at_byte,
}
use vim_script.Source.Files.{first_part, slice_from, slice_bytes}

pub len_utf8-positive : (c : ℕ) → 0 < len_utf8 c
unfolding len_utf8
len_utf8-positive c = ground arith

pub len_utf8-feed : (c : ℕ) → (c == b'\n') ≡ true → len_utf8 c ≡ 1
unfolding len_utf8
len_utf8-feed c e = ground arith

pub byte_length-append : (s t : Text) → byte_length (s ++ t) ≡ byte_length s + byte_length t
unfolding byte_length
byte_length-append [] t = omega arith
byte_length-append (c ∷ s) t = omega (arith, byte_length-append s t)

pub byte_length-snoc : (s : Text) (c : ℕ) → byte_length (s ++ c ∷ []) ≡ byte_length s + len_utf8 c
unfolding byte_length
byte_length-snoc s c = omega (arith, byte_length-append s (c ∷ []))

split_at_byte-cons :
    (n c : ℕ) (s : Text)
    → len_utf8 c ≤ n
    → split_at_byte n (c ∷ s) ≡ cons_first c (split_at_byte (n - len_utf8 c) s)
unfolding split_at_byte
split_at_byte-cons zero c s h = absurd (omega (arith, len_utf8-positive c))
split_at_byte-cons (suc n) c s h = ground (arith, h)

pub split_at_byte-append :
    (n : ℕ) (s t : Text) → n ≡ byte_length s → split_at_byte n (s ++ t) ≡ some (s, t)
unfolding byte_length cons_first split_at_byte
split_at_byte-append zero [] t e = refl
split_at_byte-append (suc n) [] t e = absurd (omega (arith, e))
split_at_byte-append n (c ∷ s) t e =
    split_at_byte-cons n c (s ++ t) (omega (arith, e))
    ∙ ap (cons_first c) (split_at_byte-append (n - len_utf8 c) s t (omega (arith, e)))

pub slice_bytes-middle :
    (start end : ℕ) (pre line post : Text)
    → start ≡ byte_length pre
    → end ≡ byte_length pre + byte_length line
    → slice_bytes start end (pre ++ (line ++ post)) ≡ some line
unfolding slice_bytes slice_from first_part
slice_bytes-middle start end pre line post e f = ground (
  arith,
  split_at_byte-append start pre (line ++ post) e,
  split_at_byte-append (end - start) line post (omega (arith, e, f)),
)
