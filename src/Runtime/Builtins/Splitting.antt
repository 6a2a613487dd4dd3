-- ===== src/Runtime/Builtins/Splitting.antt =====
-- src/runtime/builtins.rs: split by a separator and join.
use vim_script.Prelude.{
  ℕ, zero, suc, ◌-◌, ◌≡◌, refl, ap, ◌∙◌, Bool, true, false, ◌||◌, List, [], ◌∷◌, ◌++◌, map, Text,
  arith, starts_with, length, drop, Bool-cases, inl, inr,
}
use vim_script.Runtime.Value.{Value, to_list-of_list, FloatOps}
use vim_script.Runtime.Error.{ok}
use vim_script.Runtime.Builtins.Display.{vim_display, join_texts}
use vim_script.Runtime.Builtins.Strings.{
  lengthen, split_text, text_list, split, join, join_displayed,
}

-- Whether a text stands anywhere in another.
unfoldable pub contains_text : Text → Text → Bool
contains_text [] pattern = starts_with [] pattern
contains_text (c ∷ s) pattern = starts_with (c ∷ s) pattern || contains_text s pattern

-- No part has the separator in it.
abbrev pub AllFree : Text → List Text → Type 0
AllFree separator [] = Unit {0}
AllFree separator (part ∷ parts) = (contains_text part separator ≡ false) × AllFree separator parts

starts_with-drop : (s p : Text) → starts_with s p ≡ true → p ++ drop (length p) s ≡ s
unfolding starts_with
starts_with-drop s [] h = refl
starts_with-drop [] (d ∷ p) h = cc
starts_with-drop (c ∷ s) (d ∷ p) h = ground (arith, starts_with-drop s p)

starts_with-append : (s t p : Text) → starts_with s p ≡ true → starts_with (s ++ t) p ≡ true
unfolding starts_with
starts_with-append s t [] h = refl
starts_with-append [] t (d ∷ p) h = cc
starts_with-append (c ∷ s) t (d ∷ p) h = ground (arith, starts_with-append s t p)

join_texts-lengthen :
    (separator : Text) (c : ℕ) (parts : List Text)
    → join_texts separator (lengthen c parts) ≡ c ∷ join_texts separator parts
unfolding join_texts lengthen
join_texts-lengthen separator c [] = refl
join_texts-lengthen separator c (s ∷ []) = refl
join_texts-lengthen separator c (s ∷ t ∷ ts) = refl

split_text-cons :
    (separator : Text) (k : ℕ) (s : Text)
    → (part : Text) × (parts : List Text) × (split_text separator k s ≡ part ∷ parts)
unfolding split_text lengthen
split_text-cons separator k [] = ([], [], refl)
split_text-cons separator (suc k) (c ∷ s) = split_text-cons separator k s
split_text-cons separator zero (c ∷ s) =
    let (part, parts, e) = split_text-cons separator 0 s in
    elim (Bool-cases (starts_with (c ∷ s) separator)) [
      | inl here ↦ ([], split_text separator (length separator - 1) s, rw here refl)
      | inr later ↦ (c ∷ part, parts, rw (later, e) refl)
    ]

join_texts-split_text :
    (separator : Text) (k : ℕ) (s : Text)
    → join_texts separator ([] ∷ split_text separator k s)
      ≡ separator ++ join_texts separator (split_text separator k s)
unfolding join_texts
join_texts-split_text separator k s =
    let (part, parts, e) = split_text-cons separator k s in rw e refl

AllFree-lengthen :
    (separator : Text) (c : ℕ) (s : Text) (parts : List Text)
    → join_texts separator parts ≡ s
    → starts_with (c ∷ s) separator ≡ false
    → contains_text [] separator ≡ false
    → AllFree separator parts
    → AllFree separator (lengthen c parts)
unfolding lengthen join_texts contains_text
AllFree-lengthen separator c s [] e later filled all =
    (ground (arith, starts_with-append (c ∷ []) s separator), tt)
AllFree-lengthen separator c s (part ∷ []) e later filled (free, all) = (ground (arith, free), tt)
AllFree-lengthen separator c s (part ∷ t ∷ ts) e later filled (free, all) = (
  ground (
    arith,
    free,
    starts_with-append (c ∷ part) (separator ++ join_texts separator (t ∷ ts)) separator,
  ),
  all,
)

module _ (d : ℕ) (separator : Text) where
  join-split_text :
      (k : ℕ) (s : Text) → join_texts (d ∷ separator) (split_text (d ∷ separator) k s) ≡ drop k s
  unfolding split_text join_texts
  join-split_text zero [] = refl
  join-split_text (suc k) [] = refl
  join-split_text (suc k) (c ∷ s) = join-split_text k s
  join-split_text zero (c ∷ s) =
      let n : ℕ = length (d ∷ separator) - 1 in
      elim (Bool-cases (starts_with (c ∷ s) (d ∷ separator))) [
        | inl here ↦ rw here (
            join_texts-split_text (d ∷ separator) n s
            ∙ (ap (λ (t : Text). (d ∷ separator) ++ t) (join-split_text n s)
                ∙ rw (less separator) (starts_with-drop (c ∷ s) (d ∷ separator) here)))
        | inr later ↦ rw later (
            join_texts-lengthen (d ∷ separator) c (split_text (d ∷ separator) 0 s)
            ∙ ap (◌∷◌ c) (join-split_text 0 s))
      ]
    where
      less : (t : Text) → suc (length t) - 1 ≡ length t
      less t = omega arith

  split_text-AllFree : (k : ℕ) (s : Text) → AllFree (d ∷ separator) (split_text (d ∷ separator) k s)
  unfolding split_text contains_text starts_with
  split_text-AllFree zero [] = (refl, tt)
  split_text-AllFree (suc k) [] = (refl, tt)
  split_text-AllFree (suc k) (c ∷ s) = split_text-AllFree k s
  split_text-AllFree zero (c ∷ s) = elim (Bool-cases (starts_with (c ∷ s) (d ∷ separator))) [
    | inl here ↦ rw here (refl, split_text-AllFree (length (d ∷ separator) - 1) s)
    | inr later ↦ rw later (
        AllFree-lengthen (d ∷ separator) c s (split_text (d ∷ separator) 0 s) (join-split_text 0 s)
          later refl (split_text-AllFree 0 s))
  ]

  module _ (fl : FloatOps) where
    displayed_texts : (ts : List Text) → map (vim_display fl) (map Value.string ts) ≡ ts
    unfolding vim_display
    displayed_texts [] = refl
    displayed_texts (t ∷ ts) = ap (◌∷◌ t) (displayed_texts ts)

    -- `split` of a text by a separator that is not empty gives parts that do not contain the
    -- separator, and `join` of the parts by that separator gives the text back.
    pub join-split :
        (s : Text) (more more' : List Value)
        → let sep = Value.string (d ∷ separator) in
          (parts : List Text) × (split (Value.string s ∷ sep ∷ more) ≡ ok (text_list parts))
          × AllFree (d ∷ separator) parts
          × (join fl (text_list parts ∷ sep ∷ more') ≡ ok (Value.string s))
    unfolding split join join_displayed text_list
    join-split s more more' =
        let parts = split_text (d ∷ separator) 0 s in
        (
          parts,
          refl,
          split_text-AllFree 0 s,
          rw (to_list-of_list (map Value.string parts), displayed_texts parts)
              (ap (λ (t : Text). ok (Value.string t)) (join-split_text 0 s)),
        )
