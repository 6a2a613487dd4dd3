-- ===== src/Host/MapLetters.antt =====
-- src/host.rs: the letters of the mapping commands and their modes, in mapping_modes.
use vim_script.Prelude.{
  ◌≡◌, refl, sym, subst, ◌∙◌, inl, inr, true, none, some, List, [], ◌∷◌, Text, text, text_eq,
  text_eq_iff, arith, Bool-cases,
}
use vim_script.Ast.{MapMode}
use vim_script.Host.MapNames.{prefix_modes}

-- The letters before `map`, with their modes.
pub data Prefixed : Text → List MapMode → Type 0 where
  all_modes :
      Prefixed []
        (MapMode.normal ∷ (MapMode.visual ∷ (MapMode.select ∷ (MapMode.operator_pending ∷ []))))
  letter_n : Prefixed (text "n") (MapMode.normal ∷ [])
  letter_v : Prefixed (text "v") (MapMode.visual ∷ (MapMode.select ∷ []))
  letter_x : Prefixed (text "x") (MapMode.visual ∷ [])
  letter_s : Prefixed (text "s") (MapMode.select ∷ [])
  letter_o : Prefixed (text "o") (MapMode.operator_pending ∷ [])
  letter_i : Prefixed (text "i") (MapMode.insert ∷ [])
  letter_c : Prefixed (text "c") (MapMode.command_line ∷ [])
  letter_l : Prefixed (text "l") (MapMode.lang_arg ∷ [])
  letter_t : Prefixed (text "t") (MapMode.terminal ∷ [])

chosen :
    (p q : Text) (ms modes : List MapMode)
    → Prefixed q ms
    → text_eq p q ≡ true
    → some ms ≡ some modes
    → Prefixed p modes
chosen p q ms modes prefixed h e =
    let same : ms ≡ modes = ground (arith, e) in
    subst (λ x. Prefixed x modes) (sym ((text_eq_iff p q).0 h)) (subst (Prefixed q) same prefixed)

pub prefix_modes-Prefixed :
    (p : Text) (modes : List MapMode) → prefix_modes p ≡ some modes → Prefixed p modes
unfolding prefix_modes
prefix_modes-Prefixed p modes e = elim (Bool-cases (text_eq p [])) [
  | inl h ↦ chosen p [] _ modes all_modes h (sym (rw (h, prefix_modes) refl) ∙ e)
  | inr h0 ↦ elim (Bool-cases (text_eq p (text "n"))) [
    | inl h ↦ chosen p (text "n") _ modes letter_n h (sym (rw (h0, prefix_modes, h) refl) ∙ e)
    | inr h1 ↦ elim (Bool-cases (text_eq p (text "v"))) [
      | inl h ↦ chosen p (text "v") _ modes letter_v h (sym (rw (h0, prefix_modes, h1, h) refl) ∙ e)
      | inr h2 ↦ elim (Bool-cases (text_eq p (text "x"))) [
        | inl h ↦
            chosen p (text "x") _ modes letter_x h (sym (rw (h0, prefix_modes, h1, h2, h) refl) ∙ e)
        | inr h3 ↦ elim (Bool-cases (text_eq p (text "s"))) [
          | inl h ↦
              chosen p (text "s") _ modes letter_s h
                (sym (rw (h0, prefix_modes, h1, h2, h3, h) refl) ∙ e)
          | inr h4 ↦ elim (Bool-cases (text_eq p (text "o"))) [
            | inl h ↦
                chosen p (text "o") _ modes letter_o h
                  (sym (rw (h0, prefix_modes, h1, h2, h3, h4, h) refl) ∙ e)
            | inr h5 ↦ elim (Bool-cases (text_eq p (text "i"))) [
              | inl h ↦
                  chosen p (text "i") _ modes letter_i h
                    (sym (rw (h0, prefix_modes, h1, h2, h3, h4, h5, h) refl) ∙ e)
              | inr h6 ↦ elim (Bool-cases (text_eq p (text "c"))) [
                | inl h ↦
                    chosen p (text "c") _ modes letter_c h
                      (sym (rw (h0, prefix_modes, h1, h2, h3, h4, h5, h6, h) refl) ∙ e)
                | inr h7 ↦ elim (Bool-cases (text_eq p (text "l"))) [
                  | inl h ↦
                      chosen p (text "l") _ modes letter_l h
                        (sym (rw (h0, prefix_modes, h1, h2, h3, h4, h5, h6, h7, h) refl) ∙ e)
                  | inr h8 ↦ elim (Bool-cases (text_eq p (text "t"))) [
                    | inl h ↦
                        chosen p (text "t") _ modes letter_t h
                          (sym (rw (h0, prefix_modes, h1, h2, h3, h4, h5, h6, h7, h8, h) refl) ∙ e)
                    | inr h9 ↦
                        let bad : none ≡ some modes =
                          sym (rw (h0, prefix_modes, h1, h2, h3, h4, h5, h6, h7, h8, h9) refl)
                          ∙ e in
                        ground (arith, bad)
                  ]
                ]
              ]
            ]
          ]
        ]
      ]
    ]
  ]
]
