-- ===== src/Runtime/Builtins/Sorting.antt =====
-- src/runtime/builtins.rs: sort.
use vim_script.Prelude.{
  ◌≡◌, refl, sym, subst, true, false, List, [], ◌∷◌, Text, arith, text_lt, text_eq, text_eq_iff,
  if◌then◌else◌, Bool-cases, inl, inr,
}
use vim_script.Runtime.Value.{Value, Values, to_list, of_list, to_list-of_list, FloatOps}
use vim_script.Runtime.Error.{ok}
use vim_script.Runtime.Builtins.Display.{vim_display}
use vim_script.Runtime.Builtins.Collections.{insert_sorted, sort_by_display, sort}

text_lt_asymm : (s t : Text) → text_lt s t ≡ true → text_lt t s ≡ false
unfolding text_lt
text_lt_asymm s [] h = ground arith
text_lt_asymm [] (b ∷ t) h = ground arith
text_lt_asymm (a ∷ s) (b ∷ t) h = ground (arith, text_lt_asymm s t)

text_lt_irrefl : (s : Text) → text_lt s s ≡ false
unfolding text_lt
text_lt_irrefl [] = refl
text_lt_irrefl (a ∷ s) = ground (arith, text_lt_irrefl s)

module _ (fl : FloatOps) where
  -- No value is above its successor by its text.
  abbrev pub InOrder : List Value → Type 0
  InOrder [] = Unit {0}
  InOrder (v ∷ []) = Unit {0}
  InOrder (v ∷ w ∷ ws) = (text_lt (vim_display fl w) (vim_display fl v) ≡ false) × InOrder (w ∷ ws)

  -- The values of a list that have a given text, in their order.
  unfoldable pub displayed_as : Text → List Value → List Value
  displayed_as s [] = []
  displayed_as s (v ∷ vs) =
      let rest = displayed_as s vs in if text_eq (vim_display fl v) s then v ∷ rest else rest

  cons-insert_sorted-InOrder :
      (u v : Value) (ws : List Value)
      → text_lt (vim_display fl v) (vim_display fl u) ≡ false
      → InOrder (u ∷ ws)
      → InOrder (u ∷ insert_sorted fl v ws)
  unfolding insert_sorted
  cons-insert_sorted-InOrder u v [] h o = (h, tt)
  cons-insert_sorted-InOrder u v (w ∷ ws) h (k, o) =
      elim (Bool-cases (text_lt (vim_display fl w) (vim_display fl v))) [
        | inl below ↦ rw below (
          k,
          cons-insert_sorted-InOrder w v ws
              (text_lt_asymm (vim_display fl w) (vim_display fl v) below) o,
        )
        | inr above ↦ rw above (h, (above, o))
      ]

  insert_sorted-InOrder :
      (v : Value) (ws : List Value) → InOrder ws → InOrder (insert_sorted fl v ws)
  unfolding insert_sorted
  insert_sorted-InOrder v [] o = tt
  insert_sorted-InOrder v (w ∷ ws) o =
      elim (Bool-cases (text_lt (vim_display fl w) (vim_display fl v))) [
        | inl below ↦ rw below (
            cons-insert_sorted-InOrder w v ws
              (text_lt_asymm (vim_display fl w) (vim_display fl v) below) o)
        | inr above ↦ rw above (above, o)
      ]

  insert_sorted-displayed_as :
      (s : Text) (v : Value) (ws : List Value)
      → displayed_as s (insert_sorted fl v ws) ≡ displayed_as s (v ∷ ws)
  unfolding insert_sorted displayed_as
  insert_sorted-displayed_as s v [] = refl
  insert_sorted-displayed_as s v (w ∷ ws) = ground (
    arith,
    insert_sorted-displayed_as s v ws,
    text_eq_iff (vim_display fl v) s,
    text_eq_iff (vim_display fl w) s,
    text_lt_irrefl s,
  )

  sort_by_display-InOrder : (vs : List Value) → InOrder (sort_by_display fl vs)
  unfolding sort_by_display
  sort_by_display-InOrder [] = tt
  sort_by_display-InOrder (v ∷ vs) =
      insert_sorted-InOrder v (sort_by_display fl vs) (sort_by_display-InOrder vs)

  sort_by_display-displayed_as :
      (s : Text) (vs : List Value) → displayed_as s (sort_by_display fl vs) ≡ displayed_as s vs
  unfolding sort_by_display displayed_as
  sort_by_display-displayed_as s [] = refl
  sort_by_display-displayed_as s (v ∷ vs) = ground (
    arith,
    insert_sorted-displayed_as s v (sort_by_display fl vs),
    sort_by_display-displayed_as s vs,
  )

  -- `sort` of a list gives a list whose values are in the order of their texts, and in which the
  -- values that share a text are those of the given list, in their old order.
  pub sort-InOrder :
      (vs : Values) (more : List Value)
      → (ws : Values) × (sort fl (Value.list vs ∷ more) ≡ ok (Value.list ws))
        × InOrder (to_list ws)
        × ((s : Text) → displayed_as s (to_list ws) ≡ displayed_as s (to_list vs))
  unfolding sort
  sort-InOrder vs more =
      let sorted = sort_by_display fl (to_list vs) in
      (
        of_list sorted,
        refl,
        subst InOrder (sym (to_list-of_list sorted)) (sort_by_display-InOrder (to_list vs)),
        λ s. rw (to_list-of_list sorted) (sort_by_display-displayed_as s (to_list vs)),
      )
