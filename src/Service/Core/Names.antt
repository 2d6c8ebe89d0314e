-- ===== src/Service/Core/Names.antt =====
-- The names that the pattern of app/domain/services/base.py lets through.
use mc_admin.Base.{
  Text, true, false, ◌&&◌, [], ◌∷◌, ◌++◌, ◌≡◌, refl, ap, arith, leb, ◌==◌, ==_iff, all, length, ◌⊎◌,
  inl, inr, ◌↔◌, Bool-cases, ◌∙◌, sym, subst,
}
use mc_admin.Service.Core.{is_word, matches_name, drop_newline}

-- Three to sixteen letters, digits and underscores.
pub IsName : Text → Type 0
IsName name = (all is_word name && leb 3 (length name) && leb (length name) 16) ≡ true

drop_newline-append : (name : Text) → drop_newline (name ++ 10 ∷ []) ≡ name
unfolding drop_newline
drop_newline-append [] = refl
drop_newline-append (c ∷ []) = refl
drop_newline-append (c ∷ (x ∷ s)) = ap (λ t. c ∷ t) (drop_newline-append (x ∷ s))

-- Nothing is dropped, or a newline at the end.
drop_newline-cases : (s : Text) → (drop_newline s ≡ s) ⊎ (s ≡ drop_newline s ++ 10 ∷ [])
unfolding drop_newline
drop_newline-cases [] = inl refl
drop_newline-cases (c ∷ []) = elim (Bool-cases (c == 10)) [
  | inl newline ↦ inr (rw newline (ap (λ x. x ∷ []) ((==_iff c 10).0 newline)))
  | inr other ↦ inl (rw other)
]
drop_newline-cases (c ∷ (x ∷ s)) = elim (drop_newline-cases (x ∷ s)) [
  | inl same ↦ inl (ap (λ t. c ∷ t) same)
  | inr shorter ↦ inr (ap (λ t. c ∷ t) shorter)
]

newline_is_no_word : (name : Text) → all is_word (name ++ 10 ∷ []) ≡ false
unfolding is_word
newline_is_no_word [] = refl
newline_is_no_word (c ∷ name) = ground (arith, newline_is_no_word name)

newline-IsName : (name : Text) → IsName (name ++ 10 ∷ []) → ⊥
unfolding IsName
newline-IsName name h = ground (arith, newline_is_no_word name, h)

-- The pattern lets a text through exactly if it is three to sixteen letters, digits and
-- underscores, or these with a newline after them.
pub matches_name-IsName :
    (s : Text)
    → (matches_name s ≡ true) ↔ (IsName s ⊎ ((name : Text) × (s ≡ name ++ 10 ∷ []) × IsName name))
unfolding matches_name IsName
matches_name-IsName s = (
  λ h. elim (drop_newline-cases s) [
    | inl same ↦ inl (subst IsName same h)
    | inr shorter ↦ inr (drop_newline s, shorter, h)
  ],
  λ o. elim o [
    | inl named ↦ elim (drop_newline-cases s) [
      | inl same ↦ subst IsName (sym same) named
      | inr shorter ↦ absurd (newline-IsName (drop_newline s) (subst IsName shorter named))
    ]
    | inr (name, e, named) ↦ subst IsName (sym (ap drop_newline e ∙ drop_newline-append name)) named
  ],
)
