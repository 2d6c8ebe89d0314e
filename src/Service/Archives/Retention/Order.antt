-- ===== src/Service/Archives/Retention/Order.antt =====
-- Archives in the order of their creation, the newest first, and those under a prefix.
use mc_admin.Base.{
  ◌≡◌, refl, ap, ◌∙◌, inl, inr, arith, ℕ, ◌≤◌, Text, true, List, [], ◌∷◌, leb, All, Bool-cases,
}
use mathlib.Core.List.{Perm}
use mathlib.Core.List.Perm
use mc_admin.Service.{BackupArchive}
use mc_admin.Service.Archives.{starts_with, under, insert_newest, by_newest}

unfoldable pub IsSorted : List BackupArchive → Type 0
IsSorted [] = Unit
IsSorted (a ∷ archives) =
    All (λ (b : BackupArchive). b.created_at ≤ a.created_at) archives × IsSorted archives

-- No older than a bound.
abbrev pub Bounded : ℕ → List BackupArchive → Type 0
Bounded t archives = All (λ (b : BackupArchive). b.created_at ≤ t) archives

Bounded-insert :
    (t : ℕ) (a : BackupArchive) (l : List BackupArchive)
    → a.created_at ≤ t
    → Bounded t l
    → Bounded t (insert_newest a l)
unfolding insert_newest
Bounded-insert t a [] h hs = (h, tt)
Bounded-insert t a (b ∷ l) h hs = elim (Bool-cases (leb b.created_at a.created_at)) [
  | inl newer ↦ rw newer (h, hs)
  | inr older ↦ rw older (hs.0, Bounded-insert t a l h hs.1)
]

Bounded-le : (t u : ℕ) (l : List BackupArchive) → t ≤ u → Bounded t l → Bounded u l
Bounded-le t u [] h hs = tt
Bounded-le t u (b ∷ l) h hs = (omega (arith, hs.0), Bounded-le t u l h hs.1)

IsSorted-insert :
    (a : BackupArchive) (l : List BackupArchive) → IsSorted l → IsSorted (insert_newest a l)
unfolding IsSorted insert_newest
IsSorted-insert a [] h = (tt, tt)
IsSorted-insert a (b ∷ l) h = elim (Bool-cases (leb b.created_at a.created_at)) [
  | inl newer ↦
      rw newer ((ground arith, Bounded-le b.created_at a.created_at l (ground arith) h.0), h)
  | inr older ↦
      rw older (Bounded-insert b.created_at a l (ground arith) h.0, IsSorted-insert a l h.1)
]

pub IsSorted-by_newest : (l : List BackupArchive) → IsSorted (by_newest l)
unfolding by_newest IsSorted
IsSorted-by_newest [] = tt
IsSorted-by_newest (a ∷ l) = IsSorted-insert a (by_newest l) (IsSorted-by_newest l)

Bounded-under :
    (prefix : Text) (t : ℕ) (l : List BackupArchive) → Bounded t l → Bounded t (under prefix l)
unfolding under
Bounded-under prefix t [] h = tt
Bounded-under prefix t (b ∷ l) h = elim (Bool-cases (starts_with prefix b.filename)) [
  | inl inside ↦ rw inside (h.0, Bounded-under prefix t l h.1)
  | inr outside ↦ rw outside (Bounded-under prefix t l h.1)
]

pub IsSorted-under :
    (prefix : Text) (l : List BackupArchive) → IsSorted l → IsSorted (under prefix l)
unfolding under IsSorted
IsSorted-under prefix [] h = tt
IsSorted-under prefix (b ∷ l) h = elim (Bool-cases (starts_with prefix b.filename)) [
  | inl inside ↦ rw inside (Bounded-under prefix b.created_at l h.0, IsSorted-under prefix l h.1)
  | inr outside ↦ rw outside (IsSorted-under prefix l h.1)
]

insert_newest-perm : (a : BackupArchive) (l : List BackupArchive) → Perm (insert_newest a l) (a ∷ l)
unfolding insert_newest
insert_newest-perm a [] = Perm.rfl
insert_newest-perm a (b ∷ l) = elim (Bool-cases (leb b.created_at a.created_at)) [
  | inl newer ↦ rw newer Perm.rfl
  | inr older ↦ rw older (Perm.trans (Perm.cons b (insert_newest-perm a l)) (Perm.swap a b l))
]

pub by_newest-perm : (l : List BackupArchive) → Perm (by_newest l) l
unfolding by_newest
by_newest-perm [] = Perm.rfl
by_newest-perm (a ∷ l) =
    Perm.trans (insert_newest-perm a (by_newest l)) (Perm.cons a (by_newest-perm l))

insert_newest_first :
    (a : BackupArchive) (l : List BackupArchive)
    → Bounded a.created_at l
    → insert_newest a l ≡ a ∷ l
unfolding insert_newest
insert_newest_first a [] h = refl
insert_newest_first a (b ∷ l) h =
    let newer : leb b.created_at a.created_at ≡ true = ground (arith, h.0) in rw newer refl

pub by_newest_sorted : (l : List BackupArchive) → IsSorted l → by_newest l ≡ l
unfolding by_newest IsSorted
by_newest_sorted [] h = refl
by_newest_sorted (a ∷ l) h =
    ap (insert_newest a) (by_newest_sorted l h.1) ∙ insert_newest_first a l h.0

abbrev pub Inside : Text → List BackupArchive → Type 0
Inside prefix l = All (λ (b : BackupArchive). starts_with prefix b.filename ≡ true) l

pub Inside-under : (prefix : Text) (l : List BackupArchive) → Inside prefix (under prefix l)
unfolding under
Inside-under prefix [] = tt
Inside-under prefix (b ∷ l) = elim (Bool-cases (starts_with prefix b.filename)) [
  | inl inside ↦ rw inside (inside, Inside-under prefix l)
  | inr outside ↦ rw outside (Inside-under prefix l)
]

pub under-Inside : (prefix : Text) (l : List BackupArchive) → Inside prefix l → under prefix l ≡ l
unfolding under
under-Inside prefix [] h = refl
under-Inside prefix (b ∷ l) h = rw (h.0, under-Inside prefix l h.1) refl

module _ (prefix : Text) where
  under_cons :
      (b : BackupArchive) (l1 l2 : List BackupArchive)
      → Perm (under prefix l1) (under prefix l2)
      → Perm (under prefix (b ∷ l1)) (under prefix (b ∷ l2))
  unfolding under
  under_cons b l1 l2 h = elim (Bool-cases (starts_with prefix b.filename)) [
    | inl inside ↦ rw inside (Perm.cons b h)
    | inr outside ↦ rw outside h
  ]

  under_swap :
      (a b : BackupArchive) (l : List BackupArchive)
      → Perm (under prefix (b ∷ (a ∷ l))) (under prefix (a ∷ (b ∷ l)))
  unfolding under
  under_swap a b l = elim (Bool-cases (starts_with prefix a.filename)) [
    | inl inside ↦ elim (Bool-cases (starts_with prefix b.filename)) [
      | inl both ↦ rw (inside, both) (Perm.swap a b (under prefix l))
      | inr outside ↦ rw (inside, outside) Perm.rfl
    ]
    | inr outside ↦ rw outside Perm.rfl
  ]

  under_insert-perm :
      (a : BackupArchive) (l : List BackupArchive)
      → Perm (under prefix (insert_newest a l)) (under prefix (a ∷ l))
  unfolding insert_newest
  under_insert-perm a [] = Perm.rfl
  under_insert-perm a (b ∷ l) = elim (Bool-cases (leb b.created_at a.created_at)) [
    | inl newer ↦ rw newer Perm.rfl
    | inr older ↦ rw older (
        Perm.trans (under_cons b (insert_newest a l) (a ∷ l) (under_insert-perm a l))
          (under_swap a b l))
  ]

  pub under-by_newest-perm :
      (l : List BackupArchive) → Perm (under prefix (by_newest l)) (under prefix l)
  unfolding by_newest
  under-by_newest-perm [] = Perm.rfl
  under-by_newest-perm (a ∷ l) =
      Perm.trans (under_insert-perm a (by_newest l))
        (under_cons a (by_newest l) l (under-by_newest-perm l))
