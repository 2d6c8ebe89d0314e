-- ===== src/TempBans/Dues.antt =====
-- app/adapters/temp_bans.py: what is due of the pending unbans, and what is due without some of them.
use mc_admin.Base.{
  ◌≡◌, refl, sym, ap, arith, inl, inr, ℕ, Bool, true, false, Option, none, some, List, [], ◌∷◌, not,
  ◌||◌, any, keep, All, if◌then◌else◌, subst, leb, ◌⊎◌,
}
use mc_admin.TempBans.{Moment, naive, aware, PendingUnban, is_past, add_due, dues}

unfoldable pub is_naive : Moment → Bool
is_naive (naive t) = true
is_naive (aware t) = false

pub dues_naive :
    (now : ℕ) (ps : List PendingUnban)
    → any (λ (p : PendingUnban). is_naive p.unban_at) ps ≡ true
    → dues now ps ≡ none
unfolding dues add_due is_past is_naive
dues_naive now [] h = ground (arith, h)
dues_naive now (p ∷ ps) h = step p.unban_at h (λ rest. dues_naive now ps rest)
  where
    others : Bool
    others = any (λ (q : PendingUnban). is_naive q.unban_at) ps

    step :
        (m : Moment)
        → is_naive m || others ≡ true
        → (others ≡ true → dues now ps ≡ none)
        → add_due p (is_past now m) (dues now ps) ≡ none
    step (naive t) h rest = refl
    step (aware t) h rest = rw (rest h) refl

or_empty : Option (List PendingUnban) → List PendingUnban
or_empty none = []
or_empty (some ps) = ps

-- Without those of a list that holds what is due, nothing is due.
pub dues-keep :
    (now : ℕ) (g : PendingUnban → Bool) (qs ps : List PendingUnban)
    → dues now qs ≡ some ps
    → All (λ (p : PendingUnban). g p ≡ true) ps
    → dues now (keep (λ (q : PendingUnban). not (g q)) qs) ≡ some []
unfolding dues add_due is_past or_empty
dues-keep now g [] ps h all = refl
dues-keep now g (q ∷ qs) ps h all =
    let (rs, (o, (rest, why))) = split q.unban_at (dues now qs) h in
    left why (dues-keep now g qs rs o rest)
  where
    kept_of : List PendingUnban
    kept_of = keep (λ (x : PendingUnban). not (g x)) qs

    by_test :
        (b : Bool) (rs : List PendingUnban)
        → (if b then q ∷ rs else rs) ≡ ps
        → All (λ (p : PendingUnban). g p ≡ true) rs × ((b ≡ false) ⊎ (g q ≡ true))
    by_test true rs e =
        let found = subst (All (λ (p : PendingUnban). g p ≡ true)) (sym e) all in
        (found.1, inr found.0)
    by_test false rs e = (subst (All (λ (p : PendingUnban). g p ≡ true)) (sym e) all, inl refl)

    split :
        (m : Moment) (o : Option (List PendingUnban))
        → add_due q (is_past now m) o ≡ some ps
        → (rs : List PendingUnban) × ((o ≡ some rs)
            × (All (λ (p : PendingUnban). g p ≡ true) rs
                × ((is_past now m ≡ some false) ⊎ (g q ≡ true))))
    split (naive t) o e = ground (arith, e)
    split (aware t) none e = ground (arith, e)
    split (aware t) (some rs) e =
        let (rest, why) = by_test (leb t now) rs (ap or_empty e) in
        (rs, (refl, (rest, elim why [ inl x ↦ inl (ap some x) | inr x ↦ inr x ])))

    left :
        (is_past now q.unban_at ≡ some false) ⊎ (g q ≡ true)
        → dues now kept_of ≡ some []
        → dues now (if not (g q) then q ∷ kept_of else kept_of) ≡ some []
    left (inr x) r = rw x r
    left (inl x) r = by_kept (g q)
      where
        by_kept : (b : Bool) → dues now (if not b then q ∷ kept_of else kept_of) ≡ some []
        by_kept true = r
        by_kept false = rw (x, r) refl
