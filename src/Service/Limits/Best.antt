-- ===== src/Service/Limits/Best.antt =====
-- Which cap `selectPolicyCap` selects.
use modelo_man.Base.{
  ◌<◌, String, pos, ◌≤ℤ◌, Bool, true, false, ◌⊎◌, inl, inr, Option, none, some, List, [], ◌∷◌, All,
  ◌≡◌, refl, arith, Bool-cases, sym, subst,
}
use mathlib.Core.List.{Memᴰ}
use modelo_man.Domain.{PolicyCap}
use modelo_man.Service.Limits.{
  cap_applies, specificity, Choice, no_choice, improves, consider, select_from, select_policy_cap,
}

module _ {F : Type 0} (provider_type provider model : String) where
  abbrev applies : PolicyCap F → Bool
  applies = cap_applies provider_type provider model

  -- `c` is at least as good as `d`: more specific, or as specific with at least its priority.
  abbrev pub Dominates : PolicyCap F → PolicyCap F → Type 0
  Dominates c d =
      (specificity d < specificity c)
      ⊎ ((specificity d ≡ specificity c) × (d.priority ≤ℤ c.priority))

  -- The cap that was selected applies and dominates each cap of the list that applies.
  abbrev pub IsBest : PolicyCap F → List (PolicyCap F) → Type 0
  IsBest c caps = All (λ d. applies d ≡ true → Dominates c d) caps

  -- What the variables of the loop say of the selected cap.
  abbrev Describes : Choice F → Option (PolicyCap F) → Type 0
  Describes b none = Unit
  Describes b (some c) =
      (b.best_specificity ≡ pos (specificity c))
      × (b.best_priority ≡ c.priority)
      × (applies c ≡ true)

  abbrev Over : PolicyCap F → Option (PolicyCap F) → Type 0
  Over c none = Unit
  Over c (some d) = Dominates c d

  abbrev chosen : PolicyCap F → Choice F
  chosen c = record {
    selected = some c;
    best_specificity = pos (specificity c);
    best_priority = c.priority;
  }

  abbrev Beaten : Option (PolicyCap F) → PolicyCap F → Type 0
  Beaten none d = applies d ≡ false
  Beaten (some c) d = applies d ≡ true → Dominates c d

  improves-Dominates :
      (b : Choice F) (c d : PolicyCap F)
      → Describes b (some c)
      → ((improves b d ≡ true) × Dominates d c) ⊎ ((improves b d ≡ false) × Dominates c d)
  unfolding improves
  improves-Dominates b c d (s, p, _) = rw (s, p) (ground arith)

  -- Each round takes the cap, which dominates the one before, or passes over it with reason.
  consider_cases :
      (o : Option (PolicyCap F)) (b : Choice F) (d : PolicyCap F)
      → b.selected ≡ o
      → Describes b o
      → ((consider provider_type provider model b d ≡ chosen d) × (applies d ≡ true) × Over d o)
        ⊎ ((consider provider_type provider model b d ≡ b) × Beaten o d)
  unfolding consider
  consider_cases none b d e k = elim (Bool-cases (applies d)) [
    | inl t ↦ inl (simp (t, e), t, tt)
    | inr f ↦ inr (simp f, f)
  ]
  consider_cases (some c) b d e k = elim (Bool-cases (applies d)) [
    | inl t ↦ elim (improves-Dominates b c d k) [
      | inl (i, better) ↦ inl (simp (t, e, i), t, better)
      | inr (i, worse) ↦ inr (simp (t, e, i), λ _. worse)
    ]
    | inr f ↦ inr (simp f, λ t. cc)
  ]

  Dominates-trans : (c d e : PolicyCap F) → Dominates c d → Dominates d e → Dominates c e
  Dominates-trans c d e p q = omega arith

  Dominates-refl : (c : PolicyCap F) → Dominates c c
  Dominates-refl c = inr (refl, omega arith)

  -- What the rest of the loop makes of the choice so far.
  abbrev Result : Option (PolicyCap F) → List (PolicyCap F) → Option (PolicyCap F) → Type 0
  Result o caps none = (o ≡ none) × All (λ d. applies d ≡ false) caps
  Result o caps (some c) =
      ((o ≡ some c) ⊎ Memᴰ c caps) × (applies c ≡ true) × IsBest c caps × Over c o

  keeps :
      {o : Option (PolicyCap F)} {c d : PolicyCap F} {caps : List (PolicyCap F)}
      → (o ≡ some c) ⊎ Memᴰ c caps
      → (o ≡ some c) ⊎ Memᴰ c (d ∷ caps)
  keeps (inl e) = inl e
  keeps (inr m) = inr (Memᴰ.tail m)

  came_from :
      {c d : PolicyCap F} {caps : List (PolicyCap F)}
      → (some d ≡ some c) ⊎ Memᴰ c caps
      → Memᴰ c (d ∷ caps)
  came_from (inl e) = Memᴰ.head cc
  came_from (inr m) = Memᴰ.tail m

  Result-passed :
      (o : Option (PolicyCap F)) (d : PolicyCap F) (caps : List (PolicyCap F))
      (r : Option (PolicyCap F))
      → Beaten o d
      → Result o caps r
      → Result o (d ∷ caps) r
  Result-passed none d caps none beaten (e, rest) = (e, (beaten, rest))
  Result-passed (some b) d caps none beaten (e, rest) = cc
  Result-passed none d caps (some c) beaten (from, t, best, above) =
      (keeps from, t, ((λ u. cc), best), tt)
  Result-passed (some b) d caps (some c) beaten (from, t, best, above) =
      (keeps from, t, ((λ u. Dominates-trans c b d above (beaten u)), best), above)

  Result-taken :
      (o : Option (PolicyCap F)) (d : PolicyCap F) (caps : List (PolicyCap F))
      (r : Option (PolicyCap F))
      → applies d ≡ true
      → Over d o
      → Result (some d) caps r
      → Result o (d ∷ caps) r
  Result-taken o d caps none t over (e, rest) = cc
  Result-taken none d caps (some c) t over (from, t', best, above) =
      (inr (came_from from), t', ((λ _. above), best), tt)
  Result-taken (some b) d caps (some c) t over (from, t', best, above) =
      (inr (came_from from), t', ((λ _. above), best), Dominates-trans c d b above over)

  select_from-Result :
      (o : Option (PolicyCap F)) (b : Choice F) (caps : List (PolicyCap F))
      → b.selected ≡ o
      → Describes b o
      → Result o caps (select_from provider_type provider model b caps).selected
  unfolding select_from
  select_from-Result none b [] e k = subst (Result none []) (sym e) (refl, tt)
  select_from-Result (some c) b [] e k =
      subst (Result (some c) []) (sym e) (inl refl, k.2, tt, Dominates-refl c)
  select_from-Result o b (d ∷ caps) e k =
      let after : Choice F → Type 0 =
        λ b'. Result o (d ∷ caps) (select_from provider_type provider model b' caps).selected in
      elim (consider_cases o b d e k) [
        | inl (taken, t, over) ↦ subst after (sym taken) (
            Result-taken o d caps _ t over
              (select_from-Result (some d) (chosen d) caps refl (refl, refl, t)))
        | inr (passed, beaten) ↦
            subst after (sym passed)
              (Result-passed o d caps _ beaten (select_from-Result o b caps e k))
      ]

  -- What is selected from the caps: none, and no cap applies; or a cap of the list that applies and
  -- dominates every cap of the list that applies.
  abbrev pub IsChosen : Option (PolicyCap F) → List (PolicyCap F) → Type 0
  IsChosen none caps = All (λ d. applies d ≡ false) caps
  IsChosen (some c) caps = Memᴰ c caps × (applies c ≡ true) × IsBest c caps

  Result-IsChosen :
      (o : Option (PolicyCap F)) (caps : List (PolicyCap F)) → Result none caps o → IsChosen o caps
  Result-IsChosen none caps (_, rest) = rest
  Result-IsChosen (some c) caps (inl e, t, best, _) = cc
  Result-IsChosen (some c) caps (inr m, t, best, _) = (m, t, best)

  -- The selection returns no cap exactly where none is active and matches, and otherwise one of the
  -- caps that are active and match, with no other of them more specific, or as specific and of a
  -- higher priority.
  pub select_policy_cap-IsChosen :
      (caps : List (PolicyCap F))
      → IsChosen (select_policy_cap caps provider_type provider model) caps
  unfolding select_policy_cap
  select_policy_cap-IsChosen caps =
      Result-IsChosen _ caps (select_from-Result none no_choice caps refl tt)
