-- ===== src/Gate/Best.antt =====
-- src/controller/auth_gate.rs: the loop of the selection, and the newest document.
use nexus_net.Base.{
  ℕ, ◌<◌, ap, sym, ◌∙◌, Bool-cases, ◌≤◌, ◌≡◌, ◌⊎◌, inl, inr, refl, ltb, Option, none, some, List,
  [], ◌∷◌, Eq, ok, arith, All, Result-cases,
}
use nexus_net.Gate.Select.{weigh, select_best}

module _ {Doc : Type 0} ⦃e : Eq Doc⦄ (version : Doc → ℕ) where
  -- A verified document is no newer than `best`, and the same if it has its version.
  abbrev pub NoBetter : Doc → Option (Doc × ℕ) → Type 0
  NoBetter best none = Unit {0}
  NoBetter best (some (doc, size)) =
      (version doc ≤ version best) × (version doc ≡ version best → doc ≡ best)

  -- A verified document is one of those that were found.
  abbrev pub Among : Doc × ℕ → List (Option (Doc × ℕ)) → Type 0
  Among k [] = ⊥
  Among k (x ∷ xs) = (x ≡ some k) ⊎ Among k xs

  record Chosen (b : Doc) (l : List (Option (Doc × ℕ))) (c : Doc × ℕ) : Type 0 where
    newer : version b ≤ version c.0
    same : version b ≡ version c.0 → b ≡ c.0
    best : All (NoBetter c.0) l

  weigh-some :
      (current doc : Doc) (n size : ℕ) (next : Option (Doc × ℕ))
      → weigh version (some (current, n)) (doc, size) ≡ ok next
      → ((next ≡ some (doc, size)) × (version current < version doc))
        ⊎ ((next ≡ some (current, n))
            × (version doc ≤ version current)
            × (version doc ≡ version current → doc ≡ current))
  unfolding weigh
  weigh-some current doc n size next h = elim (Bool-cases (ltb (version current) (version doc))) [
    | inl newer ↦ inl (ground arith, ground arith)
    | inr older ↦ inr (ground arith, ground arith, λ same. ground (arith, e.beq_iff doc current))
  ]

  select_best-some :
      (l : List (Option (Doc × ℕ))) (b : Doc) (n : ℕ) (r : Option (Doc × ℕ))
      → select_best version (some (b, n)) l ≡ ok r
      → (c : Doc × ℕ) × (r ≡ some c) × Chosen b l c × ((c ≡ (b, n)) ⊎ Among c l)
  unfolding select_best
  select_best-some [] b n r h =
      ((b, n), ground arith, record { newer = omega arith; same = λ _. refl; best = tt }, inl refl)
  select_best-some (none ∷ l) b n r h =
      let (c, eq, chosen, from) = select_best-some l b n r h in
      (
        c,
        eq,
        record { newer = chosen.newer; same = chosen.same; best = (tt, chosen.best) },
        elim from [ inl here ↦ inl here | inr there ↦ inr (inr there) ],
      )
  select_best-some (some (doc, size) ∷ l) b n r h =
      elim (Result-cases (weigh version (some (b, n)) (doc, size))) [
        | inr (bad, eq) ↦ absurd (ground arith)
        | inl (next, eq) ↦
            let rest : select_best version next l ≡ ok r = rw (eq, select_best) at h in
            elim (weigh-some b doc n size next eq) [
              | inl (is_doc, less) ↦
                  let (c, found, chosen, from) =
                    select_best-some l doc size r (rw is_doc at rest) in
                  (
                    c,
                    found,
                    record {
                      newer = omega (arith, chosen.newer);
                      same = λ same. absurd (omega (arith, chosen.newer));
                      best = ((chosen.newer, chosen.same), chosen.best);
                    },
                    elim from [
                      | inl here ↦ inr (inl (ap some (sym here)))
                      | inr there ↦ inr (inr there)
                    ],
                  )
              | inr (is_b, le, agree) ↦
                  let (c, found, chosen, from) = select_best-some l b n r (rw is_b at rest) in
                  (
                    c,
                    found,
                    record {
                      newer = chosen.newer;
                      same = chosen.same;
                      best = (
                        (
                          omega (arith, chosen.newer),
                          λ same.
                              agree (omega (arith, chosen.newer, same))
                              ∙ chosen.same (omega (arith, chosen.newer, same)),
                        ),
                        chosen.best,
                      );
                    },
                    elim from [ inl here ↦ inl here | inr there ↦ inr (inr there) ],
                  )
            ]
      ]

  -- None of the records was verified.
  abbrev pub NoneVerified : List (Option (Doc × ℕ)) → Type 0
  NoneVerified = All (λ x. x ≡ none)

  -- If the selection succeeds, either no record was verified, or the result is one of the verified
  -- documents, none of them is newer, and those of its version are equal to it.
  pub select_best_cases :
      (l : List (Option (Doc × ℕ))) (r : Option (Doc × ℕ))
      → select_best version none l ≡ ok r
      → ((r ≡ none) × NoneVerified l)
        ⊎ ((c : Doc × ℕ) × (r ≡ some c) × Among c l × All (NoBetter c.0) l)
  unfolding select_best weigh
  select_best_cases [] r h = inl (ground arith, tt)
  select_best_cases (none ∷ l) r h = elim (select_best_cases l r h) [
    | inl (eq, all) ↦ inl (eq, (refl, all))
    | inr (c, eq, from, best) ↦ inr (c, eq, inr from, (tt, best))
  ]
  select_best_cases (some (doc, size) ∷ l) r h =
      let (c, eq, chosen, from) = select_best-some l doc size r h in
      inr (
        c,
        eq,
        elim from [ inl here ↦ inl (ap some (sym here)) | inr there ↦ inr there ],
        ((chosen.newer, chosen.same), chosen.best),
      )
