-- ===== src/Gate/Chosen.antt =====
-- src/controller/auth_gate.rs: the documents that `select_index` and `select_whitelist` choose.
use nexus_net.Base.{
  ℕ, subst, ◌≤◌, ◌≡◌, ◌⊎◌, inl, inr, Option, none, some, List, [], ◌∷◌, map, Name, Eq, Result, ok,
  length, All, arith, Result-cases,
}
use nexus_net.Auth.Documents.{
  AuthNetwork, AuthLib, AuthError, ServiceEntry, IndexDoc, WhitelistDoc, verify_index,
  verify_whitelist,
}
use nexus_net.Auth.Equality.{index_eq, whitelist_eq}
use nexus_net.Auth.Trust.{
  IsTrustedIndex, IsTrustedWhitelist, verify_index_iff, verify_whitelist_iff,
}
use nexus_net.Gate.Select.{verified, select_best, select_index, select_whitelist}
use nexus_net.Gate.Best.{NoBetter, Among, select_best_cases}

-- Some member of the list has the property.
abbrev pub Some {ℓ} : {A : Type ℓ} → (A → Type 0) → List A → Type 0
Some P [] = ⊥
Some P (x ∷ xs) = P x ⊎ Some P xs

module _ {Doc : Type 0} (version : Doc → ℕ) (verify : List ℕ → Result AuthError Doc) where
  -- The document of a record, and its size.
  abbrev pub IsReading : Doc → ℕ → List ℕ → Type 0
  IsReading doc size value = (verify value ≡ ok doc) × (length value ≡ size)

  -- The document of a record, if it has one, is no newer, and the same if its version is.
  abbrev pub IsOlder : Doc → List ℕ → Type 0
  IsOlder doc value =
      (d : Doc)
      → verify value ≡ ok d
      → (version d ≤ version doc) × (version d ≡ version doc → d ≡ doc)

module _ {Doc : Type 0} ⦃e : Eq Doc⦄ (version : Doc → ℕ)
    (verify : List ℕ → Result AuthError Doc) where
  -- The records as the loop of `select_best` reads them.
  abbrev readings : List (List ℕ) → List (Option (Doc × ℕ))
  readings = map (λ (value : List ℕ). verified (length value) (verify value))

  IsReading-verified :
      (value : List ℕ) (doc : Doc) (size : ℕ)
      → verified (length value) (verify value) ≡ some (doc, size)
      → IsReading version verify doc size value
  IsReading-verified value doc size h = elim (Result-cases (verify value)) [
    | inl (d, eq) ↦ (ground arith, ground arith)
    | inr (bad, eq) ↦ absurd (ground arith)
  ]

  Among-Some :
      (records : List (List ℕ)) (doc : Doc) (size : ℕ)
      → Among version (doc, size) (readings records)
      → Some (IsReading version verify doc size) records
  Among-Some [] doc size h = absurd h
  Among-Some (value ∷ rest) doc size h = elim h [
    | inl here ↦ inl (IsReading-verified value doc size here)
    | inr there ↦ inr (Among-Some rest doc size there)
  ]

  NoBetter-IsOlder :
      (value : List ℕ) (doc : Doc)
      → NoBetter version doc (verified (length value) (verify value))
      → IsOlder version verify doc value
  NoBetter-IsOlder value doc h d eq = rw (eq, verified) at h

  NoBetter-All :
      (records : List (List ℕ)) (doc : Doc)
      → All (NoBetter version doc) (readings records)
      → All (IsOlder version verify doc) records
  NoBetter-All [] doc h = tt
  NoBetter-All (value ∷ rest) doc h = (NoBetter-IsOlder value doc h.0, NoBetter-All rest doc h.1)

  chosen :
      (records : List (List ℕ)) (doc : Doc) (size : ℕ)
      → select_best version none (readings records) ≡ ok (some (doc, size))
      → Some (IsReading version verify doc size) records × All (IsOlder version verify doc) records
  chosen records doc size h =
      elim (select_best_cases version (readings records) (some (doc, size)) h) [
        | inl (bad, _) ↦ absurd (ground arith)
        | inr (c, eq, from, best) ↦
            let here : c ≡ (doc, size) = ground arith in
            (
              Among-Some records doc size
                  (subst (λ k. Among version k (readings records)) here from),
              NoBetter-All records doc
                  (subst (λ k. All (NoBetter version k.0) (readings records)) here best),
            )
      ]

Some-imp {ℓ} :
    {A : Type ℓ} {P Q : A → Type 0} (l : List A) → ((x : A) → P x → Q x) → Some P l → Some Q l
Some-imp [] f h = absurd h
Some-imp (x ∷ xs) f h = elim h [ inl here ↦ inl (f x here) | inr there ↦ inr (Some-imp xs f there) ]

module _ {PublicKey Keypair Sign1 : Type 0} (lib : AuthLib PublicKey Keypair Sign1) where
  -- If `select_index` chooses a document, some record of that size holds it as a trusted index, and
  -- the document of any other record that verifies is older or the same.
  pub select_index_newest :
      (records : List (List ℕ)) (net : AuthNetwork PublicKey) (now : ℕ) (doc : IndexDoc) (size : ℕ)
      → select_index lib records net now ≡ ok (some (doc, size))
      → Some (λ value. IsTrustedIndex lib net value now doc × (length value ≡ size)) records
        × All
            (IsOlder (λ (d : IndexDoc). d.version) (λ value. verify_index lib net value now) doc)
            records
  unfolding select_index
  select_index_newest records net now doc size h =
      let (found, best) =
        chosen (λ (d : IndexDoc). d.version) (λ value. verify_index lib net value now) records doc
          size h in
      (
        Some-imp records (λ value r. ((verify_index_iff lib net value now doc).0 r.0, r.1)) found,
        best,
      )

  -- If `select_whitelist` chooses a document, some record of that size holds it as a trusted
  -- whitelist of the entry, and the document of any other record that verifies is older or the same.
  pub select_whitelist_newest :
      (records : List (List ℕ)) (net : AuthNetwork PublicKey) (service : Name)
      (entry : ServiceEntry) (doc : WhitelistDoc) (size : ℕ)
      → select_whitelist lib records net service entry ≡ ok (some (doc, size))
      → Some
          (λ value. IsTrustedWhitelist lib net service value entry doc × (length value ≡ size))
          records
        × All
            (IsOlder
              (λ (d : WhitelistDoc). d.version)
              (λ value. verify_whitelist lib net service value entry)
              doc)
            records
  unfolding select_whitelist
  select_whitelist_newest records net service entry doc size h =
      let (found, best) =
        chosen (λ (d : WhitelistDoc). d.version)
          (λ value. verify_whitelist lib net service value entry) records doc size h in
      (
        Some-imp records
            (λ value r. ((verify_whitelist_iff lib net service value entry doc).0 r.0, r.1)) found,
        best,
      )
