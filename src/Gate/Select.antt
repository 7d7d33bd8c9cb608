-- ===== src/Gate/Select.antt =====
-- `select_index` and `select_whitelist`: the best of the records that the DHT returns. Both run one
-- loop, over what verification makes of each record.
use nexus_net.Base.{
  ℕ, ltb, ◌==◌, not, ◌&&◌, Option, none, some, List, [], ◌∷◌, map, Name, Eq, Result, ok, err,
  length, if◌then◌else◌,
}
use nexus_net.Auth.Documents.{
  AuthNetwork, AuthLib, ServiceEntry, IndexDoc, WhitelistDoc, verify_index, verify_whitelist,
}
use nexus_net.Auth.Equality.{index_eq, whitelist_eq}

-- "conflicting … content for the same version"
pub data SelectError : Type 0 where
  conflict : SelectError

-- `let Ok(doc) = … else { continue }`, with the size of the record.
abbrev pub verified {ℓ} : {E : Type ℓ} {Doc : Type 0} → ℕ → Result E Doc → Option (Doc × ℕ)
verified size (ok doc) = some (doc, size)
verified size (err e) = none

module _ {Doc : Type 0} ⦃e : Eq Doc⦄ (version : Doc → ℕ) where
  -- A verified document against the best so far.
  unfoldable pub weigh : Option (Doc × ℕ) → Doc × ℕ → Result SelectError (Option (Doc × ℕ))
  weigh none (doc, size) = ok (some (doc, size))
  weigh (some (current, n)) (doc, size) =
      if ltb (version current) (version doc)
      then ok (some (doc, size))
      else if version doc == version current && not (e.beq doc current)
      then err conflict
      else ok (some (current, n))

  unfoldable pub select_best :
      Option (Doc × ℕ) → List (Option (Doc × ℕ)) → Result SelectError (Option (Doc × ℕ))
  select_best best [] = ok best
  select_best best (none ∷ rest) = select_best best rest
  select_best best (some found ∷ rest) = elim (weigh best found) [
    | ok next ↦ select_best next rest
    | err error ↦ err error
  ]

module _ {PublicKey Keypair Sign1 : Type 0} (lib : AuthLib PublicKey Keypair Sign1) where
  unfoldable pub select_index :
      List (List ℕ) → AuthNetwork PublicKey → ℕ → Result SelectError (Option (IndexDoc × ℕ))
  select_index records net now =
      select_best (λ (d : IndexDoc). d.version) none
        (map (λ (value : List ℕ). verified (length value) (verify_index lib net value now)) records)

  unfoldable pub select_whitelist :
      List (List ℕ)
      → AuthNetwork PublicKey
      → Name
      → ServiceEntry
      → Result SelectError (Option (WhitelistDoc × ℕ))
  select_whitelist records net service entry =
      select_best (λ (d : WhitelistDoc). d.version) none
        (map
          (λ (value : List ℕ).
            verified (length value) (verify_whitelist lib net service value entry))
          records)
