-- ===== src/Auth/Keys.antt =====
-- src/auth.rs: the DHT keys of the records of one network.
use nexus_net.Base.{ℕ, ◌≡◌, ◌≢◌, List, [], ◌∷◌, ◌++◌, Name, ok, arith, name_beq_iff}
use nexus_net.Auth.Naming.{is_valid_service_name, key_path, reserved_service, auth_prefix}
use nexus_net.Auth.Documents.{AuthNetwork, AuthLib, index_key, service_key}

append_cancel : (xs : List ℕ) {ys zs : List ℕ} → xs ++ ys ≡ xs ++ zs → ys ≡ zs
append_cancel [] h = h
append_cancel (x ∷ xs) h = append_cancel xs (cc)

key_path_injective : (h a b : Name) → key_path h a ≡ key_path h b → a ≡ b
unfolding key_path
key_path_injective h a b e =
    let tails : h ++ b'/' ∷ a ≡ h ++ b'/' ∷ b = cc (append_cancel auth_prefix e) in
    cc (append_cancel h tails)

module _ {PublicKey Keypair Sign1 : Type 0} (lib : AuthLib PublicKey Keypair Sign1) where
  -- The whitelist keys of two different valid services differ, and neither is the index key.
  pub service_key_separate :
      (net : AuthNetwork PublicKey) (a b : Name) (k l : Name)
      → service_key lib net a ≡ ok k
      → service_key lib net b ≡ ok l
      → a ≢ b
      → (k ≢ l) × (k ≢ index_key lib net)
  unfolding service_key index_key is_valid_service_name
  service_key_separate net a b k l ha hb differ = (
    λ e. differ (key_path_injective net.net_hash a b (ground arith)),
    λ e.
        let same : a ≡ reserved_service =
          key_path_injective net.net_hash a reserved_service (ground arith) in
        absurd (ground (arith, name_beq_iff a reserved_service)),
  )
