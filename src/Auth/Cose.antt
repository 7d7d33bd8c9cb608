-- ===== src/Auth/Cose.antt =====
-- src/cose.rs: `verify_ed25519` and `sign_ed25519`. The COSE and Ed25519 libraries are a parameter.
use nexus_net.Base.{
  ℕ, Bool, not, Option, none, some, List, Result, ok, err, ◌>>=◌, ◌>>◌, refuse_if, length, ltb,
}

pub data CoseError : Type 0 where
  cose malformed invalid_signature too_large : CoseError

-- What the code uses of the libraries `coset` and `ed25519`: keys, envelopes, signatures.
pub record CoseLib (PublicKey Keypair Sign1 : Type 0) : Type 0 where
  -- `CoseSign1::from_slice`
  pub from_slice : List ℕ → Option Sign1
  -- Whether the protected header names EdDSA.
  pub is_eddsa : Sign1 → Bool
  -- `sign1.verify_signature(aad, ..)` with the public key's `verify`.
  pub verifies : PublicKey → List ℕ → Sign1 → Bool
  pub payload : Sign1 → Option (List ℕ)
  -- The builder with an EdDSA header, a payload and a signature over the additional data.
  pub sign : Keypair → List ℕ → List ℕ → Option Sign1
  pub to_vec : Sign1 → Option (List ℕ)

abbrev pub ok_or {ℓ κ} : {E : Type ℓ} {A : Type κ} → Option A → E → Result E A
ok_or none e = err e
ok_or (some a) e = ok a

module _ {PublicKey Keypair Sign1 : Type 0} (lib : CoseLib PublicKey Keypair Sign1) where
  unfoldable pub sign_ed25519 : Keypair → List ℕ → List ℕ → Result CoseError (List ℕ)
  sign_ed25519 keypair aad payload = do
    sign1 ← ok_or (lib.sign keypair aad payload) cose
    ok_or (lib.to_vec sign1) cose

  unfoldable pub verify_ed25519 : PublicKey → List ℕ → List ℕ → ℕ → Result CoseError (List ℕ)
  verify_ed25519 authority aad value max_len = do
    refuse_if (ltb max_len (length value)) too_large
    sign1 ← ok_or (lib.from_slice value) cose
    refuse_if (not (lib.is_eddsa sign1)) invalid_signature
    refuse_if (not (lib.verifies authority aad sign1)) invalid_signature
    ok_or (lib.payload sign1) malformed
