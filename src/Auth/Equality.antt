-- ===== src/Auth/Equality.antt =====
-- The derived `PartialEq` of the documents.
use nexus_net.Base.{
  ◌==◌, ◌≡◌, ◌↔◌, Bool, true, false, ◌&&◌, List, [], ◌∷◌, Name, Eq, name_beq, name_beq_iff, arith,
}
use nexus_net.Auth.Documents.{ServiceEntry, IndexDoc, WhitelistDoc}

-- Equality of vectors.
unfoldable pub list_beq : {A : Type 0} → Eq A → List A → List A → Bool
list_beq e [] [] = true
list_beq e [] (y ∷ ys) = false
list_beq e (x ∷ xs) [] = false
list_beq e (x ∷ xs) (y ∷ ys) = e.beq x y && list_beq e xs ys

pub list_beq_iff : {A : Type 0} (e : Eq A) (xs ys : List A) → (list_beq e xs ys ≡ true) ↔ (xs ≡ ys)
unfolding list_beq
list_beq_iff e [] [] = ground arith
list_beq_iff e [] (y ∷ ys) = ground arith
list_beq_iff e (x ∷ xs) [] = ground arith
list_beq_iff e (x ∷ xs) (y ∷ ys) = ground (arith, e.beq_iff x y, list_beq_iff e xs ys)

unfoldable pub entry_beq : ServiceEntry → ServiceEntry → Bool
entry_beq a b = name_beq a.name b.name && name_beq a.hash b.hash && a.length_of == b.length_of

pub entry_beq_iff : (a b : ServiceEntry) → (entry_beq a b ≡ true) ↔ (a ≡ b)
unfolding entry_beq
entry_beq_iff a b = ground (arith, name_beq_iff a.name b.name, name_beq_iff a.hash b.hash)

abbrev pub entry_eq : Eq ServiceEntry
entry_eq = record { beq = entry_beq; beq_iff = entry_beq_iff }

abbrev pub bytes_eq : Eq Name
bytes_eq = record { beq = name_beq; beq_iff = name_beq_iff }

unfoldable pub index_beq : IndexDoc → IndexDoc → Bool
index_beq a b =
    a.version == b.version
    && a.expires_at == b.expires_at
    && list_beq entry_eq a.services b.services

pub index_beq_iff : (a b : IndexDoc) → (index_beq a b ≡ true) ↔ (a ≡ b)
unfolding index_beq
index_beq_iff a b = ground (arith, list_beq_iff entry_eq a.services b.services)

instance abbrev pub index_eq : Eq IndexDoc
index_eq = record { beq = index_beq; beq_iff = index_beq_iff }

unfoldable pub whitelist_beq : WhitelistDoc → WhitelistDoc → Bool
whitelist_beq a b = a.version == b.version && list_beq bytes_eq a.members b.members

pub whitelist_beq_iff : (a b : WhitelistDoc) → (whitelist_beq a b ≡ true) ↔ (a ≡ b)
unfolding whitelist_beq
whitelist_beq_iff a b = ground (arith, list_beq_iff bytes_eq a.members b.members)

instance abbrev pub whitelist_eq : Eq WhitelistDoc
whitelist_eq = record { beq = whitelist_beq; beq_iff = whitelist_beq_iff }
