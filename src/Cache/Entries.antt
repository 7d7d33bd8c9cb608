-- ===== src/Cache/Entries.antt =====
-- `Entry`, `store`, `store_missing`, `mark_error` and `evict`.
use nexus_net.Base.HashMap
use nexus_net.Base.{
  ℕ, suc, zero, ◌+◌, Bool, false, not, ◌&&◌, ◌||◌, ◌==◌, Option, none, some, List, [], ◌∷◌, Name,
  bytes, Eq, ltb, leb, length, if◌then◌else◌, max,
}

pub record Entry (V : Type 0) : Type 0 where
  pub value : Option V
  pub version : Option ℕ
  pub last_error : Option Name
  pub last_access : ℕ
  pub size : ℕ

pub record Fetched (V : Type 0) : Type 0 where
  pub value : V
  pub version : Option ℕ
  pub size : ℕ

pub record CacheRead (V : Type 0) : Type 0 where
  pub value : Option V
  pub last_error : Option Name

abbrev pub read_from : {V : Type 0} → Entry V → CacheRead V
read_from entry = record { value = entry.value; last_error = entry.last_error }

-- `get_mut` followed by a change of the entry.
unfoldable pub modify : {K V : Type 0} ⦃e : Eq K⦄ → K → (V → V) → List (K × V) → List (K × V)
modify key f [] = []
modify ⦃e⦄ key f ((k, v) ∷ m) = if e.beq k key then (k, f v) ∷ m else (k, v) ∷ modify key f m

-- `values().map(|entry| entry.size).sum()`
unfoldable pub total_size : {K V : Type 0} → List (K × Entry V) → ℕ
total_size [] = 0
total_size ((k, v) ∷ m) = v.size + total_size m

-- `min_by_key(|(_, entry)| entry.last_access)`: the first of the least.
unfoldable pub older : {K V : Type 0} → K × Entry V → Option (K × Entry V) → K × Entry V
older (k, v) none = (k, v)
older (k, v) (some (j, w)) = if leb v.last_access w.last_access then (k, v) else (j, w)

unfoldable pub oldest : {K V : Type 0} → List (K × Entry V) → Option (K × Entry V)
oldest [] = none
oldest (x ∷ m) = some (older x (oldest m))

unfoldable pub is_over : {K V : Type 0} → ℕ → ℕ → List (K × Entry V) → Bool
is_over max_entries max_bytes m = ltb max_entries (length m) || ltb max_bytes (total_size m)

-- A round of the loop of `evict`: the entries without the victim, or the end of the loop.
unfoldable pub evict_round :
    {K V : Type 0} ⦃e : Eq K⦄ → ℕ → ℕ → List (K × Entry V) → Option (List (K × Entry V))
evict_round max_entries max_bytes m =
    if is_over max_entries max_bytes m
    then elim (oldest m) [
      | none ↦ none
      | some (victim, _) ↦ if length m == 1 then none else some (HashMap.remove victim m)
    ]
    else none

-- The loop on fuel.
unfoldable pub evict_loop :
    {K V : Type 0} ⦃e : Eq K⦄ → ℕ → ℕ → ℕ → List (K × Entry V) → List (K × Entry V)
evict_loop zero max_entries max_bytes m = m
evict_loop (suc fuel) max_entries max_bytes m = elim (evict_round max_entries max_bytes m) [
  | none ↦ m
  | some rest ↦ evict_loop fuel max_entries max_bytes rest
]

unfoldable pub evict : {K V : Type 0} ⦃e : Eq K⦄ → ℕ → ℕ → List (K × Entry V) → List (K × Entry V)
evict max_entries max_bytes m = evict_loop (length m) max_entries max_bytes m

-- Whether a fetched value may replace an entry.
pub data Verdict : Type 0 where
  replace rollback conflict : Verdict

module _ {V : Type 0} ⦃e : Eq V⦄ where
  -- `is_some_and(|value| value != &fetched.value)`
  unfoldable pub differs : Option V → V → Bool
  differs none value = false
  differs (some old) value = not (e.beq old value)

  unfoldable pub judge_versions : ℕ → ℕ → Option V → V → Verdict
  judge_versions old new held value =
      if ltb new old
      then rollback
      else if new == old && differs held value
      then conflict
      else replace

  unfoldable pub judge : Option (Entry V) → Fetched V → Verdict
  judge none fetched = replace
  judge (some existing) fetched = elim existing.version [
    | none ↦ replace
    | some old ↦ elim fetched.version [
      | none ↦ replace
      | some new ↦ judge_versions old new existing.value fetched.value
    ]
  ]

abbrev pub conflict_error : Name
conflict_error = bytes "conflicting content for the same version"

abbrev pub fetched_entry : {V : Type 0} → Fetched V → ℕ → Entry V
fetched_entry fetched now = record {
  value = some fetched.value;
  version = fetched.version;
  last_error = none;
  last_access = now;
  size = fetched.size;
}

abbrev pub missing_entry : {V : Type 0} → ℕ → Entry V
missing_entry now = record {
  value = none;
  version = none;
  last_error = none;
  last_access = now;
  size = 0;
}

abbrev pub with_error : {V : Type 0} → Name → ℕ → Entry V → Entry V
with_error error now entry = record entry { last_error = some error; last_access = now }

abbrev pub touched : {V : Type 0} → ℕ → Entry V → Entry V
touched now entry = record entry { last_access = now }

-- `max_entries` and `max_bytes` of the cache.
pub record Limits : Type 0 where
  pub max_entries : ℕ
  pub max_bytes : ℕ

-- `max_entries.max(1)`, `max_bytes.max(1)`
abbrev pub new_limits : ℕ → ℕ → Limits
new_limits entries size = record { max_entries = max entries 1; max_bytes = max size 1 }

module _ {K V : Type 0} ⦃e : Eq K⦄ where
  unfoldable pub put_entry : Limits → K → Entry V → List (K × Entry V) → List (K × Entry V)
  put_entry lim key entry m = evict lim.max_entries lim.max_bytes (HashMap.insert key entry m)

  unfoldable pub store :
      ⦃f : Eq V⦄ → Limits → K → Fetched V → ℕ → List (K × Entry V) → List (K × Entry V)
  store lim key fetched now m = elim (judge (HashMap.get m key) fetched) [
    | rollback ↦ m
    | conflict ↦ modify key (with_error conflict_error now) m
    | replace ↦ put_entry lim key (fetched_entry fetched now) m
  ]

  unfoldable pub store_missing : Limits → K → ℕ → List (K × Entry V) → List (K × Entry V)
  store_missing lim key now m = put_entry lim key (missing_entry now) m

  unfoldable pub mark_error : K → Name → ℕ → List (K × Entry V) → List (K × Entry V)
  mark_error key error now m = modify key (with_error error now) m
