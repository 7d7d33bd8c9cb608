-- ===== src/Registry/Types.antt =====
-- The index of service types: `merge_type_set`, `encode_types_limited`, `parse_types`. The JSON
-- encoder and decoder of serde_json are parameters.
pub mod Longest
use nexus_net.Base.BTreeSet
use nexus_net.Base.{
  ℕ, zero, suc, ◌+◌, ◌-◌, ◌/◌, leb, ltb, Bool, true, false, List, [], ◌∷◌, foldl, Name, Result, ok,
  err, ◌>>=◌, if◌then◌else◌, length, take, select,
}
use nexus_net.Auth.Naming.{is_valid_service_name}
use nexus_net.Registry.State.{max_types}

-- serde_json on lists of strings; an error is its text.
pub record Json : Type 0 where
  pub to_vec : List Name → Result Name (List ℕ)
  pub from_slice : List ℕ → Result Name (List Name)

-- A round of `merge_type_set`: once the set is full it changes no more, which is its `break`.
unfoldable pub merge_round : List Name → Name → List Name
merge_round known name =
    if leb max_types (length known)
    then known
    else if is_valid_service_name name
    then BTreeSet.insert name known
    else known

unfoldable pub merge_type_set : List Name → List Name → List Name
merge_type_set known incoming = foldl merge_round known incoming

module _ (json : Json) where
  open json use {to_vec, from_slice}

  -- The loop `while low < high`; `(low + high).div_ceil(2)` is `(low + high + 1) / 2`. Each round
  -- narrows the interval, so `high - low` rounds are enough, and the fuel never runs out.
  unfoldable pub search_prefix : ℕ → List Name → ℕ → ℕ → ℕ → Result Name ℕ
  search_prefix zero list max_bytes low high = ok low
  search_prefix (suc fuel) list max_bytes low high =
      let mid = (low + high + 1) / 2 in
      let up = search_prefix fuel list max_bytes mid high in
      let down = search_prefix fuel list max_bytes low (mid - 1) in
      if ltb low high
      then to_vec (take mid list)
        >>= (λ encoded. if leb (length encoded) max_bytes then up else down)
      else ok low

  -- The longest prefix that fits, encoded, with its length.
  unfoldable pub encode_prefix : List Name → ℕ → Result Name (List ℕ × ℕ)
  encode_prefix list max_bytes = do
    low ← search_prefix (length list) list max_bytes 0 (length list)
    value ← to_vec (take low list)
    ok (value, low)

  unfoldable pub encode_types_limited : List Name → ℕ → Result Name (List ℕ × ℕ)
  unfolding encode_prefix
  encode_types_limited list max_bytes = to_vec list >>= (λ full.
      if leb (length full) max_bytes then ok (full, length list) else encode_prefix list max_bytes)

  unfoldable pub parse_types : List ℕ → Result Name (List Name)
  parse_types value = do
    types ← from_slice value
    ok (take max_types (select is_valid_service_name types))
