-- ===== src/Registry/Types/Longest.antt =====
-- src/controller/service_registry.rs: which prefix `encode_types_limited` encodes.
use nexus_net.Base.{
  ℕ, zero, suc, ◌+◌, ◌-◌, ◌/◌, ◌<◌, ◌≤◌, ◌≡◌, refl, inl, inr, List, Name, ok, err, length, take,
  take_all, arith, ltb, leb, Bool-cases, leb→le,
}
use nexus_net.Registry.Types.{Json, search_prefix, encode_types_limited, encode_prefix}

-- The length of an encoding.
abbrev pub encoded_len : Json → List Name → ℕ
encoded_len json list = elim (json.to_vec list) [ ok v ↦ length v | err e ↦ 0 ]

-- serde_json encodes every list of strings.
abbrev pub Encodes : Json → Type 0
Encodes json = (list : List Name) → (v : List ℕ) × (json.to_vec list ≡ ok v)

-- A longer prefix has no shorter encoding.
abbrev pub Grows : Json → List Name → Type 0
Grows json list =
    (i j : ℕ) → i ≤ j → encoded_len json (take i list) ≤ encoded_len json (take j list)

module _ (json : Json) (encodes : Encodes json) (list : List Name) (max_bytes : ℕ) where
  abbrev Fits : ℕ → Type 0
  Fits k = encoded_len json (take k list) ≤ max_bytes

  abbrev TooLong : ℕ → Type 0
  TooLong k = max_bytes < encoded_len json (take k list)

  -- What the loop knows of its interval.
  record Bracket (low high : ℕ) : Type 0 where
    ordered : low ≤ high
    bounded : high ≤ length list
    low_fits : 0 < low → Fits low
    high_fails : high < length list → TooLong (suc high)

  record Answer (r : ℕ) : Type 0 where
    bounded : r ≤ length list
    fits : 0 < r → Fits r
    next_fails : r < length list → TooLong (suc r)

  -- The bound that a failed round leaves, at `mid - 1`.
  failing : (mid : ℕ) → 0 < mid → TooLong mid → TooLong (suc (mid - 1))
  failing mid pos h = let e : suc (mid - 1) ≡ mid = omega arith in rw e h

  search_prefix-Answer :
      (fuel low high : ℕ)
      → high ≤ low + fuel
      → Bracket low high
      → (r : ℕ) × (search_prefix json fuel list max_bytes low high ≡ ok r) × Answer r
  unfolding search_prefix
  search_prefix-Answer zero low high enough b =
      let e : high ≡ low = omega arith in
      (
        low,
        refl,
        record { bounded = omega arith; fits = b.low_fits; next_fails = rw e at (b.high_fails) },
      )
  search_prefix-Answer (suc fuel) low high enough b = elim (Bool-cases (ltb low high)) [
    | inr done ↦
        let e : high ≡ low = ground arith in
        (
          low,
          rw done,
          record { bounded = ground arith; fits = b.low_fits; next_fails = rw e at (b.high_fails) },
        )
    | inl more ↦
        let mid = (low + high + 1) / 2 in
        let (v, encoded) = encodes (take mid list) in
        let len : encoded_len json (take mid list) ≡ length v = rw (encoded, encoded_len) in
        elim (Bool-cases (leb (length v) max_bytes)) [
          | inl fits ↦
              rw (more, encoded, fits)
                (search_prefix-Answer fuel mid high (ground arith) (record {
                  ordered = ground arith;
                  bounded = b.bounded;
                  low_fits = λ _. ground arith;
                  high_fails = b.high_fails;
                }))
          | inr long ↦
              rw (more, encoded, long)
                (search_prefix-Answer fuel low (mid - 1) (ground arith) (record {
                  ordered = ground arith;
                  bounded = ground arith;
                  low_fits = b.low_fits;
                  high_fails = λ _. failing mid (ground arith) (ground arith);
                }))
        ]
  ]

  -- The result of `encode_types_limited`: the encoding of a prefix, how long the prefix is, and that
  -- no longer prefix fits. Only the empty prefix may exceed the limit.
  pub record Longest (value : List ℕ) (included : ℕ) : Type 0 where
    pub encoding : json.to_vec (take included list) ≡ ok value
    pub within : included ≤ length list
    pub small : 0 < included → length value ≤ max_bytes
    pub longest : (j : ℕ) → included < j → j ≤ length list → TooLong j

  encode_prefix-Longest :
      Grows json list
      → (value : List ℕ) × (included : ℕ) × (encode_prefix json list max_bytes
          ≡ ok (value, included))
        × Longest value included
  unfolding encode_prefix
  encode_prefix-Longest grows =
      let (r, found, answer) =
        search_prefix-Answer (length list) 0 (length list) (omega arith) (record {
          ordered = omega arith;
          bounded = omega arith;
          low_fits = λ h. absurd (omega arith);
          high_fails = λ h. absurd (omega arith);
        }) in
      let (v, encoded) = encodes (take r list) in
      let len : encoded_len json (take r list) ≡ length v = rw (encoded, encoded_len) in
      (
        v,
        r,
        rw (found, encoded),
        record {
          encoding = encoded;
          within = answer.bounded;
          small = λ h. omega (arith, answer.fits h);
          longest = λ j above below.
              omega (arith, answer.next_fails (omega arith), grows (suc r) j above);
        },
      )

  -- If the encoder encodes every list, and a longer prefix of the list has no shorter encoding,
  -- encode_types_limited succeeds with the encoding of the longest prefix that fits; only the
  -- empty prefix may exceed the limit.
  pub encode_types_limited-Longest :
      Grows json list
      → (value : List ℕ) × (included : ℕ) × (encode_types_limited json list max_bytes
          ≡ ok (value, included))
        × Longest value included
  unfolding encode_types_limited
  encode_types_limited-Longest grows =
      let (v, encoded) = encodes list in
      elim (Bool-cases (leb (length v) max_bytes)) [
        | inl fits ↦ (
          v,
          length list,
          rw (encoded, fits),
          record {
            encoding = rw (take_all list) encoded;
            within = omega arith;
            small = λ _. leb→le (length v) max_bytes fits;
            longest = λ j above below. absurd (omega arith);
          },
        )
        | inr long ↦ rw (encoded, long) (encode_prefix-Longest grows)
      ]
