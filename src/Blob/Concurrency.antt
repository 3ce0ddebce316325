-- ===== src/Blob/Concurrency.antt =====
-- How many uploads overlap.
use s3_mcp_relay.Base.{ℕ, ◌*◌, ◌/◌, ◌≤◌, ◌≡◌, ◌⊎◌, inl, inr, min, max, arith, Bool-cases, ltb}
use native.Mathlib.Nat.{div-mul-le_self, mul-le-mul, mul-le-mul_right}
use s3_mcp_relay.Blob.{upload_concurrency}

fits :
    (requested chunk_size : ℕ)
    → (upload_concurrency requested chunk_size ≡ 1)
      ⊎ (upload_concurrency requested chunk_size * (chunk_size * 2) ≤ 268435456)
unfolding upload_concurrency
fits requested chunk_size =
    let p = max (min (chunk_size * 2) 18446744073709551615) 1 in
    let q = 268435456 / p in
    let c = min (max 1 (min requested 64)) (max q 1) in
    let within : q * p ≤ 268435456 = div-mul-le_self 268435456 p in
    elim (Bool-cases (ltb 1 c)) [
      | inr one ↦ inl (ground arith)
      | inl several ↦
          let two : 2 ≤ q = ground arith in
          let small : 2 * p ≤ q * p = mul-le-mul_right p two in
          let whole : chunk_size * 2 ≤ p = omega (arith, small, within) in
          let fewer : c ≤ q = omega (arith, two) in
          let room : c * (chunk_size * 2) ≤ q * p = mul-le-mul fewer whole in
          inr (omega (arith, room, within))
    ]

-- Between 1 and 64 uploads overlap, never more than asked for (or one), and several only if their
-- chunks, with a ciphertext each, fit in 256 MiB.
pub upload_concurrency_bounds :
    (requested chunk_size : ℕ)
    → let c = upload_concurrency requested chunk_size in
      (1 ≤ c) × (c ≤ 64) × (c ≤ max 1 requested) × ((c ≡ 1) ⊎ (c * (chunk_size * 2) ≤ 268435456))
unfolding upload_concurrency
upload_concurrency_bounds requested chunk_size =
    (omega arith, omega arith, omega arith, fits requested chunk_size)
