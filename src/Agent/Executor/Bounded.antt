-- ===== src/Agent/Executor/Bounded.antt =====
-- What a bounded read keeps, and the directory entries that are listed.
use s3_mcp_relay.Base.{
  ℕ, zero, suc, ◌-◌, ◌≤◌, ◌≡◌, min, Bool, false, ◌||◌, some, List, [], ◌∷◌, ◌++◌, length, take,
  length-take, length-append, append_assoc, append-nil, ok, arith, refl, ap, ◌∙◌, ltb, ◌==◌,
  if◌then◌else◌, Bool-cases, inl, inr,
}
use s3_mcp_relay.Failure.{Outcome}
use s3_mcp_relay.Agent.Executor.{Reads, read_bounded_from, read_bounded}

-- What the reads give up to the end of the stream, which is the first empty read.
abbrev pub stream_of : List (List ℕ) → List ℕ
stream_of [] = []
stream_of (buffer ∷ reads) = if length buffer == 0 then [] else buffer ++ stream_of reads

abbrev pub succeed : List (List ℕ) → Reads
succeed [] = []
succeed (buffer ∷ reads) = some buffer ∷ succeed reads

take-append : (n : ℕ) (xs ys : List ℕ) → take n (xs ++ ys) ≡ take n xs ++ take (n - length xs) ys
take-append zero xs ys = let z : 0 - length xs ≡ 0 = omega arith in rw z refl
take-append (suc n) [] ys = let z : suc n - 0 ≡ suc n = omega arith in rw z refl
take-append (suc n) (x ∷ xs) ys =
    let z : suc n - suc (length xs) ≡ n - length xs = omega arith in
    rw z (ap (λ r. x ∷ r) (take-append n xs ys))

take-nil : (n : ℕ) → take {A = ℕ} n [] ≡ []
take-nil zero = refl
take-nil (suc n) = refl

take-min : (n : ℕ) (xs : List ℕ) → take (min n (length xs)) xs ≡ take n xs
take-min zero xs = let z : min 0 (length xs) ≡ 0 = omega arith in rw z refl
take-min (suc n) [] = take-nil _
take-min (suc n) (x ∷ xs) =
    let z : min (suc n) (suc (length xs)) ≡ suc (min n (length xs)) = omega arith in
    rw z (ap (λ r. x ∷ r) (take-min n xs))

-- What is kept if there is room for `room` more bytes.
abbrev outcome : ℕ → List ℕ → Bool → List ℕ → Outcome (List ℕ × Bool)
outcome room kept truncated s = ok (kept ++ take room s, truncated || ltb room (length s))

-- A read that brings bytes.
outcome-append :
    (limit : ℕ) (kept buffer s : List ℕ) (truncated : Bool)
    → length kept ≤ limit
    → outcome
        (limit - length (kept ++ take (min (limit - length kept) (length buffer)) buffer))
        (kept ++ take (min (limit - length kept) (length buffer)) buffer)
        (truncated || ltb (min (limit - length kept) (length buffer)) (length buffer))
        s
      ≡ outcome (limit - length kept) kept truncated (buffer ++ s)
outcome-append limit kept buffer s truncated short =
    let room : limit - length (kept ++ take (min (limit - length kept) (length buffer)) buffer)
        ≡ limit - length kept - length buffer =
      omega (
        arith,
        length-append kept (take (min (limit - length kept) (length buffer)) buffer),
        length-take (min (limit - length kept) (length buffer)) buffer,
      ) in
    let flag : (truncated || ltb (min (limit - length kept) (length buffer)) (length buffer))
          || ltb (limit - length kept - length buffer) (length s)
        ≡ truncated || ltb (limit - length kept) (length (buffer ++ s)) =
      ground (arith, length-append buffer s) in
    rw (room, take-min, append_assoc, ← take-append (limit - length kept) buffer s)
      (ap (λ b. ok (kept ++ take (limit - length kept) (buffer ++ s), b)) flag)

read_bounded_from_lem :
    (reads : List (List ℕ)) (limit : ℕ) (kept : List ℕ) (truncated : Bool)
    → length kept ≤ limit
    → read_bounded_from (succeed reads) limit kept truncated
      ≡ outcome (limit - length kept) kept truncated (stream_of reads)
unfolding read_bounded_from
read_bounded_from_lem [] limit kept truncated short = rw (take-nil, append-nil) (ground arith)
read_bounded_from_lem (buffer ∷ reads) limit kept truncated short =
    elim (Bool-cases (length buffer == 0)) [
      | inl ended ↦ rw (ended, take-nil, append-nil) (ground arith)
      | inr filled ↦ rw filled (
          read_bounded_from_lem reads limit _ _ (
            omega (
              arith,
              length-append kept (take (min (limit - length kept) (length buffer)) buffer),
              length-take (min (limit - length kept) (length buffer)) buffer,
            ))
          ∙ outcome-append limit kept buffer (stream_of reads) truncated short)
    ]

-- A stream whose reads succeed is read up to the limit: what is kept is its first bytes, at most
-- `limit` of them, and it counts as truncated exactly when it is longer.
pub read_bounded_lem :
    (reads : List (List ℕ)) (limit : ℕ)
    → read_bounded (succeed reads) limit
      ≡ ok (take limit (stream_of reads), ltb limit (length (stream_of reads)))
unfolding read_bounded
read_bounded_lem reads limit =
    let z : limit - 0 ≡ limit = omega arith in
    read_bounded_from_lem reads limit [] false (omega arith) ∙ rw z refl
