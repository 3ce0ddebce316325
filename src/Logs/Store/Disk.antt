-- ===== src/Logs/Store/Disk.antt =====
-- What a store does outside keeps a prefix of the log.
use s3_mcp_relay.Base.{
  ℕ, zero, suc, ◌+◌, ◌^◌, ◌<◌, ◌≤◌, ◌≡◌, ◌⊎◌, inl, inr, true, Option, none, some, List, [], ◌∷◌,
  ◌++◌, Text, length, take, drop, length-take, length-drop, ℤ, arith, refl, sym, ap, ◌∙◌, subst,
  ltb, Option-cases,
}
use native.Mathlib.Nat.{zero-add, suc-add}
use s3_mcp_relay.Failure.{Error}
use s3_mcp_relay.Effect.{Good, request}
use s3_mcp_relay.Effect.Keeps.{reply-world}
use s3_mcp_relay.Logs.Store.{LogDisk, row_offset, to_i64, advance}

-- `file w` is what is stored for the source `source` of the agent `agent`, and `next w` is the
-- offset in its row. Asking changes neither. A write that is done puts its bytes behind what precedes its offset,
-- and one that fails keeps what precedes it; the row is the old one or the new one if its update fails.
pub record IsLogDisk {W : Type 0} (disk : LogDisk W) (agent source : Text) (file : W → List ℕ)
    (next : W → ℕ) : Type 0 where
  pub create_file : (a : Text) (w : W) → file (disk.create_dir_all a w).1 ≡ file w
  pub create_next : (a : Text) (w : W) → next (disk.create_dir_all a w).1 ≡ next w
  pub connect_file : (w : W) → file (disk.connect w).1 ≡ file w
  pub connect_next : (w : W) → next (disk.connect w).1 ≡ next w
  pub row_file : (w : W) → file (disk.next_offset agent source w).1 ≡ file w
  pub row_next : (w : W) → next (disk.next_offset agent source w).1 ≡ next w
  pub row :
      (w : W) (r : Option ℤ) → (disk.next_offset agent source w).0 ≡ some r → row_offset r ≡ next w
  pub write_next : (n : ℕ) (b : List ℕ) (w : W) → next (disk.write_at agent source n b w).1 ≡ next w
  pub write_done :
      (n : ℕ) (b : List ℕ) (w : W)
      → (disk.write_at agent source n b w).0 ≡ some tt
      → n ≤ length (file w)
      → take (n + length b) (file (disk.write_at agent source n b w).1) ≡ take n (file w) ++ b
  pub write_failed :
      (n : ℕ) (b : List ℕ) (w : W)
      → (disk.write_at agent source n b w).0 ≡ none
      → n ≤ length (file w)
      → take n (file (disk.write_at agent source n b w).1) ≡ take n (file w)
  pub set_file : (r at : ℤ) (w : W) → file (disk.set_next agent source r at w).1 ≡ file w
  pub set_done :
      (r at : ℤ) (w : W)
      → (disk.set_next agent source r at w).0 ≡ some tt
      → next (disk.set_next agent source r at w).1 ≡ row_offset (some r)
  pub set_failed :
      (r at : ℤ) (w : W)
      → (disk.set_next agent source r at w).0 ≡ none
      → (next (disk.set_next agent source r at w).1 ≡ next w)
        ⊎ (next (disk.set_next agent source r at w).1 ≡ row_offset (some r))

take_self : (k : ℕ) (s : List ℕ) → take k s ≡ take (length (take k s)) s
take_self zero s = refl
take_self (suc k) [] = refl
take_self (suc k) (x ∷ s) = ap (λ r. x ∷ r) (take_self k s)

take-piece :
    (n k : ℕ) (s : List ℕ) → take n s ++ take k (drop n s) ≡ take (n + length (take k (drop n s))) s
take-piece zero k s = rw zero-add (take_self k s)
take-piece (suc n) zero [] = rw suc-add refl
take-piece (suc n) (suc k) [] = rw suc-add refl
take-piece (suc n) k (x ∷ s) = rw suc-add (ap (λ r. x ∷ r) (take-piece n k s))

take-less : (n k : ℕ) (xs : List ℕ) → take n xs ≡ take n (take (n + k) xs)
take-less zero k xs = refl
take-less (suc n) k [] = rw suc-add refl
take-less (suc n) k (x ∷ xs) = rw suc-add (ap (λ r. x ∷ r) (take-less n k xs))

-- The first `n` bytes that are stored are those of the log.
abbrev pub IsPrefix : List ℕ → List ℕ → ℕ → Type 0
IsPrefix stream f n = (take n f ≡ take n stream) × (n ≤ length stream)

IsPrefix-length : (stream f : List ℕ) (n : ℕ) → IsPrefix stream f n → n ≤ length f
IsPrefix-length stream f n (same, short) =
    let same_length : length (take n f) ≡ length (take n stream) = ap (λ r. length r) same in
    omega (arith, length-take n f, length-take n stream)

module _ {W : Type 0} {disk : LogDisk W} {agent source : Text} {file : W → List ℕ} {next : W → ℕ}
    (l : IsLogDisk disk agent source file next) (decode : Text → Option (List ℕ)) (stream : List ℕ)
    (short : length stream < 2 ^ 63) where
  -- What is stored is a prefix of the log.
  abbrev pub Holds : W → Type 0
  Holds w = IsPrefix stream (file w) (next w)

  -- Nothing has changed since `f` and `n`.
  abbrev pub Same : List ℕ → ℕ → W → Type 0
  Same f n w = (file w ≡ f) × (next w ≡ n)

  Same-Holds : (f : List ℕ) (n : ℕ) (w : W) → IsPrefix stream f n → Same f n w → Holds w
  Same-Holds f n w i (same_file, same_next) = rw (same_file, same_next) i

  -- A question.
  pub quiet-Good :
      {A : Type 0} (e : Error) (call : W → Option A × W) (f : List ℕ) (n : ℕ) (w : W)
      → IsPrefix stream f n
      → file (call w).1 ≡ file w
      → next (call w).1 ≡ next w
      → Same f n w
      → Good Holds (λ a v. Same f n v × ((call w).0 ≡ some a)) (request e call w)
  quiet-Good e call f n w i kf kn (same_file, same_next) =
      let same : Same f n (request e call w).1 =
        subst (λ v. Same f n v) (sym (reply-world e (call w))) (kf ∙ same_file, kn ∙ same_next) in
      (
        Same-Holds f n _ i same,
        λ a h. (
          same,
          elim (Option-cases (call w).0) [
            | inl bad ↦ absurd (ground arith)
            | inr (b, found) ↦ ground arith
          ],
        ),
      )

  to_i64-row : (n : ℕ) → n < 2 ^ 63 → row_offset (some (to_i64 n)) ≡ n
  unfolding to_i64
  to_i64-row n small = let t : ltb n (2 ^ 63) ≡ true = ground arith in rw t refl

  -- The row after a piece.
  pub row-next :
      (n k : ℕ)
      → n ≤ length stream
      → (n + length (take k (drop n stream)) ≤ length stream)
        × (row_offset (some (to_i64 (advance n (length (take k (drop n stream))))))
            ≡ n + length (take k (drop n stream)))
  row-next n k le =
      let bound : n + length (take k (drop n stream)) ≤ length stream =
        omega (arith, length-take k (drop n stream), length-drop n stream) in
      let small : n + length (take k (drop n stream)) < 2 ^ 63 = omega arith in
      let exact : advance n (length (take k (drop n stream)))
          ≡ n + length (take k (drop n stream)) =
        omega arith in
      (bound, rw exact (to_i64-row _ small))

  -- The row is written once the bytes are there.
  pub set_next-Good :
      (r at : ℤ) (m n : ℕ) (w : W)
      → IsPrefix stream (file w) m
      → IsPrefix stream (file w) n
      → next w ≡ n
      → row_offset (some r) ≡ m
      → Good Holds
          (λ u x. next x ≡ m)
          (request (Error.service 81) (disk.set_next agent source r at) w)
  set_next-Good r at m n w new old is_old is_new =
      let world = reply-world (Error.service 81) (disk.set_next agent source r at w) in
      elim (Option-cases (disk.set_next agent source r at w).0) [
        | inl failed ↦
            let holds : Holds (disk.set_next agent source r at w).1 =
              elim (l.set_failed r at w failed) [
                | inl kept ↦ rw (l.set_file r at w, kept, is_old) old
                | inr moved ↦ rw (l.set_file r at w, moved, is_new) new
              ] in
            (subst Holds (sym world) holds, λ a e. absurd (ground arith))
        | inr (u, done) ↦
            let moved : next (disk.set_next agent source r at w).1 ≡ m =
              l.set_done r at w done ∙ is_new in
            let holds : Holds (disk.set_next agent source r at w).1 =
              rw (l.set_file r at w, moved) new in
            (subst Holds (sym world) holds, λ a e. ap next world ∙ moved)
      ]

  pub write-Good :
      (n k : ℕ) (w : W)
      → IsPrefix stream (file w) n
      → next w ≡ n
      → Good Holds
          (λ u x.
            IsPrefix stream (file x) (n + length (take k (drop n stream)))
            × IsPrefix stream (file x) n
            × (next x ≡ n))
          (request (Error.service 80) (disk.write_at agent source n (take k (drop n stream))) w)
  write-Good n k w (same, le) is_n =
      let b : List ℕ = take k (drop n stream) in
      let world = reply-world (Error.service 80) (disk.write_at agent source n b w) in
      let long : n ≤ length (file w) = IsPrefix-length stream (file w) n (same, le) in
      elim (Option-cases (disk.write_at agent source n b w).0) [
        | inl failed ↦
            let holds : Holds (disk.write_at agent source n b w).1 =
              rw (l.write_next n b w, is_n) (l.write_failed n b w failed long ∙ same, le) in
            (subst Holds (sym world) holds, λ a e. absurd (ground arith))
        | inr (u, done) ↦
            let new : IsPrefix stream (file (disk.write_at agent source n b w).1) (n + length b) = (
              l.write_done n b w done long ∙ ap (λ r. r ++ b) same ∙ take-piece n k stream,
              (row-next n k le).0,
            ) in
            let old : IsPrefix stream (file (disk.write_at agent source n b w).1) n = (
              take-less n (length b) _ ∙ ap (take n) new.0 ∙ sym (take-less n (length b) stream),
              le,
            ) in
            let kept : next (disk.write_at agent source n b w).1 ≡ n = l.write_next n b w ∙ is_n in
            (
              subst Holds (sym world) (rw kept old),
              λ a e.
                  subst
                    (λ x.
                      IsPrefix stream (file x) (n + length b)
                      × IsPrefix stream (file x) n
                      × (next x ≡ n))
                    (sym world) (new, old, kept),
            )
      ]
