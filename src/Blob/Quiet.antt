-- ===== src/Blob/Quiet.antt =====
-- What a transfer does to the machine besides the files that it reads and writes: an invariant that
-- the calls of the disk keep.
use s3_mcp_relay.Base.{ℕ, zero, suc, List, [], ◌∷◌, Option, Text, ok, err}
use s3_mcp_relay.Failure.{Error, Outcome}
use s3_mcp_relay.Effect.{Eff, ◌>>=◌, fail, pure, request, ignore}
use s3_mcp_relay.Effect.Keeps.{Keeps, Keeps-bind, Keeps-attempt, keeps_rules}
use s3_mcp_relay.Blob.{
  Disk, Manifest, Upload, fill, join_next, join_while, join_all, upload_loop, upload_chunks,
  assemble_chunks, assemble_into, assemble_file,
}

-- Reading keeps `I`, and so does the choice of the upload that ends next.
pub record IsQuietReader {W : Type 0} (disk : Disk W) (I : W → Type 0) : Type 0 where
  pub open_file : (p : Text) (w : W) → I w → I (disk.open_file p w).1
  pub read : (n : ℕ) (w : W) → I w → I (disk.read n w).1
  pub next_upload : (w : W) → I w → I (disk.next_upload w).1

-- Writing the temporary file keeps `I`.
pub record IsQuietStream {W : Type 0} (disk : Disk W) (temp : Text) (I : W → Type 0) : Type 0 where
  pub create : (w : W) → I w → I (disk.create temp w).1
  pub write_all : (b : List ℕ) (w : W) → I w → I (disk.write_all b w).1
  pub flush : (w : W) → I w → I (disk.flush w).1

-- Writing keeps `I` where the temporary file and its destination are these.
pub record IsQuietWriter {W : Type 0} (disk : Disk W) (temp dest : Text) (I : W → Type 0)
    : Type 0 where
  pub create : (w : W) → I w → I (disk.create temp w).1
  pub write_all : (b : List ℕ) (w : W) → I w → I (disk.write_all b w).1
  pub flush : (w : W) → I w → I (disk.flush w).1
  pub rename : (w : W) → I w → I (disk.rename temp dest w).1
  pub remove_file : (w : W) → I w → I (disk.remove_file temp w).1

module _ {W : Type 0} {disk : Disk W} {I : W → Type 0} (q : IsQuietReader disk I)
    (digest : List ℕ → List ℕ) (put : ℕ → List ℕ → Eff W (Unit {0}))
    (kp : (i : ℕ) (d : List ℕ) → Keeps I (put i d)) where
  fill-Keeps : (fuel want : ℕ) → Keeps I (fill disk digest fuel want)
  unfolding fill
  fill-Keeps zero want = search keeps_rules
  fill-Keeps (suc fuel) want = search (keeps_rules, q.read, fill-Keeps fuel)

  join_next-Keeps : (inflight : List Upload) → Keeps I (join_next disk digest put inflight)
  unfolding join_next
  join_next-Keeps [] = search keeps_rules
  join_next-Keeps (task ∷ more) = search (keeps_rules, q.next_upload, kp)

  join_while-Keeps :
      (fuel most : ℕ) (inflight : List Upload)
      → Keeps I (join_while disk digest put fuel most inflight)
  unfolding join_while
  join_while-Keeps zero most inflight = search keeps_rules
  join_while-Keeps (suc fuel) most inflight =
      search (keeps_rules, join_next-Keeps, join_while-Keeps fuel)

  join_all-Keeps :
      (inflight : List Upload) (r : ℕ × ℕ × List ℕ) → Keeps I (join_all disk digest put inflight r)
  unfolding join_all
  join_all-Keeps inflight (chunks, total, hashed) = search (keeps_rules, join_while-Keeps)

  upload_loop-Keeps :
      (fuel chunk_size most : ℕ) (inflight : List Upload) (r : ℕ × ℕ × List ℕ)
      → Keeps I (upload_loop disk digest put fuel chunk_size most inflight r)
  unfolding upload_loop
  upload_loop-Keeps zero chunk_size most inflight (chunks, total, hashed) = search keeps_rules
  upload_loop-Keeps (suc fuel) chunk_size most inflight (chunks, total, hashed) =
      search (keeps_rules, fill-Keeps, join_all-Keeps, join_while-Keeps, upload_loop-Keeps fuel)
        depth 12

  pub upload_chunks-Keeps :
      (fuel : ℕ) (source : Text) (chunk_size concurrency : ℕ)
      → Keeps I (upload_chunks disk digest put fuel source chunk_size concurrency)
  unfolding upload_chunks
  upload_chunks-Keeps fuel source chunk_size concurrency =
      search (keeps_rules, q.open_file, upload_loop-Keeps)

module _ {W : Type 0} {disk : Disk W} {I : W → Type 0} {temp : Text} (q : IsQuietStream disk temp I)
    (digest : List ℕ → List ℕ) (get : ℕ → Eff W (Option (List ℕ))) (kg : (i : ℕ) → Keeps I (get i))
    (m : Manifest) where
  assemble_chunks-Keeps :
      (left i : ℕ) (r : ℕ × List ℕ) → Keeps I (assemble_chunks disk digest get m left i r)
  unfolding assemble_chunks
  assemble_chunks-Keeps zero i (n, hashed) = search keeps_rules
  assemble_chunks-Keeps (suc left) i (n, hashed) =
      search (keeps_rules, kg, q.write_all, assemble_chunks-Keeps left) depth 12

  pub assemble_into-Keeps : Keeps I (assemble_into disk digest get m temp)
  unfolding assemble_into
  assemble_into-Keeps = search (keeps_rules, q.create, q.flush, assemble_chunks-Keeps)

module _ {W : Type 0} {disk : Disk W} {I : W → Type 0} {temp dest : Text}
    (q : IsQuietWriter disk temp dest I) (digest : List ℕ → List ℕ)
    (get : ℕ → Eff W (Option (List ℕ))) (kg : (i : ℕ) → Keeps I (get i)) (m : Manifest) where
  finish-Keeps :
      (r : Outcome ℕ)
      → Keeps I (elim r [
        | ok bytes ↦ request (Error.service 25) (disk.rename temp dest) >>= λ _. pure bytes
        | err e ↦ ignore (request (Error.service 26) (disk.remove_file temp)) >>= λ _. fail e
      ])
  finish-Keeps (ok bytes) = search (keeps_rules, q.rename)
  finish-Keeps (err e) = search (keeps_rules, q.remove_file)

  pub assemble_file-Keeps : Keeps I (assemble_file disk digest get m temp dest)
  unfolding assemble_file
  assemble_file-Keeps =
      let stream : IsQuietStream disk temp I = record {
        create = q.create;
        write_all = q.write_all;
        flush = q.flush;
      } in
      Keeps-bind _ _ (Keeps-attempt _ (assemble_into-Keeps stream digest get kg m)) finish-Keeps
