-- ===== src/Blob.antt =====
-- crates/common/src/blob.rs: moving a file through the bucket in chunks. The file system, the choice
-- of the upload that ends next and SHA-256 are parameters.
pub mod Quiet
pub mod Joins
pub mod Chunks
pub mod Fill
pub mod Upload
pub mod Fuel
pub mod Assembly
pub mod Concurrency
use s3_mcp_relay.Base.{
  ℕ, zero, suc, ◌+◌, ◌-◌, ◌*◌, ◌/◌, ◌%◌, ◌^◌, min, max, Bool, true, false, not, ◌&&◌, Option, none,
  some, List, [], ◌∷◌, ◌++◌, Text, codes, text_eq, length, ok, err, ltb, leb, ◌==◌, if◌then◌else◌,
}
use s3_mcp_relay.Failure.{Error, Outcome}
use s3_mcp_relay.Effect.{Eff, ◌>>=◌, ◌>>◌, lift, pure, fail, request, sample, attempt, ignore}
use s3_mcp_relay.Platform.{Host}
use s3_mcp_relay.Transport.Objects.{Transport, blob_chunk_bytes}
use s3_mcp_relay.Transport.Bulk.{put_blob_chunk, get_blob_chunk}

pub record Manifest : Type 0 where
  pub chunks : ℕ
  pub total_bytes : ℕ
  pub sha256 : Text

abbrev pub default_upload_concurrency : ℕ
default_upload_concurrency = 8

abbrev pub max_upload_concurrency : ℕ
max_upload_concurrency = 64

abbrev pub upload_memory_budget : ℕ
upload_memory_budget = 268435456

-- `usize` is 64 bits wide here; `saturating_mul` stops at its maximum.
abbrev pub usize_max : ℕ
usize_max = 18446744073709551615

unfoldable pub upload_concurrency : ℕ → ℕ → ℕ
upload_concurrency requested chunk_size =
    let per_chunk = max (min (chunk_size * 2) usize_max) 1 in
    let affordable = max (upload_memory_budget / per_chunk) 1 in
    min (max 1 (min requested max_upload_concurrency)) affordable

-- `bytes.div_ceil(chunk_size).max(1)`, cut to a `u32`.
unfoldable pub chunk_count : ℕ → ℕ → ℕ
chunk_count bytes chunk_size =
    let size = max chunk_size 1 in min (max ((bytes + (size - 1)) / size) 1) 4294967295

-- The lowercase digit of a half byte, and `hex`.
abbrev pub hex_digit : ℕ → ℕ
hex_digit n = if ltb n 10 then b'0' + n else b'a' + (n - 10)

unfoldable pub hex : List ℕ → Text
hex [] = []
hex (byte ∷ bytes) = hex_digit (byte / 16) ∷ hex_digit (byte % 16) ∷ hex bytes

-- The file system as a transfer uses it: one file that is read, one that is written. `read` gives
-- at most so many bytes, and none at the end. `next_upload` chooses among the uploads in flight.
pub record Disk (W : Type 0) : Type 0 where
  pub open_file : Text → W → Option (Unit {0}) × W
  pub read : ℕ → W → Option (List ℕ) × W
  pub create : Text → W → Option (Unit {0}) × W
  pub write_all : List ℕ → W → Option (Unit {0}) × W
  pub flush : W → Option (Unit {0}) × W
  pub rename : Text → Text → W → Option (Unit {0}) × W
  pub remove_file : Text → W → Option (Unit {0}) × W
  pub next_upload : W → ℕ × W

-- `u64::saturating_add`
abbrev pub add_bytes : ℕ → ℕ → ℕ
add_bytes a b = min (a + b) 18446744073709551615

-- A spawned upload: its index and its bytes.
abbrev pub Upload : Type 0
Upload = ℕ × List ℕ

-- The task at a place of the set, or the last one, and the others.
unfoldable pub pick : ℕ → Upload → List Upload → Upload × List Upload
pick n task [] = (task, [])
pick zero task (other ∷ more) = (task, other ∷ more)
pick (suc n) task (other ∷ more) = let (chosen, rest) = pick n other more in (chosen, task ∷ rest)

module _ {W : Type 0} (disk : Disk W) (digest : List ℕ → List ℕ) where
  -- The bytes that `fill` puts in a buffer of `want` bytes; every read gives a byte at least, so
  -- that `want` rounds are enough.
  unfoldable pub fill : ℕ → ℕ → Eff W (List ℕ)
  fill zero want = pure []
  fill (suc fuel) want =
      if want == 0
      then pure []
      else request (Error.service 20) (disk.read want) >>= λ got.
          if length got == 0
          then pure []
          else fill fuel (want - length got) >>= λ more. pure (got ++ more)

  module _ (put : ℕ → List ℕ → Eff W (Unit {0})) where
    -- `inflight.join_next().await`: an upload takes effect when it is joined.
    unfoldable pub join_next : List Upload → Eff W (List Upload)
    unfolding pick
    join_next [] = pure []
    join_next (task ∷ more) = do
      place ← sample disk.next_upload
      let (chosen, rest) = pick place task more
      put chosen.0 chosen.1
      pure rest

    -- `while inflight.len() >= most { … }`, a round for each upload in flight.
    unfoldable pub join_while : ℕ → ℕ → List Upload → Eff W (List Upload)
    unfolding join_next
    join_while zero most inflight = pure inflight
    join_while (suc fuel) most inflight =
        if leb most (length inflight)
        then join_next inflight >>= join_while fuel most
        else pure inflight

    -- The uploads still in flight at the end.
    unfoldable pub join_all : List Upload → ℕ × ℕ × List ℕ → Eff W (ℕ × ℕ × Text)
    unfolding join_while
    join_all inflight (chunks, total_bytes, hashed) = do
      left ← join_while (length inflight) 1 inflight
      pure (chunks, total_bytes, hex (digest hashed))

    -- The loop of `upload_chunks`; `hashed` is what the hasher was given. When the count would pass the
    -- largest u32 the uploads in flight are dropped.
    unfoldable pub upload_loop : ℕ → ℕ → ℕ → List Upload → ℕ × ℕ × List ℕ → Eff W (ℕ × ℕ × Text)
    unfolding fill join_all
    upload_loop zero chunk_size most inflight (chunks, total_bytes, hashed) = fail Error.out_of_fuel
    upload_loop (suc fuel) chunk_size most inflight (chunks, total_bytes, hashed) = do
      data_read ← fill chunk_size chunk_size
      if length data_read == 0 && ltb 0 chunks
          then join_all inflight (chunks, total_bytes, hashed)
          else if leb 4294967295 chunks
          then fail Error.too_many_chunks
          else do
            let hashed' = hashed ++ data_read
            let total' = add_bytes total_bytes (length data_read)
            let spawned = inflight ++ (chunks, data_read) ∷ []
            inflight' ← join_while (length spawned) most spawned
            let rest = upload_loop fuel chunk_size most inflight' (chunks + 1, total', hashed')
            if ltb (length data_read) chunk_size
                then join_all inflight' (chunks + 1, total', hashed')
                else rest

    unfoldable pub upload_chunks : ℕ → Text → ℕ → ℕ → Eff W (ℕ × ℕ × Text)
    unfolding upload_loop upload_concurrency
    upload_chunks fuel source chunk_size concurrency = do
      request (Error.service 21) (disk.open_file source)
      upload_loop fuel chunk_size (upload_concurrency concurrency chunk_size) [] (0, 0, [])

  -- The loop of `assemble_into` over the chunks that are left, and what follows it.
  module _ (get : ℕ → Eff W (Option (List ℕ))) (manifest : Manifest) where
    abbrev pub some_chunk : Option (List ℕ) → Outcome (List ℕ)
    some_chunk none = err Error.chunk_missing
    some_chunk (some bytes) = ok bytes

    unfoldable pub assemble_chunks : ℕ → ℕ → ℕ × List ℕ → Eff W (ℕ × List ℕ)
    assemble_chunks zero index (written, hashed) = pure (written, hashed)
    assemble_chunks (suc left) index (written, hashed) = do
      found ← get index
      bytes ← lift (some_chunk found)
      let written' = add_bytes written (length bytes)
      if ltb manifest.total_bytes written' then fail Error.more_bytes_than_declared else do
        request (Error.service 22) (disk.write_all bytes)
        assemble_chunks left (index + 1) (written', hashed ++ bytes)

    unfoldable pub check_assembled : ℕ × List ℕ → Outcome ℕ
    check_assembled (written, hashed) =
        if not (written == manifest.total_bytes)
        then err Error.bytes_differ_from_declared
        else if not (text_eq (hex (digest hashed)) manifest.sha256)
        then err Error.hash_mismatch
        else ok written

    unfoldable pub assemble_into : Text → Eff W ℕ
    unfolding assemble_chunks check_assembled
    assemble_into temp = do
      request (Error.service 23) (disk.create temp)
      assembled ← assemble_chunks manifest.chunks 0 (0, [])
      request (Error.service 24) disk.flush
      lift (check_assembled assembled)

    -- `temp` is the sibling of `dest` that `temp_sibling` names.
    unfoldable pub assemble_file : Text → Text → Eff W ℕ
    unfolding assemble_into
    assemble_file temp dest = do
      result ← attempt (assemble_into temp)
      elim result [
        | ok bytes ↦ request (Error.service 25) (disk.rename temp dest) >> pure bytes
        | err e ↦ ignore (request (Error.service 26) (disk.remove_file temp)) >> fail e
      ]

-- The manifest that `stage_file` makes of what `upload_chunks` returns.
abbrev pub manifest_of : ℕ × ℕ × Text → Manifest
manifest_of r = record { chunks = r.0; total_bytes = r.1; sha256 = r.2 }

-- `stage_file`: the chunks go to the bucket.
unfoldable pub stage_file :
    {W : Type 0}
    → Host W
    → Disk W
    → (List ℕ → List ℕ)
    → Transport
    → ℕ
    → ℕ
    → Text
    → Text
    → Text
    → Eff W Manifest
unfolding upload_chunks
stage_file h disk digest t concurrency fuel agent transfer source = do
  staged ←
      upload_chunks disk digest (put_blob_chunk h t agent transfer) fuel source blob_chunk_bytes
        concurrency
  pure (manifest_of staged)
