-- ===== src/Tests/Transfers.antt =====
-- The theorems on transfers, on a disk and a store of chunks in memory.
use s3_mcp_relay.Base.{
  ℕ, ◌≤◌, ◌≡◌, ◌≢◌, ◌⊎◌, min, max, ◌*◌, Option, none, some, List, [], ◌∷◌, ◌++◌, arith, refl, ap,
  sym, ◌∙◌, Text, codes, length, length-take, take, drop, take-append-drop, ok, err, ◌==◌,
  if◌then◌else◌,
}
use s3_mcp_relay.Failure.{Error}
use s3_mcp_relay.Effect.{Eff}
use s3_mcp_relay.Blob.{
  Disk, manifest_of, hex, upload_chunks, upload_loop, upload_concurrency, fill, join_all,
  join_while, join_next, pick, assemble_file,
}
use s3_mcp_relay.Blob.Joins.{IsStaging}
use s3_mcp_relay.Blob.Upload.{IsUploaded, upload_chunks-IsUploaded}
use s3_mcp_relay.Blob.Concurrency.{upload_concurrency_bounds}
use s3_mcp_relay.Blob.Fuel.{upload_chunks-fuel}
use s3_mcp_relay.Blob.Assembly.{IsAssembly, assemble_file_lem}

record Store : Type 0 where
  source : List ℕ
  chunks : List (ℕ × List ℕ)
  partial : List ℕ
  placed : Option (List ℕ)

chunk_at : ℕ → List (ℕ × List ℕ) → Option (List ℕ)
chunk_at i [] = none
chunk_at i ((j, d) ∷ more) = if i == j then some d else chunk_at i more

-- A read gives at most three bytes; of the uploads in flight the second one ends first.
abbrev disk : Disk Store
disk = record {
  open_file = λ p w. (some tt, w);
  read = λ n w. (some (take (min n 3) w.source), record w { source = drop (min n 3) w.source });
  create = λ p w. (some tt, record w { partial = [] });
  write_all = λ b w. (some tt, record w { partial = w.partial ++ b });
  flush = λ w. (some tt, w);
  rename = λ a b w. (some tt, record w { placed = some w.partial });
  remove_file = λ p w. (some tt, record w { partial = [] });
  next_upload = λ w. (1, w);
}

abbrev put : ℕ → List ℕ → Eff Store (Unit {0})
put i d w = (ok tt, record w { chunks = (i, d) ∷ w.chunks })

abbrev fetch : ℕ → Eff Store (Option (List ℕ))
fetch i w = (ok (chunk_at i w.chunks), w)

abbrev Stored : Store → ℕ → List ℕ → Type 0
Stored w i d = chunk_at i w.chunks ≡ some d

empty_lem : (xs : List ℕ) (n : ℕ) → length (take (min n 3) xs) ≡ 0 → 1 ≤ n → xs ≡ []
empty_lem [] n e h = refl
empty_lem (x ∷ xs) n e h = absurd (omega (arith, length-take (min n 3) (x ∷ xs)))

takes :
    (n : ℕ) (w : Store) (got : List ℕ)
    → (disk.read n w).0 ≡ some got
    → (w.source ≡ got ++ (disk.read n w).1.source)
      × (length got ≤ n)
      × (length got ≡ 0 → 1 ≤ n → w.source ≡ [])
takes n w got e =
    let same : take (min n 3) w.source ≡ got = ground arith in
    let size = ap (length {A = ℕ}) same in
    (
      sym (take-append-drop (min n 3) w.source) ∙ ap (λ x. x ++ drop (min n 3) w.source) same,
      omega (arith, size, length-take (min n 3) w.source),
      λ z h. empty_lem w.source n (size ∙ z) h,
    )

staging : IsStaging disk put Stored (λ w. w.source)
unfolding chunk_at
staging = record {
  read_takes = takes;
  read_keeps = λ n w i d h. h;
  choice_keeps = λ w i d h. h;
  choice_reads = λ w. refl;
  put_done = λ i d w e. ground arith;
  put_keeps = λ i j d e w s ne h. ground arith;
  put_reads = λ i d w. refl;
}

assembly : IsAssembly disk fetch [] [] (λ w. w.partial) (λ w. w.placed)
assembly = record {
  writing = record {
    get_written = λ i w. refl;
    create_done = λ w e. refl;
    write_done = λ b w e. refl;
    flush_written = λ w. refl;
  };
  get_target = λ i w. refl;
  create_target = λ w. refl;
  write_target = λ b w. refl;
  flush_target = λ w. refl;
  rename_done = λ w e. refl;
  rename_failed = λ w e. absurd (ground arith);
  remove_target = λ w. refl;
}

-- The first bytes stand for a digest.
abbrev digest : List ℕ → List ℕ
digest b = take 2 b

abbrev file : List ℕ
file = 10 ∷ 20 ∷ 30 ∷ 40 ∷ 50 ∷ 60 ∷ 70 ∷ 80 ∷ 90 ∷ []

abbrev start : Store
start = record { source = file; chunks = []; partial = []; placed = none }

-- Nine bytes in chunks of four, two uploads in flight.
abbrev uploaded : ℕ × ℕ × Text
uploaded = (3, 9, codes "0a14")

upload_ok : (upload_chunks disk digest put 20 [] 4 2 start).0 ≡ ok uploaded
unfolding upload_chunks upload_loop upload_concurrency fill join_all join_while join_next pick hex
upload_ok = refl

abbrev after : Store
after = (upload_chunks disk digest put 20 [] 4 2 start).1

upload_chunks-IsUploaded_example : IsUploaded staging digest 4 file uploaded after
upload_chunks-IsUploaded_example =
    upload_chunks-IsUploaded staging digest 20 [] 4 2 start uploaded (omega arith) upload_ok

upload_chunks-fuel_example :
    (upload_chunks disk digest put 20 [] 4 2 start).0 ≢ err Error.out_of_fuel
upload_chunks-fuel_example =
    upload_chunks-fuel staging digest (λ i d w. ground arith) 20 [] 4 2 start (omega arith)
      (omega arith)

sent : IsUploaded staging digest 4 file uploaded after
sent = upload_chunks-IsUploaded staging digest 20 [] 4 2 start uploaded (omega arith) upload_ok

assemble_file_lem_example :
    ((bytes : List ℕ) × ((assemble_file disk digest fetch (manifest_of uploaded) [] [] after).0
        ≡ ok 9)
      × ((assemble_file disk digest fetch (manifest_of uploaded) [] [] after).1.placed ≡ some bytes)
      × (hex (digest bytes) ≡ codes "0a14")
      × (9 ≡ min (length bytes) 18446744073709551615))
    ⊎ ((e : Error) × ((assemble_file disk digest fetch (manifest_of uploaded) [] [] after).0
          ≡ err e)
        × ((assemble_file disk digest fetch (manifest_of uploaded) [] [] after).1.placed
            ≡ after.placed))
assemble_file_lem_example = assemble_file_lem assembly digest (manifest_of uploaded) after

upload_concurrency_bounds_example :
    (1 ≤ upload_concurrency 100 8388608)
    × (upload_concurrency 100 8388608 ≤ 64)
    × (upload_concurrency 100 8388608 ≤ max 1 100)
    × ((upload_concurrency 100 8388608 ≡ 1)
        ⊎ (upload_concurrency 100 8388608 * (8388608 * 2) ≤ 268435456))
upload_concurrency_bounds_example = upload_concurrency_bounds 100 8388608
