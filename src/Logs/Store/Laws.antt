-- ===== src/Logs/Store/Laws.antt =====
-- The log that the controller stores is a growing prefix of the log of the agent.
use s3_mcp_relay.Base.{
  ℕ, ◌+◌, ◌^◌, ◌<◌, ◌≤◌, ◌≡◌, true, Option, some, List, Text, length, take, drop, ℤ, ok, arith,
  refl, sym, ◌∙◌, subst, ltb, ◌==◌, if◌then◌else◌,
}
use s3_mcp_relay.Failure.{Error}
use s3_mcp_relay.Effect.{Good, Good-if, Good-continue, Good-pure, Good-fail, lift, option_or}
use s3_mcp_relay.Protocol.Types.{LogChunk}
use s3_mcp_relay.Protocol.Names.{validate_agent_id}
use s3_mcp_relay.Logs.Store.{LogDisk, row_offset, check_source, store_chunk, place_chunk, ingest}
use s3_mcp_relay.Logs.Store.Disk.{
  IsLogDisk, IsPrefix, Holds, quiet-Good, row-next, set_next-Good, write-Good,
}

module _ {W : Type 0} (disk : LogDisk W) (decode : Text → Option (List ℕ)) (chunk : LogChunk)
    (file : W → List ℕ) (next : W → ℕ) (l : IsLogDisk disk chunk.agent_id chunk.source file next)
    (stream : List ℕ) (short : length stream < 2 ^ 63) where
  -- The row once a chunk of so many bytes has been taken.
  abbrev pub next_after : ℕ → ℕ → ℕ
  next_after count n = if chunk.offset == n then n + count else n

  store_chunk-Good :
      (k : ℕ) (w : W)
      → IsPrefix stream (file w) chunk.offset
      → next w ≡ chunk.offset
      → Good
          (Holds l decode stream short)
          (λ u x.
            (chunk.offset ≤ chunk.offset)
            × (next x ≡ next_after (length (take k (drop chunk.offset stream))) chunk.offset))
          (store_chunk disk decode chunk chunk.offset (take k (drop chunk.offset stream)) w)
  unfolding store_chunk
  store_chunk-Good k w old is_n =
      let n : ℕ = chunk.offset in
      let b : List ℕ = take k (drop n stream) in
      let self : (chunk.offset == chunk.offset) ≡ true = ground arith in
      Good-continue (Holds l decode stream short)
        (λ u x. IsPrefix stream (file x) (n + length b) × IsPrefix stream (file x) n × (next x ≡ n))
        (λ u x. (n ≤ n) × (next x ≡ next_after (length b) n)) _ _
        (write-Good l decode stream short n k w old is_n)
        (λ u x i (new, still, kept).
          let (holds, moved) =
            set_next-Good l decode stream short _ chunk.at (n + length b) n x new still kept
              (row-next l decode stream short n k old.1).1 in
          (holds, λ u e. (omega arith, rw self (moved u e))))

  place_chunk-Good :
      (k n : ℕ) (row : Option ℤ) (w : W)
      → IsPrefix stream (file w) n
      → next w ≡ n
      → row_offset row ≡ n
      → Good
          (Holds l decode stream short)
          (λ u x.
            (chunk.offset ≤ n)
            × (next x ≡ next_after (length (take k (drop chunk.offset stream))) n))
          (place_chunk disk decode chunk (take k (drop chunk.offset stream)) row w)
  unfolding place_chunk
  place_chunk-Good k n row w i is_n is_row =
      let Q : Unit {0} → W → Type 0 = λ u x.
        (chunk.offset ≤ n) × (next x ≡ next_after (length (take k (drop chunk.offset stream))) n) in
      rw is_row (
        Good-if (Holds l decode stream short) Q (ltb n chunk.offset) _ _ w
          (λ ahead. Good-fail (Holds l decode stream short) Q Error.log_gap w (rw is_n i))
          (λ reached.
            Good-if (Holds l decode stream short) Q (chunk.offset == n) _ _ w
              (λ exact.
                let same : chunk.offset ≡ n = ground arith in
                subst
                  (λ r.
                    Good (Holds l decode stream short)
                      (λ u x.
                        (chunk.offset ≤ r)
                        × (next x ≡ next_after (length (take k (drop chunk.offset stream))) r))
                      (store_chunk disk decode chunk r (take k (drop chunk.offset stream)) w))
                  same (store_chunk-Good k w (rw same i) (is_n ∙ sym same)))
              (λ behind.
                Good-pure (Holds l decode stream short) Q tt w (rw is_n i)
                  (ground arith, rw behind is_n))))

  -- The questions before, and then the chunk.
  ask-Good :
      (k : ℕ) (w : W)
      → IsPrefix stream (file w) (next w)
      → decode chunk.data_b64 ≡ some (take k (drop chunk.offset stream))
      → Good
          (Holds l decode stream short)
          (λ u x.
            (chunk.offset ≤ next w)
            × (next x ≡ next_after (length (take k (drop chunk.offset stream))) (next w)))
          (ingest disk decode chunk w)
  unfolding ingest
  ask-Good k w i decoded =
      let f : List ℕ = file w in
      let n : ℕ = next w in
      let Q : Unit {0} → W → Type 0 = λ u x.
        (chunk.offset ≤ n) × (next x ≡ next_after (length (take k (drop chunk.offset stream))) n) in
      let J : W → Type 0 = λ v. (file v ≡ f) × (next v ≡ n) in
      let H : W → Type 0 = Holds l decode stream short in
      Good-continue H (λ u v. J v) Q _ (lift (validate_agent_id chunk.agent_id) w)
        (i, λ u e. (refl, refl))
        (λ u v0 i0 j0.
          Good-continue H (λ u v. J v) Q _ (lift (check_source chunk.source) v0) (i0, λ u e. j0)
            (λ u v1 i1 j1.
              Good-continue H (λ b v. J v × (b ≡ take k (drop chunk.offset stream))) Q _
                (lift (option_or Error.chunk_not_base64 (decode chunk.data_b64)) v1)
                (i1, λ b e. (j1, (let c = decoded in ground arith)))
                (λ b v2 i2 (j2, same).
                  Good-continue H
                    (λ u v. J v × ((disk.create_dir_all chunk.agent_id v2).0 ≡ some u)) Q _ _
                    (quiet-Good l decode stream short (Error.service 82)
                      (disk.create_dir_all chunk.agent_id) f n v2 i
                      (l.create_file chunk.agent_id v2) (l.create_next chunk.agent_id v2) j2)
                    (λ u v3 i3 (j3, _).
                      Good-continue H (λ u v. J v × ((disk.connect v3).0 ≡ some u)) Q _ _
                        (quiet-Good l decode stream short (Error.service 83) disk.connect f n v3 i
                          (l.connect_file v3) (l.connect_next v3) j3)
                        (λ u v4 i4 (j4, _).
                          Good-continue H
                            (λ r v.
                              J v × ((disk.next_offset chunk.agent_id chunk.source v4).0 ≡ some r))
                            Q _ _
                            (quiet-Good l decode stream short (Error.service 84)
                              (disk.next_offset chunk.agent_id chunk.source) f n v4 i
                              (l.row_file v4) (l.row_next v4) j4)
                            (λ r v5 i5 (j5, read).
                              subst (λ c. Good H Q (place_chunk disk decode chunk c r v5))
                                (sym same)
                                (place_chunk-Good k n r v5 (rw j5.0 i) j5.1
                                  (l.row v4 r read ∙ j4.1))))))))

-- If what is stored of a source is a prefix of its log, which is shorter than 2^63 bytes, and a
-- chunk holds bytes of the log, then what is stored after `ingest` is a prefix of the log, whatever
-- fails; and if `ingest` succeeds, the chunk did not begin behind the prefix, which has grown by its
-- bytes if the chunk began at its end, and is as long as before otherwise.
pub ingest-IsPrefix :
    {W : Type 0} (disk : LogDisk W) (decode : Text → Option (List ℕ)) (chunk : LogChunk)
    (file : W → List ℕ) (next : W → ℕ) (stream : List ℕ) (k : ℕ) (w : W)
    → IsLogDisk disk chunk.agent_id chunk.source file next
    → length stream < 2 ^ 63
    → decode chunk.data_b64 ≡ some (take k (drop chunk.offset stream))
    → IsPrefix stream (file w) (next w)
    → IsPrefix stream (file (ingest disk decode chunk w).1) (next (ingest disk decode chunk w).1)
      × ((ingest disk decode chunk w).0 ≡ ok tt
          → (chunk.offset ≤ next w)
            × (next (ingest disk decode chunk w).1 ≡ (
                if chunk.offset == next w
                then next w + length (take k (drop chunk.offset stream))
                else next w)))
ingest-IsPrefix disk decode chunk file next stream k w l short decoded i =
    let (kept, grown) = ask-Good disk decode chunk file next l stream short k w i decoded in
    (kept, λ e. grown tt e)
