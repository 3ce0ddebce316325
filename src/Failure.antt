-- ===== src/Failure.antt =====
-- The errors that the crates raise. `anyhow` carries a message; here an error is the place that
-- raises it, and the context that `with_context` adds in front of a message is left out.
use s3_mcp_relay.Base.{ℕ, Result, ok, err, ◌≡◌, refl, ◌⊎◌, inl, inr}

pub data Error : Type 0 where
  -- crates/common/src/protocol.rs
  agent_id_length agent_id_alphabet different_agent command_id_not_uuid : Error
  transfer_not_uuid protocol_mismatch future_timestamp expired : Error
  expiry_precedes_creation timeout_outside_policy : Error
  response_correlation response_protocol response_future : Error
  share_name_length share_name_alphabet share_name_dots : Error
  -- crates/common/src/crypto.rs
  key_not_base64 key_length key_id_length envelope_malformed envelope_version key_id_mismatch :
      Error
  nonce_not_base64 nonce_length ciphertext_not_base64 authentication_failed : Error
  message_malformed chunk_too_short chunk_version chunk_authentication encrypt_failed : Error
  -- crates/common/src/transport.rs
  object_too_large too_many_objects chunk_too_large manifest_names_other_agent : Error
  manifest_names_other_file unsafe_log_source invalid_log_key : Error
  -- crates/common/src/blob.rs and update.rs
  too_many_chunks chunk_missing more_bytes_than_declared bytes_differ_from_declared : Error
  hash_mismatch : Error
  -- crates/agent/src/jobs.rs
  job_exists no_such_job job_already_finished job_being_cancelled : Error
  -- crates/agent/src/executor.rs
  path_outside_roots program_empty program_not_absolute program_not_allowed : Error
  no_existing_parent no_existing_ancestor no_file_name job_time_outside_policy : Error
  not_a_directory exceeds_max_blob exceeds_max_file stdin_too_large directory_too_large : Error
  nothing_shared content_not_base64 : Error
  -- crates/agent/src/main.rs
  suspended malformed_setting log_gap chunk_not_base64 : Error
  -- a failure that the object store, the file system or another library reports
  service : ℕ → Error
  -- a loop of the model that has used up its fuel; the program has no such error
  out_of_fuel : Error

abbrev pub Outcome : Type 0 → Type 0
Outcome A = Result Error A

-- The `?` operator.
infixl 5 ◌>>=◌ ◌>>◌
abbrev pub ◌>>=◌ : {A B : Type 0} → Outcome A → (A → Outcome B) → Outcome B
ok a >>= f = f a
err e >>= f = err e

abbrev pub ◌>>◌ : {B : Type 0} → Outcome (Unit {0}) → Outcome B → Outcome B
m >> k = m >>= λ _. k

pub Outcome-cases :
    {A : Type 0} (r : Outcome A) → ((a : A) × (r ≡ ok a)) ⊎ ((e : Error) × (r ≡ err e))
Outcome-cases (ok a) = inl (a, refl)
Outcome-cases (err e) = inr (e, refl)
