-- ===== src/Protocol/Names.antt =====
-- The checks on texts that become part of an object key: `validate_agent_id`,
-- `validate_share_name` and `validate_transfer_id` of crates/common/src/protocol.rs.
pub mod Laws
use s3_mcp_relay.Base.{
  ℕ, ◌<◌, ◌≤◌, ◌≡◌, ◌↔◌, Bool, true, ◌||◌, not, [], ◌∷◌, arith, Text, codes, length, all, All, ok,
  err, leb, ltb, ◌==◌, if◌then◌else◌, is_alphanumeric, starts_with, contains, refl, false,
}
use s3_mcp_relay.Failure.{Error, Outcome}

-- `is_ascii_alphanumeric() || matches!(b, b'-' | b'_')`
unfoldable pub is_id_byte : ℕ → Bool
unfolding is_alphanumeric
is_id_byte b = is_alphanumeric b || b == b'-' || b == b'_'

-- `is_ascii_alphanumeric() || matches!(b, b'-' | b'_' | b'.')`
unfoldable pub is_name_byte : ℕ → Bool
unfolding is_alphanumeric
is_name_byte b = is_alphanumeric b || b == b'-' || b == b'_' || b == b'.'

unfoldable pub validate_agent_id : Text → Outcome (Unit {0})
validate_agent_id value =
    if length value == 0 || ltb 64 (length value)
    then err Error.agent_id_length
    else if not (all is_id_byte value)
    then err Error.agent_id_alphabet
    else ok tt

unfoldable pub validate_share_name : Text → Outcome (Unit {0})
validate_share_name value =
    if length value == 0 || ltb 128 (length value)
    then err Error.share_name_length
    else if not (all is_name_byte value)
    then err Error.share_name_alphabet
    else if starts_with value (codes ".") || contains value (codes "..")
    then err Error.share_name_dots
    else ok tt

-- `Uuid::parse_str(value).is_ok()` is the parameter `is_uuid`.
unfoldable pub validate_transfer_id : (Text → Bool) → Text → Outcome (Unit {0})
validate_transfer_id is_uuid value = if is_uuid value then ok tt else err Error.transfer_not_uuid
