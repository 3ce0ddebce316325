-- ===== src/Tests/Relay.antt =====
-- The theorems on the mailbox, the keys and the cryptography, on the bucket in memory.
use s3_mcp_relay.Base.{
  ℕ, ◌≡◌, ◌≢◌, true, false, Option, none, some, List, [], ◌∷◌, arith, refl, Text, codes, ok, err,
  All, IsSorted, replicate, pos, text_lt, starts_with, text_eq, sort, sym, text_eq_iff, contains,
}
use s3_mcp_relay.Failure.{Error, Outcome}
use s3_mcp_relay.Protocol.Types.{LogChunk, Command}
use s3_mcp_relay.Platform.{Host, ListPage}
use s3_mcp_relay.Crypto.{aad, seal, seal_bytes, open_object, open_bytes}
use s3_mcp_relay.Crypto.Laws.{open_object-seal, open_object-moved, open_bytes-seal_bytes}
use s3_mcp_relay.Transport.Keys.{
  log_key, cmd_prefix, cmd_key, blob_chunk_key, release_chunk_key, share_chunk_key,
}
use s3_mcp_relay.Transport.Keys.Laws.{
  IsNamed, Slot, key_of, shown, key_of-injective, chunk_keys_ordered,
}
use s3_mcp_relay.Protocol.Names.Laws.{agent_id-NoSlash, share_name-NoSlash}
use s3_mcp_relay.Protocol.Names.{validate_share_name, is_name_byte, validate_agent_id, is_id_byte}
use s3_mcp_relay.Transport.Objects.{
  push_keys, get_raw, read_object, delete_key, list_pages, Transport, list_keys,
}
use s3_mcp_relay.Transport.Objects.Laws.{has_key, IsPaged, list_keys-fuel}
use s3_mcp_relay.Transport.Mailbox.{drain_keys, open_or_discard, created_before, drain_commands}
use s3_mcp_relay.Transport.Mailbox.Claims.{IsClaimed}
use s3_mcp_relay.Transport.Mailbox.Laws.{drain_commands-at_most_once, drain_commands-keeps_other}
use s3_mcp_relay.Tests.Memory.{
  to_envelope, toy_open, discard, World, lookup, test_command, command_serde, text_serde, memory,
  memory-IsStore, toy_codec-IsSound, toy_codec-IsBinding,
}

abbrev relay : Transport
relay = record {
  prefix = codes "p/";
  crypto = record { cipher = replicate 32 7; key_id = codes "k" };
}

abbrev to_body : Outcome (List ℕ) → List ℕ
to_body (ok b) = b
to_body (err e) = []

abbrev sealed_command : Text → Text → List ℕ
unfolding seal
sealed_command key id =
    to_body (seal memory command_serde relay.crypto key (test_command id none 0) []).0

abbrev jetson : Text
jetson = codes "jetson"

-- A mailbox with a command for anyone, one for another process, one for this one, and a body that
-- does not open.
abbrev mailbox : World
unfolding cmd_key
mailbox =
    (
      cmd_key relay.prefix jetson (codes "a"),
      sealed_command (cmd_key relay.prefix jetson (codes "a")) (codes "a"),
    )
    ∷ (
      cmd_key relay.prefix jetson (codes "b"),
      sealed_command (cmd_key relay.prefix jetson (codes "b")) (codes "b"),
    )
    ∷ (
      cmd_key relay.prefix jetson (codes "c"),
      sealed_command (cmd_key relay.prefix jetson (codes "c")) (codes "c"),
    )
    ∷ (cmd_key relay.prefix jetson (codes "x"), 1 ∷ 2 ∷ [])
    ∷ []

abbrev claimed : List Command
claimed = test_command (codes "c") (some (codes "me")) 3 ∷ test_command (codes "a") none 7 ∷ []

drained : (drain_commands memory relay jetson (codes "me") mailbox).0 ≡ ok claimed
unfolding drain_commands validate_agent_id is_id_byte list_keys push_keys mailbox starts_with
    cmd_prefix get_raw lookup text_eq read_object sealed_command open_object to_envelope toy_open
    delete_key discard drain_keys open_or_discard list_pages seal aad sort cmd_key
drained = refl

drain_commands-at_most_once_example :
    All
      (IsClaimed memory relay memory-IsStore
        (cmd_prefix relay.prefix jetson)
        (codes "me")
        mailbox
        (drain_commands memory relay jetson (codes "me") mailbox).1)
      claimed
    × IsSorted created_before claimed
drain_commands-at_most_once_example =
    drain_commands-at_most_once memory relay memory-IsStore (codes "me") jetson mailbox claimed
      drained

-- The command for the other process is still there.
opened_b :
    open_object memory.codec command_serde relay.crypto
      (cmd_key relay.prefix jetson (codes "b"))
      (sealed_command (cmd_key relay.prefix jetson (codes "b")) (codes "b"))
    ≡ ok (test_command (codes "b") (some (codes "other")) 5)
unfolding open_object sealed_command to_envelope toy_open seal aad cmd_key text_eq
opened_b = refl

lookup_b :
    lookup mailbox (cmd_key relay.prefix jetson (codes "b"))
    ≡ some (sealed_command (cmd_key relay.prefix jetson (codes "b")) (codes "b"))
unfolding lookup mailbox cmd_key text_eq
lookup_b = refl

drain_commands-keeps_other_example :
    lookup
      (drain_commands memory relay jetson (codes "me") mailbox).1
      (cmd_key relay.prefix jetson (codes "b"))
    ≡ some (sealed_command (cmd_key relay.prefix jetson (codes "b")) (codes "b"))
drain_commands-keeps_other_example =
    drain_commands-keeps_other memory relay memory-IsStore (codes "me") jetson
      (cmd_key relay.prefix jetson (codes "b")) (codes "other") mailbox
      (sealed_command (cmd_key relay.prefix jetson (codes "b")) (codes "b"))
      (test_command (codes "b") (some (codes "other")) 5) lookup_b opened_b refl (λ e. ground arith)

-- A listing of two pages: the first announces the second, and each shows one key.
abbrev page_of : Option Text → ListPage
page_of none = record {
  contents = record { key = some (codes "p/cmd/1"); last_modified = none } ∷ [];
  is_truncated = some true;
  next_token = some (codes "2");
}
page_of (some _) = record {
  contents = record { key = some (codes "p/cmd/2"); last_modified = none } ∷ [];
  is_truncated = some false;
  next_token = none;
}

abbrev two_pages : Host World
two_pages = record memory { list_objects = λ prefix token w. (some (page_of token), w) }

two_pages_read :
    (list_keys two_pages (codes "p/cmd/") []).0 ≡ ok (codes "p/cmd/1" ∷ codes "p/cmd/2" ∷ [])
unfolding list_keys list_pages push_keys
two_pages_read = refl

page_of_lem :
    (token : Option Text) (page : ListPage)
    → some page ≡ some (page_of token)
    → has_key page.contents ≡ true
page_of_lem none page e = let s : page ≡ page_of none = ground arith in rw s refl
page_of_lem (some x) page e = let s : page ≡ page_of (some x) = ground arith in rw s refl

two_pages-IsPaged : IsPaged two_pages
two_pages-IsPaged p token w page e t = page_of_lem token page (sym e)

list_keys-fuel_example : (list_keys two_pages (codes "p/cmd/") []).0 ≢ err Error.out_of_fuel
list_keys-fuel_example = list_keys-fuel two_pages (codes "p/cmd/") [] two_pages-IsPaged

x_is_not_y : text_eq (codes "p/x") (codes "p/y") ≢ true
unfolding text_eq
x_is_not_y e = absurd (ground arith)

-- A note sealed for one key.
abbrev note : Text
note = codes "hello"

abbrev sealed_note : List ℕ
unfolding seal
sealed_note = to_body (seal memory text_serde relay.crypto (codes "p/x") note []).0

sealed : seal memory text_serde relay.crypto (codes "p/x") note [] ≡ (ok sealed_note, [])
unfolding seal sealed_note
sealed = refl

open_object-seal_example :
    open_object memory.codec text_serde relay.crypto (codes "p/x") sealed_note ≡ ok note
open_object-seal_example =
    open_object-seal memory text_serde relay.crypto (codes "p/x") note [] [] sealed_note
      toy_codec-IsSound (λ a t e. sym e) refl sealed

open_object-moved_example :
    open_object memory.codec text_serde relay.crypto (codes "p/y") sealed_note
    ≡ err Error.authentication_failed
open_object-moved_example =
    open_object-moved memory text_serde text_serde relay.crypto (codes "p/x") (codes "p/y") note []
      [] sealed_note toy_codec-IsSound toy_codec-IsBinding refl
      (λ e. let t = (text_eq_iff (codes "p/x") (codes "p/y")).1 e in x_is_not_y t) sealed

abbrev sealed_chunk : List ℕ
unfolding seal_bytes
sealed_chunk = to_body (seal_bytes memory relay.crypto (codes "p/x") (1 ∷ 2 ∷ []) []).0

chunk_sealed : seal_bytes memory relay.crypto (codes "p/x") (1 ∷ 2 ∷ []) [] ≡ (ok sealed_chunk, [])
unfolding seal_bytes sealed_chunk
chunk_sealed = refl

open_bytes-seal_bytes_example :
    open_bytes memory.codec relay.crypto (codes "p/x") sealed_chunk ≡ ok (1 ∷ 2 ∷ [])
open_bytes-seal_bytes_example =
    open_bytes-seal_bytes memory relay.crypto (codes "p/x") (1 ∷ 2 ∷ []) [] [] sealed_chunk
      toy_codec-IsSound refl chunk_sealed

-- Two chunks of one log at one offset have one key, whatever they hold.
abbrev chunk : Text → ℕ → LogChunk
chunk text at = record {
  agent_id = jetson;
  source = codes "a.log";
  offset = 4096;
  data_b64 = text;
  at = pos at;
}

chunk-IsNamed : (text : Text) (at : ℕ) → IsNamed (Slot.log (chunk text at))
unfolding validate_agent_id is_id_byte validate_share_name is_name_byte starts_with contains
chunk-IsNamed text at =
    (agent_id-NoSlash jetson refl, share_name-NoSlash (codes "a.log") refl, omega arith)

one_key :
    key_of relay.prefix (Slot.log (chunk [] 1)) ≡ key_of relay.prefix (Slot.log (chunk note 2))
unfolding log_key
one_key = refl

key_of-injective_example : shown (Slot.log (chunk [] 1)) ≡ shown (Slot.log (chunk note 2))
key_of-injective_example =
    key_of-injective relay.prefix (Slot.log (chunk [] 1)) (Slot.log (chunk note 2))
      (chunk-IsNamed [] 1) (chunk-IsNamed note 2) one_key

chunk_keys_ordered_example :
    (text_lt
        (blob_chunk_key relay.prefix jetson note 9)
        (blob_chunk_key relay.prefix jetson note 10)
      ≡ true)
    × (text_lt (release_chunk_key relay.prefix note 9) (release_chunk_key relay.prefix note 10)
        ≡ true)
    × (text_lt (share_chunk_key relay.prefix note 9) (share_chunk_key relay.prefix note 10) ≡ true)
chunk_keys_ordered_example =
    chunk_keys_ordered relay.prefix jetson note 9 10 (omega arith) (omega arith)
