-- ===== src/Transport/Objects.antt =====
-- The operations on single objects and listings that the rest of crates/common/src/transport.rs is
-- built from.
pub mod Laws
use s3_mcp_relay.Base.{
  ℕ, zero, suc, ◌+◌, Bool, true, false, Option, none, some, List, [], ◌∷◌, ◌++◌, Text, length, ok,
  err, ℤ, pos, negsuc, ltb, leb, if◌then◌else◌,
}
use s3_mcp_relay.Failure.{Error, Outcome}
use s3_mcp_relay.Effect.{Eff, ◌>>=◌, ◌>>◌, lift, pure, fail, request, option_or}
use s3_mcp_relay.Platform.{Serde, Host, Object, Listed, ListPage}
use s3_mcp_relay.Crypto.{Crypto, seal, open_object}

-- `Transport`, less the client and the bucket, which the host stands for.
pub record Transport : Type 0 where
  pub prefix : Text
  pub crypto : Crypto

abbrev pub max_relay_object_bytes : ℕ
max_relay_object_bytes = 4194304

abbrev pub max_listed_objects : ℕ
max_listed_objects = 10000

abbrev pub blob_chunk_bytes : ℕ
blob_chunk_bytes = 8388608

abbrev pub max_blob_chunk_bytes : ℕ
max_blob_chunk_bytes = 67108864

-- `out.content_length().is_some_and(|size| size < 0 || size as usize > max_bytes)`
abbrev pub is_oversized : ℕ → Option ℤ → Bool
is_oversized most none = false
is_oversized most (some (negsuc _)) = true
is_oversized most (some (pos n)) = ltb most n

-- The body of an object that was found.
unfoldable pub read_object : ℕ → Object → Outcome (Option (List ℕ))
read_object max_bytes out =
    if is_oversized max_bytes out.content_length
    then err Error.object_too_large
    else elim (out.read (max_bytes + 1)) [
      | none ↦ err (Error.service 0)
      | some bytes ↦
          if ltb max_bytes (length bytes) then err Error.object_too_large else ok (some bytes)
    ]

abbrev pub read_found : ℕ → Option Object → Outcome (Option (List ℕ))
read_found max_bytes none = ok none
read_found max_bytes (some out) = read_object max_bytes out

-- The keys of a page, after those of the pages before it.
unfoldable pub push_keys : List Listed → List Text → Outcome (List Text)
push_keys [] keys = ok keys
push_keys (object ∷ more) keys = elim object.key [
  | none ↦ push_keys more keys
  | some key ↦
      let rest = push_keys more (keys ++ key ∷ []) in
      if leb max_listed_objects (length keys) then err Error.too_many_objects else rest
]

abbrev pub is_truncated : Option Bool → Bool
is_truncated none = false
is_truncated (some b) = b

module _ {W : Type 0} (h : Host W) where
  -- `.send().await` of a PUT, with the failure's context left out.
  unfoldable pub put_body : Text → List ℕ → Eff W (Unit {0})
  put_body key body = request (Error.service 1) (h.put_object key body)

  unfoldable pub delete_key : Text → Eff W (Unit {0})
  delete_key key = request (Error.service 2) (h.delete_object key)

  unfoldable pub get_raw : Text → ℕ → Eff W (Option (List ℕ))
  get_raw key max_bytes = do
    found ← request (Error.service 3) (h.get_object key)
    lift (read_found max_bytes found)

  unfoldable pub put_encrypted : {A : Type 0} → Serde A → Transport → Text → A → Eff W (Unit {0})
  put_encrypted serde t key value = do
    body ← seal h serde t.crypto key value
    if ltb max_relay_object_bytes (length body)
        then fail Error.object_too_large
        else put_body key body

  -- `crypto.open(key, &bytes)?` on what a GET gave.
  unfoldable pub open_found :
      {A : Type 0} → Serde A → Transport → Text → Option (List ℕ) → Outcome (Option A)
  open_found serde t key none = ok none
  open_found serde t key (some bytes) = elim (open_object h.codec serde t.crypto key bytes) [
    | ok value ↦ ok (some value)
    | err e ↦ err e
  ]

  unfoldable pub get_encrypted : {A : Type 0} → Serde A → Transport → Text → Eff W (Option A)
  get_encrypted serde t key = do
    bytes ← get_raw key max_relay_object_bytes
    lift (open_found serde t key bytes)

  -- The rest of `take_encrypted` once the object is read: it is deleted before it is opened.
  unfoldable pub take_found :
      {A : Type 0} → Serde A → Transport → Text → Option (List ℕ) → Eff W (Option A)
  take_found serde t key none = pure none
  take_found serde t key (some bytes) = do
    delete_key key
    lift (open_found serde t key (some bytes))

  unfoldable pub take_encrypted : {A : Type 0} → Serde A → Transport → Text → Eff W (Option A)
  take_encrypted serde t key = do
    bytes ← get_raw key max_relay_object_bytes
    take_found serde t key bytes

  -- The loop of `list_keys`, one page a round.
  unfoldable pub list_pages : ℕ → Text → Option Text → List Text → Eff W (List Text)
  list_pages zero prefix token keys = fail Error.out_of_fuel
  list_pages (suc fuel) prefix token keys = do
    out ← request (Error.service 4) (h.list_objects prefix token)
    keys' ← lift (push_keys out.contents keys)
    let rest = list_pages fuel prefix out.next_token keys'
    if is_truncated out.is_truncated then rest else pure keys'

  unfoldable pub list_keys : Text → Eff W (List Text)
  unfolding list_pages
  list_keys prefix = list_pages (suc max_listed_objects) prefix none []
