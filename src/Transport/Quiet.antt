-- ===== src/Transport/Quiet.antt =====
-- What the transport leaves alone: an invariant that every call of the host keeps.
use s3_mcp_relay.Base.{ℕ, zero, suc, List, [], ◌∷◌, Option, none, Text}
use s3_mcp_relay.Effect.Keeps.{Keeps, Keeps-bind, Keeps-ignore, keeps_rules}
use s3_mcp_relay.Platform.{Host, Serde}
use s3_mcp_relay.Protocol.Types.{ShareManifest}
use s3_mcp_relay.Crypto.{Crypto, seal, seal_bytes}
use s3_mcp_relay.Transport.Objects.{
  get_encrypted, Transport, max_listed_objects, put_body, delete_key, get_raw, put_encrypted,
  list_pages, list_keys,
}
use s3_mcp_relay.Transport.Bulk.{
  get_release_chunk, read_update_manifest, put_chunk, get_chunk, delete_each, delete_prefix,
  put_blob_chunk, get_blob_chunk, delete_blob, put_share_chunk, get_share_chunk, put_share_manifest,
  read_share_manifest, delete_share,
}

-- Every call of the host keeps `I`.
pub record IsQuiet {W : Type 0} (h : Host W) (I : W → Type 0) : Type 0 where
  pub now_unix : (w : W) → I w → I (h.now_unix w).1
  pub fill_nonce : (w : W) → I w → I (h.fill_nonce w).1
  pub get_object : (k : Text) (w : W) → I w → I (h.get_object k w).1
  pub put_object : (k : Text) (b : List ℕ) (w : W) → I w → I (h.put_object k b w).1
  pub delete_object : (k : Text) (w : W) → I w → I (h.delete_object k w).1
  pub list_objects : (p : Text) (token : Option Text) (w : W) → I w → I (h.list_objects p token w).1

module _ {W : Type 0} {h : Host W} {I : W → Type 0} (q : IsQuiet h I) where
  put_body-Keeps : (k : Text) (b : List ℕ) → Keeps I (put_body h k b)
  unfolding put_body
  put_body-Keeps k b = search (keeps_rules, q.put_object)

  delete_key-Keeps : (k : Text) → Keeps I (delete_key h k)
  unfolding delete_key
  delete_key-Keeps k = search (keeps_rules, q.delete_object)

  get_raw-Keeps : (k : Text) (n : ℕ) → Keeps I (get_raw h k n)
  unfolding get_raw
  get_raw-Keeps k n = search (keeps_rules, q.get_object)

  seal_bytes-Keeps : (c : Crypto) (k : Text) (b : List ℕ) → Keeps I (seal_bytes h c k b)
  unfolding seal_bytes
  seal_bytes-Keeps c k b = search (keeps_rules, q.fill_nonce)

  put_chunk-Keeps : (c : Crypto) (k : Text) (b : List ℕ) → Keeps I (put_chunk h c k b)
  unfolding put_chunk
  put_chunk-Keeps c k b = search (keeps_rules, seal_bytes-Keeps, put_body-Keeps)

  get_chunk-Keeps : (c : Crypto) (k : Text) → Keeps I (get_chunk h c k)
  unfolding get_chunk
  get_chunk-Keeps c k = search (keeps_rules, get_raw-Keeps)

  seal-Keeps : {A : Type 0} (s : Serde A) (c : Crypto) (k : Text) (a : A) → Keeps I (seal h s c k a)
  unfolding seal
  seal-Keeps s c k a = search (keeps_rules, q.fill_nonce)

  list_pages-Keeps :
      (fuel : ℕ) (p : Text) (token : Option Text) (keys : List Text)
      → Keeps I (list_pages h fuel p token keys)
  unfolding list_pages
  list_pages-Keeps zero p token keys = search keeps_rules
  list_pages-Keeps (suc fuel) p token keys =
      search (keeps_rules, q.list_objects, list_pages-Keeps fuel)

  list_keys-Keeps : (p : Text) → Keeps I (list_keys h p)
  unfolding list_keys
  list_keys-Keeps p = list_pages-Keeps (suc max_listed_objects) p none []

  delete_each-Keeps : (keys : List Text) → Keeps I (delete_each h keys)
  unfolding delete_each
  delete_each-Keeps [] = search keeps_rules
  delete_each-Keeps (k ∷ keys) =
      Keeps-bind _ _ (Keeps-ignore _ (delete_key-Keeps k)) (λ _. delete_each-Keeps keys)

  delete_prefix-Keeps : (p : Text) → Keeps I (delete_prefix h p)
  unfolding delete_prefix
  delete_prefix-Keeps p = search (keeps_rules, list_keys-Keeps, delete_each-Keeps)

  module _ (t : Transport) where
    pub put_blob_chunk-Keeps :
        (agent transfer : Text) (i : ℕ) (b : List ℕ)
        → Keeps I (put_blob_chunk h t agent transfer i b)
    unfolding put_blob_chunk
    put_blob_chunk-Keeps agent transfer i b = search (keeps_rules, put_chunk-Keeps)

    pub get_blob_chunk-Keeps :
        (agent transfer : Text) (i : ℕ) → Keeps I (get_blob_chunk h t agent transfer i)
    unfolding get_blob_chunk
    get_blob_chunk-Keeps agent transfer i = search (keeps_rules, get_chunk-Keeps)

    pub delete_blob-Keeps : (agent transfer : Text) → Keeps I (delete_blob h t agent transfer)
    unfolding delete_blob
    delete_blob-Keeps agent transfer = search (keeps_rules, delete_prefix-Keeps)

    pub put_share_chunk-Keeps :
        (name : Text) (i : ℕ) (b : List ℕ) (c : Crypto) → Keeps I (put_share_chunk h t name i b c)
    unfolding put_share_chunk
    put_share_chunk-Keeps name i b c = search (keeps_rules, put_chunk-Keeps)

    pub get_share_chunk-Keeps :
        (name : Text) (i : ℕ) (c : Crypto) → Keeps I (get_share_chunk h t name i c)
    unfolding get_share_chunk
    get_share_chunk-Keeps name i c = search (keeps_rules, get_chunk-Keeps)

    pub put_share_manifest-Keeps :
        (m : ShareManifest) (c : Crypto) → Keeps I (put_share_manifest h t m c)
    unfolding put_share_manifest
    put_share_manifest-Keeps m c = search (keeps_rules, seal-Keeps, put_body-Keeps)

    pub read_share_manifest-Keeps :
        (name : Text) (c : Crypto) → Keeps I (read_share_manifest h t name c)
    unfolding read_share_manifest
    read_share_manifest-Keeps name c = search (keeps_rules, get_raw-Keeps)

    pub delete_share-Keeps : (name : Text) → Keeps I (delete_share h t name)
    unfolding delete_share
    delete_share-Keeps name = search (keeps_rules, delete_key-Keeps, delete_prefix-Keeps)

    pub put_encrypted-Keeps :
        {A : Type 0} (s : Serde A) (k : Text) (a : A) → Keeps I (put_encrypted h s t k a)
    unfolding put_encrypted
    put_encrypted-Keeps s k a = search (keeps_rules, seal-Keeps, put_body-Keeps)

    pub get_release_chunk-Keeps :
        (release : Text) (i : ℕ) (c : Crypto) → Keeps I (get_release_chunk h t release i c)
    unfolding get_release_chunk
    get_release_chunk-Keeps release i c = search (keeps_rules, get_chunk-Keeps)

    pub read_update_manifest-Keeps : (agent : Text) → Keeps I (read_update_manifest h t agent)
    unfolding read_update_manifest get_encrypted
    read_update_manifest-Keeps agent = search (keeps_rules, get_raw-Keeps)
