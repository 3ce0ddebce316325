-- ===== src/Platform/Laws.antt =====
-- The documented behaviour of the libraries, which theorems name as hypotheses.
use s3_mcp_relay.Base.{
  ℕ, ◌≤◌, ◌≡◌, ◌≢◌, ◌⊎◌, true, List, [], ◌∷◌, Option, none, some, Text, length, take, starts_with,
}
use s3_mcp_relay.Platform.{Serde, Codec, Host, Object, Listed, ListPage}

abbrev pub IsInverse : {A : Type 0} → Serde A → Type 0
IsInverse {A} s = (a : A) (t : Text) → s.to_vec a ≡ some t → s.from_slice t ≡ some a

-- base64 and the envelope's JSON are read back, and the AEAD opens what it sealed under the same
-- key, nonce and associated data.
pub record IsSound (c : Codec) : Type 0 where
  pub base64 : (b : List ℕ) → c.decode (c.encode b) ≡ some b
  pub envelope : IsInverse c.envelopes
  pub opens :
      (key nonce aad msg ct : List ℕ)
      → c.encrypt key nonce aad msg ≡ some ct
      → c.decrypt key nonce aad ct ≡ some msg
  pub tagged :
      (key nonce aad msg ct : List ℕ) → c.encrypt key nonce aad msg ≡ some ct → 16 ≤ length ct

-- The AEAD as an ideal one: what was sealed under some associated data opens under no other.
abbrev pub IsBinding : Codec → Type 0
IsBinding c =
    (key nonce aad other msg ct : List ℕ)
    → c.encrypt key nonce aad msg ≡ some ct
    → aad ≢ other
    → c.decrypt key nonce other ct ≡ none

-- Every key of a page starts with the prefix that was asked for.
unfoldable pub IsUnder : Text → List Listed → Type 0
IsUnder prefix [] = Unit {0}
IsUnder prefix (object ∷ more) =
    ((key : Text) → object.key ≡ some key → starts_with key prefix ≡ true) × IsUnder prefix more

-- `peek` shows the bucket. A call answers for one key and leaves the others alone, and a call
-- that fails may have been carried out.
pub record IsStore {W : Type 0} (h : Host W) (peek : W → Text → Option (List ℕ)) : Type 0 where
  pub get_keeps : (k j : Text) (w : W) → peek (h.get_object k w).1 j ≡ peek w j
  pub get_absent : (k : Text) (w : W) → (h.get_object k w).0 ≡ some none → peek w k ≡ none
  pub get_present :
      (k : Text) (w : W) (o : Object)
      → (h.get_object k w).0 ≡ some (some o)
      → (b : List ℕ) × (peek w k ≡ some b)
        × ((n : ℕ) (r : List ℕ) → o.read n ≡ some r → r ≡ take n b)
  pub put_done :
      (k : Text) (b : List ℕ) (w : W)
      → (h.put_object k b w).0 ≡ some tt
      → peek (h.put_object k b w).1 k ≡ some b
  pub put_elsewhere :
      (k j : Text) (b : List ℕ) (w : W) → k ≢ j → peek (h.put_object k b w).1 j ≡ peek w j
  pub delete_done :
      (k : Text) (w : W) → (h.delete_object k w).0 ≡ some tt → peek (h.delete_object k w).1 k ≡ none
  pub delete_may :
      (k : Text) (w : W)
      → (peek (h.delete_object k w).1 k ≡ peek w k) ⊎ (peek (h.delete_object k w).1 k ≡ none)
  pub delete_elsewhere : (k j : Text) (w : W) → k ≢ j → peek (h.delete_object k w).1 j ≡ peek w j
  pub list_keeps :
      (p : Text) (token : Option Text) (w : W) (j : Text)
      → peek (h.list_objects p token w).1 j ≡ peek w j
  pub list_under :
      (p : Text) (token : Option Text) (w : W) (page : ListPage)
      → (h.list_objects p token w).0 ≡ some page
      → IsUnder p page.contents
  pub nonce_keeps : (w : W) (j : Text) → peek (h.fill_nonce w).1 j ≡ peek w j
  pub clock_keeps : (w : W) (j : Text) → peek (h.now_unix w).1 j ≡ peek w j
  pub nonce_length : (w : W) → length (h.fill_nonce w).0 ≡ 24
