-- ===== src/Tests/Memory.antt =====
-- A bucket in memory, a clock that stands still and toy libraries, on which the theorems are tried.
use s3_mcp_relay.Base.{
  ℕ, ◌+◌, ◌≤◌, ◌≡◌, ◌≢◌, inl, inr, false, ◌&&◌, Option, none, some, List, [], ◌∷◌, ◌++◌, arith,
  refl, subst, sym, ◌∙◌, Text, codes, text_eq, text_eq_iff, text_eq_refl, eq-false_of_ne, length,
  take, drop, replicate, take-append_exact, drop-append_exact, starts_with, ◌==◌, if◌then◌else◌,
  pos, Bool-cases, Option-cases,
}
use s3_mcp_relay.Platform.{Serde, Codec, Host, Envelope, Object, Listed, ListPage}
use s3_mcp_relay.Platform.Laws.{IsSound, IsBinding, IsStore, IsUnder}
use s3_mcp_relay.Protocol.Types.{Command, CommandKind}

abbrev pub World : Type 0
World = List (Text × List ℕ)

unfoldable pub lookup : World → Text → Option (List ℕ)
lookup [] key = none
lookup ((k, b) ∷ w) key = if text_eq k key then some b else lookup w key

unfoldable pub discard : Text → World → World
discard key [] = []
discard key ((k, b) ∷ w) = if text_eq k key then discard key w else (k, b) ∷ discard key w

lookup-discard_same : (key : Text) (w : World) → lookup (discard key w) key ≡ none
unfolding lookup discard
lookup-discard_same key [] = refl
lookup-discard_same key ((k, b) ∷ w) = ground (arith, lookup-discard_same key w)

pub lookup-discard_other :
    (key j : Text) (w : World) → key ≢ j → lookup (discard key w) j ≡ lookup w j
unfolding lookup discard
lookup-discard_other key j [] ne = refl
lookup-discard_other key j ((k, b) ∷ w) ne = elim (Bool-cases (text_eq k key)) [
  | inl same ↦
      let e = (text_eq_iff k key).0 same in
      elim (Bool-cases (text_eq k j)) [
        | inl also ↦ absurd (ne (sym e ∙ (text_eq_iff k j).0 also))
        | inr other ↦ ground (arith, lookup-discard_other key j w ne)
      ]
  | inr other ↦ ground (arith, lookup-discard_other key j w ne)
]

-- A command is its id, the instance it names and the time of its creation.
abbrev pub test_command : Text → Option Text → ℕ → Command
test_command id target at = record {
  id = id;
  agent_id = codes "jetson";
  protocol = 2;
  created_at = pos at;
  expires_at = pos (at + 100);
  timeout_secs = 30;
  instance_id = target;
  kind = CommandKind.ping;
}

abbrev pub command_serde : Serde Command
command_serde = record {
  to_vec = λ c. some c.id;
  from_slice = λ t.
      if text_eq t (codes "a")
      then some (test_command (codes "a") none 7)
      else if text_eq t (codes "b")
      then some (test_command (codes "b") (some (codes "other")) 5)
      else if text_eq t (codes "c")
      then some (test_command (codes "c") (some (codes "me")) 3)
      else none;
}

abbrev pub no_serde : {A : Type 0} → Serde A
no_serde = record { to_vec = λ _. none; from_slice = λ _. none }

abbrev pub text_serde : Serde Text
text_serde = record { to_vec = some; from_slice = some }

-- Texts in an envelope have their length in front.
unfoldable pub to_envelope : List ℕ → Option Envelope
to_envelope [] = none
to_envelope (v ∷ []) = none
to_envelope (v ∷ k ∷ []) = none
to_envelope (v ∷ k ∷ n ∷ rest) = some (record {
  version = v;
  key_id = take k rest;
  nonce_b64 = take n (drop k rest);
  ciphertext_b64 = drop n (drop k rest);
})

abbrev pub envelope_serde : Serde Envelope
envelope_serde = record {
  to_vec = λ e. some (
      e.version
      ∷ length e.key_id
      ∷ length e.nonce_b64
      ∷ (e.key_id ++ (e.nonce_b64 ++ e.ciphertext_b64)));
  from_slice = to_envelope;
}

-- The ciphertext is the associated data, its length in front, and the message.
abbrev pub toy_encrypt : List ℕ → List ℕ → List ℕ → List ℕ → Option (List ℕ)
toy_encrypt key nonce aad msg = some (replicate 16 0 ++ length aad ∷ (aad ++ msg))

unfoldable pub toy_open : List ℕ → List ℕ → Option (List ℕ)
toy_open aad [] = none
toy_open aad (n ∷ rest) =
    if n == length aad && text_eq (take n rest) aad then some (drop n rest) else none

abbrev pub toy_decrypt : List ℕ → List ℕ → List ℕ → List ℕ → Option (List ℕ)
toy_decrypt key nonce aad ct = toy_open aad (drop 16 ct)

abbrev pub toy_codec : Codec
toy_codec = record {
  is_uuid = λ t. length t == 1;
  encode = λ b. b;
  decode = some;
  trim = λ t. t;
  encrypt = toy_encrypt;
  decrypt = toy_decrypt;
  envelopes = envelope_serde;
  commands = command_serde;
  responses = no_serde;
  heartbeats = no_serde;
  log_chunks = no_serde;
  share_manifests = no_serde;
  update_manifests = no_serde;
  doorbells = no_serde;
}

to_envelope_lem :
    (e : Envelope) (t : Text) → envelope_serde.to_vec e ≡ some t → to_envelope t ≡ some e
unfolding to_envelope
to_envelope_lem e t h =
    let k = e.key_id in
    let n = e.nonce_b64 in
    let c = e.ciphertext_b64 in
    let same : t ≡ e.version ∷ length k ∷ length n ∷ (k ++ (n ++ c)) = ground arith in
    rw same (
      rw
        (take-append_exact (length k) k (n ++ c) refl, drop-append_exact (length k) k (n ++ c) refl)
        (rw (take-append_exact (length n) n c refl, drop-append_exact (length n) n c refl) refl))

-- What was sealed under `aad`, opened under `other`.
toy_open_lem :
    (aad other msg : List ℕ)
    → toy_open other (length aad ∷ (aad ++ msg))
      ≡ (if length aad == length other && text_eq aad other then some msg else none)
unfolding toy_open
toy_open_lem aad other msg =
    rw (take-append_exact (length aad) aad msg refl, drop-append_exact (length aad) aad msg refl)
      refl

toy_opens :
    (key nonce aad msg ct : List ℕ)
    → toy_encrypt key nonce aad msg ≡ some ct
    → toy_decrypt key nonce aad ct ≡ some msg
toy_opens key nonce aad msg ct e =
    let same : ct ≡ replicate 16 0 ++ length aad ∷ (aad ++ msg) = ground arith in
    rw same (toy_open_lem aad aad msg ∙ ground (arith, text_eq_refl aad))

toy_tagged :
    (key nonce aad msg ct : List ℕ) → toy_encrypt key nonce aad msg ≡ some ct → 16 ≤ length ct
toy_tagged key nonce aad msg ct e =
    let same : ct ≡ replicate 16 0 ++ length aad ∷ (aad ++ msg) = ground arith in
    rw same (omega arith)

pub toy_codec-IsSound : IsSound toy_codec
toy_codec-IsSound = record {
  base64 = λ b. refl;
  envelope = to_envelope_lem;
  opens = toy_opens;
  tagged = toy_tagged;
}

pub toy_codec-IsBinding : IsBinding toy_codec
toy_codec-IsBinding key nonce aad other msg ct e ne =
    let same : ct ≡ replicate 16 0 ++ length aad ∷ (aad ++ msg) = ground arith in
    let differs : text_eq aad other ≡ false =
      eq-false_of_ne _ (λ t. ne ((text_eq_iff aad other).0 t)) in
    rw same (toy_open_lem aad other msg ∙ ground arith)

abbrev pub objects_under : Text → World → List Listed
objects_under prefix [] = []
objects_under prefix ((k, b) ∷ w) =
    if starts_with k prefix
    then record { key = some k; last_modified = none } ∷ objects_under prefix w
    else objects_under prefix w

abbrev pub to_object : Option (List ℕ) → Option Object
to_object none = none
to_object (some b) =
    some (record { content_length = some (pos (length b)); read = λ n. some (take n b) })

abbrev pub memory : Host World
memory = record {
  codec = toy_codec;
  now_unix = λ w. (pos 50, w);
  now_instant = λ w. (0, w);
  sleep = λ n w. w;
  fill_nonce = λ w. (replicate 24 9, w);
  new_uuid = λ w. (codes "u", w);
  get_object = λ k w. (some (to_object (lookup w k)), w);
  put_object = λ k b w. (some tt, (k, b) ∷ w);
  delete_object = λ k w. (some tt, discard k w);
  head_object = λ k w. (some none, w);
  list_objects = λ prefix token w. (
    some (record { contents = objects_under prefix w; is_truncated = none; next_token = none }),
    w,
  );
}

memory_present :
    (k : Text) (w : World) (o : Object)
    → (memory.get_object k w).0 ≡ some (some o)
    → (b : List ℕ) × (lookup w k ≡ some b)
      × ((n : ℕ) (r : List ℕ) → o.read n ≡ some r → r ≡ take n b)
memory_present k w o e = elim (Option-cases (lookup w k)) [
  | inl absent ↦ absurd (ground arith)
  | inr (b, there) ↦
      let same : o
          ≡ record { content_length = some (pos (length b)); read = λ n. some (take n b) } =
        ground arith in
      (b, there, λ n r reads. ground arith)
]

objects_under-IsUnder : (prefix : Text) (w : World) → IsUnder prefix (objects_under prefix w)
unfolding IsUnder
objects_under-IsUnder prefix [] = tt
objects_under-IsUnder prefix ((k, b) ∷ w) = elim (Bool-cases (starts_with k prefix)) [
  | inl under ↦ rw under ((λ key e. ground arith), objects_under-IsUnder prefix w)
  | inr other ↦ rw other (objects_under-IsUnder prefix w)
]

memory-IsUnder :
    (p : Text) (token : Option Text) (w : World) (page : ListPage)
    → (memory.list_objects p token w).0 ≡ some page
    → IsUnder p page.contents
memory-IsUnder p token w page e =
    let same : objects_under p w ≡ page.contents = ground arith in
    subst (IsUnder p) same (objects_under-IsUnder p w)

pub memory-IsStore : IsStore memory lookup
unfolding lookup
memory-IsStore = record {
  get_keeps = λ k j w. refl;
  get_absent = λ k w e. ground arith;
  get_present = memory_present;
  put_done = λ k b w e. rw (text_eq_refl k) refl;
  put_elsewhere = λ k j b w ne. ground (arith, text_eq_iff k j);
  delete_done = λ k w e. lookup-discard_same k w;
  delete_may = λ k w. inr (lookup-discard_same k w);
  delete_elsewhere = λ k j w ne. lookup-discard_other k j w ne;
  list_keeps = λ p token w j. refl;
  list_under = memory-IsUnder;
  nonce_keeps = λ w j. refl;
  clock_keeps = λ w j. refl;
  nonce_length = λ w. refl;
}
