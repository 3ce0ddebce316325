-- ===== src/Transport/Keys/Laws.antt =====
-- No two objects of the relay share a key.
use s3_mcp_relay.Base.{
  ℕ, ◌+◌, ◌*◌, ◌<◌, ◌^◌, ◌≡◌, ◌≢◌, true, List, [], ◌∷◌, ◌++◌, append_assoc, append_cancel_left,
  arith, refl, ap, sym, ◌∙◌, Text, codes, All, length, padded, padded-injective, padded-IsDigit,
  IsDigit, length-padded, text_lt-padded, text_lt, tail, subst, length-append, pos,
}
use s3_mcp_relay.Protocol.Types.{LogChunk}
use s3_mcp_relay.Protocol.Names.Laws.{NoSlash}
use s3_mcp_relay.Transport.Keys.{
  cmd_key, resp_key, agent_key, doorbell_key, log_key, log_prefix, blob_chunk_key, blob_prefix,
  update_manifest_key, release_chunk_key, release_prefix, share_manifest_key, share_chunk_key,
  share_prefix,
}

-- The objects that the relay keeps in the bucket.
pub data Slot : Type 0 where
  command response : (agent id : Text) → Slot
  heartbeat doorbell : (agent : Text) → Slot
  log : LogChunk → Slot
  blob_chunk : (agent transfer : Text) (index : ℕ) → Slot
  update_manifest : (agent : Text) → Slot
  release_chunk : (release : Text) (index : ℕ) → Slot
  share_manifest : (name : Text) → Slot
  share_chunk : (name : Text) (index : ℕ) → Slot

-- The texts that name an object hold no slash, and a log offset fits its 20 digits, as each `u64`
-- does.
abbrev pub IsNamed : Slot → Type 0
IsNamed (command agent id) = NoSlash agent × NoSlash id
IsNamed (response agent id) = NoSlash agent × NoSlash id
IsNamed (heartbeat agent) = NoSlash agent
IsNamed (doorbell agent) = NoSlash agent
IsNamed (log chunk) = NoSlash chunk.agent_id × NoSlash chunk.source × (chunk.offset < 2 ^ 64)
IsNamed (blob_chunk agent transfer index) = NoSlash agent × NoSlash transfer
IsNamed (update_manifest agent) = NoSlash agent
IsNamed (release_chunk release index) = NoSlash release
IsNamed (share_manifest name) = NoSlash name
IsNamed (share_chunk name index) = NoSlash name

-- The part of a log chunk that its key shows.
abbrev pub shown : Slot → Slot
shown (log chunk) = log (record chunk { data_b64 = []; at = pos 0 })
shown slot = slot

module _ (prefix : Text) where
  abbrev pub key_of : Slot → Text
  key_of (command agent id) = cmd_key prefix agent id
  key_of (response agent id) = resp_key prefix agent id
  key_of (heartbeat agent) = agent_key prefix agent
  key_of (doorbell agent) = doorbell_key prefix agent
  key_of (log chunk) = log_key prefix chunk
  key_of (blob_chunk agent transfer index) = blob_chunk_key prefix agent transfer index
  key_of (update_manifest agent) = update_manifest_key prefix agent
  key_of (release_chunk release index) = release_chunk_key prefix release index
  key_of (share_manifest name) = share_manifest_key prefix name
  key_of (share_chunk name index) = share_chunk_key prefix name index

-- A key below the prefix as its parts between slashes.
parts : Slot → List Text
parts (command agent id) = codes "cmd" ∷ agent ∷ (id ++ codes ".json") ∷ []
parts (response agent id) = codes "resp" ∷ agent ∷ (id ++ codes ".json") ∷ []
parts (heartbeat agent) = codes "agents" ∷ (agent ++ codes ".json") ∷ []
parts (doorbell agent) = codes "doorbell" ∷ (agent ++ codes ".json") ∷ []
parts (log chunk) =
    codes "logs"
    ∷ chunk.agent_id
    ∷ (chunk.source ++ (codes "-" ++ (padded 20 chunk.offset ++ codes ".json")))
    ∷ []
parts (blob_chunk agent transfer index) = codes "blob" ∷ agent ∷ transfer ∷ padded 8 index ∷ []
parts (update_manifest agent) = codes "updates" ∷ codes "manifest" ∷ (agent ++ codes ".json") ∷ []
parts (release_chunk release index) = codes "updates" ∷ codes "blob" ∷ release ∷ padded 8 index ∷ []
parts (share_manifest name) = codes "share" ∷ name ∷ codes "manifest" ∷ []
parts (share_chunk name index) = codes "share" ∷ name ∷ padded 8 index ∷ []

-- The parts with a slash between each two.
join : List Text → Text
join [] = []
join (p ∷ []) = p
join (p ∷ q ∷ ps) = p ++ b'/' ∷ join (q ∷ ps)

key_of-join : (prefix : Text) (s : Slot) → key_of prefix s ≡ prefix ++ join (parts s)
unfolding cmd_key resp_key agent_key doorbell_key log_key log_prefix blob_chunk_key blob_prefix
    update_manifest_key release_chunk_key release_prefix share_manifest_key share_chunk_key
    share_prefix parts join
key_of-join prefix (command a i) = simp append_assoc
key_of-join prefix (response a i) = simp append_assoc
key_of-join prefix _ = simp append_assoc

first_slash :
    (a b r s : Text) → NoSlash a → NoSlash b → a ++ b'/' ∷ r ≡ b ++ b'/' ∷ s → (a ≡ b) × (r ≡ s)
first_slash [] [] r s h k e = (refl, cc)
first_slash [] (c ∷ b) r s h k e = absurd (k.0 (ground arith))
first_slash (c ∷ a) [] r s h k e = absurd (h.0 (ground arith))
first_slash (c ∷ a) (d ∷ b) r s h k e =
    let (same, rest) = first_slash a b r s h.1 k.1 (cc) in (cc, rest)

no_first_slash : (a b s : Text) → NoSlash a → a ≢ b ++ b'/' ∷ s
no_first_slash [] [] s h e = cc
no_first_slash [] (d ∷ b) s h e = cc
no_first_slash (c ∷ a) [] s h e = absurd (h.0 (ground arith))
no_first_slash (c ∷ a) (d ∷ b) s h e = no_first_slash a b s h.1 (cc)

join-injective :
    (p q : Text) (ps qs : List Text)
    → All NoSlash (p ∷ ps)
    → All NoSlash (q ∷ qs)
    → join (p ∷ ps) ≡ join (q ∷ qs)
    → p ∷ ps ≡ q ∷ qs
unfolding join
join-injective p q [] [] h k e = cc
join-injective p q [] (q' ∷ qs) h k e = absurd (no_first_slash p q _ h.0 e)
join-injective p q (p' ∷ ps) [] h k e = absurd (no_first_slash q p _ k.0 (sym e))
join-injective p q (p' ∷ ps) (q' ∷ qs) h k e =
    let (same, rest) = first_slash p q _ _ h.0 k.0 e in cc (join-injective p' q' ps qs h.1 k.1 rest)

NoSlash-append : (a b : Text) → NoSlash a → NoSlash b → NoSlash (a ++ b)
NoSlash-append [] b h k = k
NoSlash-append (c ∷ a) b h k = (h.0, NoSlash-append a b h.1 k)

padded-NoSlash : (w n : ℕ) → NoSlash (padded w n)
padded-NoSlash w n = go (padded w n) (padded-IsDigit w n)
  where
    go : (t : Text) → All IsDigit t → NoSlash t
    go [] h = tt
    go (c ∷ t) h = (omega arith, go t h.1)

json-NoSlash : (a : Text) → NoSlash a → NoSlash (a ++ codes ".json")
json-NoSlash a h = NoSlash-append a (codes ".json") h (omega arith)

parts-NoSlash : (s : Slot) → IsNamed s → All NoSlash (parts s)
unfolding parts
parts-NoSlash (command a i) h = (omega arith, (h.0, (json-NoSlash i h.1, tt)))
parts-NoSlash (response a i) h = (omega arith, (h.0, (json-NoSlash i h.1, tt)))
parts-NoSlash (heartbeat a) h = (omega arith, (json-NoSlash a h, tt))
parts-NoSlash (doorbell a) h = (omega arith, (json-NoSlash a h, tt))
parts-NoSlash (log c) h =
    let number = json-NoSlash (padded 20 c.offset) (padded-NoSlash 20 c.offset) in
    let rest = codes "-" ++ (padded 20 c.offset ++ codes ".json") in
    (omega arith, (h.0, (NoSlash-append c.source rest h.1 (omega arith, number), tt)))
parts-NoSlash (blob_chunk a t i) h = (omega arith, (h.0, (h.1, (padded-NoSlash 8 i, tt))))
parts-NoSlash (update_manifest a) h = (omega arith, (omega arith, (json-NoSlash a h, tt)))
parts-NoSlash (release_chunk r i) h = (omega arith, (omega arith, (h, (padded-NoSlash 8 i, tt))))
parts-NoSlash (share_manifest n) h = (omega arith, (h, (omega arith, tt)))
parts-NoSlash (share_chunk n i) h = (omega arith, (h, (padded-NoSlash 8 i, tt)))

-- Two texts with ends of one length agree part by part.
ends_agree : (s t u v : Text) → length u ≡ length v → s ++ u ≡ t ++ v → (s ≡ t) × (u ≡ v)
ends_agree [] [] u v e p = (refl, p)
ends_agree [] (d ∷ t) u v e p =
    absurd (omega (arith, ap (length {A = ℕ}) p, length-append (d ∷ t) v))
ends_agree (c ∷ s) [] u v e p =
    absurd (omega (arith, ap (length {A = ℕ}) p, length-append (c ∷ s) u))
ends_agree (c ∷ s) (d ∷ t) u v e p = let (same, rest) = ends_agree s t u v e (cc) in (cc, rest)

json_agree : (s t : Text) → s ++ codes ".json" ≡ t ++ codes ".json" → s ≡ t
json_agree s t e = (ends_agree s t (codes ".json") (codes ".json") refl e).0

manifest_ne_index : (i : ℕ) → codes "manifest" ≢ padded 8 i
manifest_ne_index i e = omega (arith, subst (All IsDigit) (sym e) (padded-IsDigit 8 i))

log_end : ℕ → Text
log_end offset = codes "-" ++ (padded 20 offset ++ codes ".json")

length-log_end : (offset : ℕ) → offset < 2 ^ 64 → length (log_end offset) ≡ 26
unfolding log_end
length-log_end offset h =
    omega (
      arith,
      length-append (padded 20 offset) (codes ".json"),
      length-padded 19 offset (omega arith),
    )

log_agree :
    (s t : Text) (m n : ℕ)
    → m < 2 ^ 64
    → n < 2 ^ 64
    → s ++ log_end m ≡ t ++ log_end n
    → (s ≡ t) × (m ≡ n)
unfolding log_end
log_agree s t m n h k e =
    let (same, ends) =
      ends_agree s t (log_end m) (log_end n) (length-log_end m h ∙ sym (length-log_end n k)) e in
    (same, padded-injective 20 m n (json_agree (padded 20 m) (padded 20 n) (ap tail ends)))

-- The first byte of the first part, and the number of parts.
abbrev first_byte : Text → ℕ
first_byte [] = 0
first_byte (c ∷ _) = c

abbrev weight : List Text → ℕ
weight [] = 0
weight (p ∷ ps) = first_byte p + 1000 * length ps

abbrev third : List Text → Text
third (_ ∷ _ ∷ p ∷ _) = p
third _ = []

parts-injective : (s t : Slot) → IsNamed s → IsNamed t → parts s ≡ parts t → shown s ≡ shown t
unfolding parts log_end
parts-injective (command a i) (command b j) h k e = cc (json_agree i j (cc))
parts-injective (response a i) (response b j) h k e = cc (json_agree i j (cc))
parts-injective (heartbeat a) (heartbeat b) h k e = cc (json_agree a b (cc))
parts-injective (doorbell a) (doorbell b) h k e = cc (json_agree a b (cc))
parts-injective (log c) (log d) h k e =
    let (same, offsets) = log_agree c.source d.source c.offset d.offset h.2 k.2 (ap third e) in cc
parts-injective (blob_chunk a t i) (blob_chunk b u j) h k e = cc (padded-injective 8 i j (cc))
parts-injective (update_manifest a) (update_manifest b) h k e = cc (json_agree a b (cc))
parts-injective (release_chunk r i) (release_chunk q j) h k e = cc (padded-injective 8 i j (cc))
parts-injective (share_manifest n) (share_manifest m) h k e = cc
parts-injective (share_manifest n) (share_chunk m i) h k e = absurd (manifest_ne_index i (cc))
parts-injective (share_chunk m i) (share_manifest n) h k e = absurd (manifest_ne_index i (cc))
parts-injective (share_chunk n i) (share_chunk m j) h k e = cc (padded-injective 8 i j (cc))
parts-injective _ _ h k e = absurd (omega (arith, ap weight e))

parts-cons : (s : Slot) → (p : Text) × (ps : List Text) × (parts s ≡ p ∷ ps)
unfolding parts
parts-cons (command a i) = (_, _, refl)
parts-cons _ = (_, _, refl)

-- Two objects whose names hold no slash and whose log offsets are below 2 ^ 64 have one key only if
-- they agree in all but a log chunk's bytes and time: no command,
-- response, heartbeat, doorbell, log chunk, transfer chunk, update manifest, release chunk, share
-- manifest or share chunk has the key of another, of its own class or of a different one.
pub key_of-injective :
    (prefix : Text) (s t : Slot)
    → IsNamed s
    → IsNamed t
    → key_of prefix s ≡ key_of prefix t
    → shown s ≡ shown t
key_of-injective prefix s t h k e =
    let (p, ps, x) = parts-cons s in
    let (q, qs, y) = parts-cons t in
    let joined =
      append_cancel_left prefix (join (parts s)) (join (parts t))
        (sym (key_of-join prefix s) ∙ e ∙ key_of-join prefix t) in
    let same =
      join-injective p q ps qs (subst (All NoSlash) x (parts-NoSlash s h))
        (subst (All NoSlash) y (parts-NoSlash t k)) (sym (ap join x) ∙ joined ∙ ap join y) in
    parts-injective s t h k (x ∙ same ∙ sym y)

text_lt-append : (p s t : Text) → text_lt s t ≡ true → text_lt (p ++ s) (p ++ t) ≡ true
unfolding text_lt
text_lt-append [] s t h = h
text_lt-append (c ∷ p) s t h = ground (arith, text_lt-append p s t h)

-- A listing in the order of keys gives the chunks of a transfer, a release and a share in the order
-- of their indices, up to 100 million chunks.
pub chunk_keys_ordered :
    (prefix agent name : Text) (m n : ℕ)
    → m < n
    → n < 10 ^ 8
    → (text_lt (blob_chunk_key prefix agent name m) (blob_chunk_key prefix agent name n) ≡ true)
      × (text_lt (release_chunk_key prefix name m) (release_chunk_key prefix name n) ≡ true)
      × (text_lt (share_chunk_key prefix name m) (share_chunk_key prefix name n) ≡ true)
unfolding blob_chunk_key release_chunk_key share_chunk_key
chunk_keys_ordered prefix agent name m n lt b =
    let order = text_lt-padded 7 m n lt b in
    (text_lt-append _ _ _ order, text_lt-append _ _ _ order, text_lt-append _ _ _ order)
