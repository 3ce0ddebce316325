-- ===== src/Transport/Mailbox/Claims.antt =====
-- One round of a drain and the loop over the keys: what is taken and what stays.
use s3_mcp_relay.Base.{
  eq-false_of_ne, ℕ, ◌≡◌, ◌≢◌, ◌⊎◌, inl, inr, true, false, Option, none, some, List, [], ◌∷◌, ◌++◌,
  arith, refl, ap, sym, ◌∙◌, subst, Text, text_eq, text_eq_iff, ok, Bool-cases, All,
}
use s3_mcp_relay.Failure.{Outcome-cases}
use s3_mcp_relay.Effect.{continue_ok}
use s3_mcp_relay.Platform.{Host}
use s3_mcp_relay.Platform.Laws.{IsStore}
use s3_mcp_relay.Protocol.Types.{Command}
use s3_mcp_relay.Crypto.{open_object}
use s3_mcp_relay.Transport.Objects.{Transport, max_relay_object_bytes, delete_key, get_raw}
use s3_mcp_relay.Transport.Objects.Laws.{
  Under, get_raw-keeps, get_raw-some, delete_key-elsewhere, delete_key-done, delete_key-shrinks,
}
use s3_mcp_relay.Transport.Mailbox.{is_for_other, drain_key, drain_keys}

-- The key of an object is the one at hand, or another.
key_cases : (k j : Text) → (k ≡ j) ⊎ (k ≢ j)
key_cases k j = elim (Bool-cases (text_eq k j)) [
  | inl same ↦ inl ((text_eq_iff k j).0 same)
  | inr other ↦ inr (λ e. let t = (text_eq_iff k j).1 e in cc)
]

own_target :
    (mine : Text) (c : Command)
    → is_for_other mine c ≡ false
    → (target : Text) → c.instance_id ≡ some target
    → target ≡ mine
own_target mine c own target e = (text_eq_iff target mine).0 (ground arith)

pub other_target :
    (mine : Text) (c : Command) (target : Text)
    → c.instance_id ≡ some target
    → target ≢ mine
    → is_for_other mine c ≡ true
other_target mine c target e ne =
    let differs = eq-false_of_ne _ (λ t. ne ((text_eq_iff target mine).0 t)) in ground arith

module _ {W : Type 0} (h : Host W) (t : Transport) {peek : W → Text → Option (List ℕ)}
    (s : IsStore h peek) (prefix mine : Text) where
  -- In the world `start` the object at `key`, a key under `prefix`, held the command, addressed to any process or to this
  -- one; in `now` it is gone.
  pub record IsClaimed (start now : W) (c : Command) : Type 0 where
    pub key : Text
    pub body : List ℕ
    pub under : Under prefix key
    pub there : peek start key ≡ some body
    pub opened : open_object h.codec h.codec.commands t.crypto key body ≡ ok c
    pub for_me : (target : Text) → c.instance_id ≡ some target → target ≡ mine
    pub gone : peek now key ≡ none

  -- No object comes back or changes.
  abbrev Shrinks : W → W → Type 0
  Shrinks w v = (j : Text) → (peek v j ≡ peek w j) ⊎ (peek v j ≡ none)

  Shrinks-trans : (u v w : W) → Shrinks u v → Shrinks v w → Shrinks u w
  Shrinks-trans u v w a b j = ground (arith, a j, b j)

  drain_key-Shrinks :
      (k : Text) (commands : List Command) (w : W) → Shrinks w (drain_key h t mine k commands w).1
  unfolding drain_key
  drain_key-Shrinks k commands w j =
      let v = (get_raw h k max_relay_object_bytes w).1 in
      ground (arith, get_raw-keeps s k j max_relay_object_bytes w, delete_key-shrinks s k j v)

  IsClaimed-later :
      (start w v : W) (c : Command) → Shrinks w v → IsClaimed start w c → IsClaimed start v c
  IsClaimed-later start w v c shrunk z = record {
    key = z.key;
    body = z.body;
    under = z.under;
    there = z.there;
    opened = z.opened;
    for_me = z.for_me;
    gone = ground (arith, shrunk z.key, z.gone);
  }

  IsClaimed-earlier :
      (start w v : W) (c : Command) → Shrinks start w → IsClaimed w v c → IsClaimed start v c
  IsClaimed-earlier start w v c shrunk z = record {
    key = z.key;
    body = z.body;
    under = z.under;
    there = ground (arith, shrunk z.key, z.there);
    opened = z.opened;
    for_me = z.for_me;
    gone = z.gone;
  }

  All-later :
      (start w v : W) (cs : List Command)
      → Shrinks w v
      → All (IsClaimed start w) cs
      → All (IsClaimed start v) cs
  All-later start w v [] shrunk h = tt
  All-later start w v (c ∷ cs) shrunk h =
      (IsClaimed-later start w v c shrunk h.0, All-later start w v cs shrunk h.1)

  -- What one round has done when it succeeds: it took nothing, or one command that is now gone.
  drain_key_lem :
      (k : Text) (cs ds : List Command) (w : W)
      → Under prefix k
      → (drain_key h t mine k cs w).0 ≡ ok ds
      → (ds ≡ cs)
        ⊎ ((c : Command) × (ds ≡ cs ++ c ∷ []) × IsClaimed w (drain_key h t mine k cs w).1 c)
  unfolding drain_key
  drain_key_lem k cs ds w under e =
      let m = max_relay_object_bytes in
      let v = (get_raw h k m w).1 in
      elim (Outcome-cases (get_raw h k m w).0) [
        | inr (bad, failed) ↦ absurd (ground arith)
        | inl (none, found) ↦ inl (ground arith)
        | inl (some b, found) ↦
            let there = get_raw-some s k m w b found in
            elim (Outcome-cases (open_object h.codec h.codec.commands t.crypto k b)) [
              | inr (bad, closed) ↦ inl (ground arith)
              | inl (c, opened) ↦ elim (Bool-cases (is_for_other mine c)) [
                | inl other ↦ inl (ground arith)
                | inr own ↦
                    let deleted : (delete_key h k v).0 ≡ ok tt = ground arith in
                    inr (
                      c,
                      ground arith,
                      record {
                        key = k;
                        body = b;
                        under = under;
                        there = there;
                        opened = opened;
                        for_me = own_target mine c own;
                        gone = ground (arith, delete_key-done s k v deleted);
                      },
                    )
              ]
            ]
      ]

  drain_keys-Shrinks :
      (keys : List Text) (cs : List Command) (w : W) → Shrinks w (drain_keys h t mine keys cs w).1
  unfolding drain_keys
  drain_keys-Shrinks [] cs w j = inl refl
  drain_keys-Shrinks (k ∷ keys) cs w j =
      let v = (drain_key h t mine k cs w).1 in
      elim (Outcome-cases (drain_key h t mine k cs w).0) [
        | inr (bad, failed) ↦ ground (arith, drain_key-Shrinks k cs w j)
        | inl (ds, done) ↦
            ground (arith, drain_key-Shrinks k cs w j, drain_keys-Shrinks keys ds v j)
      ]

  All-snoc :
      (P : Command → Type 0) (cs : List Command) (c : Command)
      → All P cs
      → P c
      → All P (cs ++ c ∷ [])
  All-snoc P [] c h p = (p, tt)
  All-snoc P (d ∷ cs) c h p = (h.0, All-snoc P cs c h.1 p)

  pub drain_keys-IsClaimed :
      (keys : List Text) (start w : W) (cs ds : List Command)
      → All (Under prefix) keys
      → Shrinks start w
      → All (IsClaimed start w) cs
      → (drain_keys h t mine keys cs w).0 ≡ ok ds
      → All (IsClaimed start (drain_keys h t mine keys cs w).1) ds
  unfolding drain_keys
  drain_keys-IsClaimed [] start w cs ds under shrunk claimed e =
      subst (All (IsClaimed start w)) (ground arith) claimed
  drain_keys-IsClaimed (k ∷ keys) start w cs ds under shrunk claimed e =
      let v = (drain_key h t mine k cs w).1 in
      let step = drain_key-Shrinks k cs w in
      let later = All-later start w v cs step claimed in
      let far = Shrinks-trans start w v shrunk step in
      elim (Outcome-cases (drain_key h t mine k cs w).0) [
        | inr (bad, failed) ↦ absurd (ground arith)
        | inl (es, done) ↦
            let now : All (IsClaimed start v) es = elim (drain_key_lem k cs es w under.0 done) [
              | inl same ↦ subst (All (IsClaimed start v)) (sym same) later
              | inr (c, same, z) ↦
                  subst (All (IsClaimed start v)) (sym same) (
                    All-snoc (IsClaimed start v) cs c later
                      (IsClaimed-earlier start w v c shrunk z))
            ] in
            let again : drain_keys h t mine (k ∷ keys) cs w ≡ drain_keys h t mine keys es v =
              continue_ok (drain_keys h t mine keys) (drain_key h t mine k cs w) es done in
            let rest =
              drain_keys-IsClaimed keys start v es ds under.1 far now
                (sym (ap (λ r. r.0) again) ∙ e) in
            subst (λ r. All (IsClaimed start r.1) ds) (sym again) rest
      ]

  -- A command for another process stays where it is.
  drain_key-keeps_other :
      (k j : Text) (cs : List Command) (w : W) (b : List ℕ) (c : Command)
      → peek w j ≡ some b
      → open_object h.codec h.codec.commands t.crypto j b ≡ ok c
      → is_for_other mine c ≡ true
      → peek (drain_key h t mine k cs w).1 j ≡ some b
  unfolding drain_key
  drain_key-keeps_other k j cs w b c there opened other =
      let m = max_relay_object_bytes in
      let v = (get_raw h k m w).1 in
      let kept = get_raw-keeps s k j m w in
      elim (key_cases k j) [
        | inr ne ↦ ground (arith, kept, delete_key-elsewhere s k j v ne)
        | inl same ↦ elim (Outcome-cases (get_raw h k m w).0) [
          | inr (bad, failed) ↦ ground (arith, kept)
          | inl (none, found) ↦ ground (arith, kept)
          | inl (some b', found) ↦
              let there' = get_raw-some s k m w b' found in
              let equal : b' ≡ b = cc in
              let opened' : open_object h.codec h.codec.commands t.crypto k b' ≡ ok c = cc in
              ground (arith, kept)
        ]
      ]

  pub drain_keys-keeps_other :
      (keys : List Text) (j : Text) (cs : List Command) (w : W) (b : List ℕ) (c : Command)
      → peek w j ≡ some b
      → open_object h.codec h.codec.commands t.crypto j b ≡ ok c
      → is_for_other mine c ≡ true
      → peek (drain_keys h t mine keys cs w).1 j ≡ some b
  unfolding drain_keys
  drain_keys-keeps_other [] j cs w b c there opened other = there
  drain_keys-keeps_other (k ∷ keys) j cs w b c there opened other =
      let v = (drain_key h t mine k cs w).1 in
      let one = drain_key-keeps_other k j cs w b c there opened other in
      elim (Outcome-cases (drain_key h t mine k cs w).0) [
        | inr (bad, failed) ↦ ground arith
        | inl (ds, done) ↦ ground (arith, drain_keys-keeps_other keys j ds v b c one opened other)
      ]
