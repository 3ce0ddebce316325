-- ===== src/Transport/Mailbox/Laws.antt =====
-- What an agent takes out of its mailbox, and what it leaves there.
use s3_mcp_relay.Base.{
  ℕ, ◌≡◌, ◌≢◌, inl, inr, Option, some, List, [], arith, ap, sym, ◌∙◌, subst, Text, ok, All, sort,
  sort-All, sort-IsSorted, IsSorted,
}
use s3_mcp_relay.Failure.{Outcome-cases}
use s3_mcp_relay.Effect.{Eff, continue, continue_ok, pure, ◌>>=◌}
use s3_mcp_relay.Platform.{Host}
use s3_mcp_relay.Platform.Laws.{IsStore}
use s3_mcp_relay.Protocol.Types.{Command}
use s3_mcp_relay.Protocol.Names.{validate_agent_id}
use s3_mcp_relay.Crypto.{open_object}
use s3_mcp_relay.Transport.Keys.{cmd_prefix}
use s3_mcp_relay.Transport.Objects.{Transport, list_keys}
use s3_mcp_relay.Transport.Objects.Laws.{list_keys-keeps, list_keys-Under}
use s3_mcp_relay.Transport.Mailbox.{created_before, drain_keys, drain_commands}
use s3_mcp_relay.Transport.Mailbox.Claims.{
  IsClaimed, other_target, drain_keys-IsClaimed, drain_keys-keeps_other,
}

module _ {W : Type 0} (h : Host W) (t : Transport) {peek : W → Text → Option (List ℕ)}
    (s : IsStore h peek) (mine : Text) where
  -- A command that a drain returns was in the agent's mailbox, as an object whose key is under the
  -- agent's prefix and which opens at that key, and was addressed to this process or to any; when the drain has returned, the object it came from is gone. The
  -- commands are in the order of their creation.
  pub drain_commands-at_most_once :
      (agent : Text) (w : W) (cs : List Command)
      → (drain_commands h t agent mine w).0 ≡ ok cs
      → All
          (IsClaimed h t s (cmd_prefix t.prefix agent) mine w (drain_commands h t agent mine w).1)
          cs
        × IsSorted created_before cs
  unfolding drain_commands
  drain_commands-at_most_once agent w cs e =
      let p = cmd_prefix t.prefix agent in
      let v = (list_keys h p w).1 in
      elim (Outcome-cases (validate_agent_id agent)) [
        | inr (bad, failed) ↦ absurd (ground arith)
        | inl (u, valid) ↦ elim (Outcome-cases (list_keys h p w).0) [
          | inr (bad, failed) ↦ absurd (ground arith)
          | inl (keys, listed) ↦ elim (Outcome-cases (drain_keys h t mine keys [] v).0) [
            | inr (bad, failed) ↦ absurd (ground arith)
            | inl (ds, drained) ↦
                let v' = (drain_keys h t mine keys [] v).1 in
                let claimed =
                  drain_keys-IsClaimed h t s p mine keys w v [] ds
                    (list_keys-Under s p keys w listed) (λ j. inl (list_keys-keeps s p j w)) tt
                    drained in
                let finish : List Command → Eff W (List Command) =
                  λ ds. pure (sort created_before ds) in
                let all : drain_commands h t agent mine w ≡ (ok (sort created_before ds), v') =
                  ap
                    (continue
                      (λ u. list_keys h p >>= λ keys. drain_keys h t mine keys [] >>= finish))
                    (ap (λ r. (r, w)) valid)
                  ∙ continue_ok (λ keys. drain_keys h t mine keys [] >>= finish) (list_keys h p w)
                      keys listed
                  ∙ continue_ok finish (drain_keys h t mine keys [] v) ds drained in
                let same : ok (sort created_before ds) ≡ ok cs = sym (ap (λ r. r.0) all) ∙ e in
                let equal : sort created_before ds ≡ cs = ground arith in
                (
                  subst (λ r. All (IsClaimed h t s p mine w r) cs) (sym (ap (λ r. r.1) all))
                      (subst (All (IsClaimed h t s p mine w v')) equal
                        (sort-All created_before (IsClaimed h t s p mine w v') ds claimed)),
                  subst (IsSorted created_before) equal (
                      sort-IsSorted created_before (λ a b l. ground arith)
                        (λ a b c l m. ground arith) ds),
                )
          ]
        ]
      ]

  -- A command for another process is still in the mailbox after a drain, however the drain ends.
  pub drain_commands-keeps_other :
      (agent j target : Text) (w : W) (b : List ℕ) (c : Command)
      → peek w j ≡ some b
      → open_object h.codec h.codec.commands t.crypto j b ≡ ok c
      → c.instance_id ≡ some target
      → target ≢ mine
      → peek (drain_commands h t agent mine w).1 j ≡ some b
  unfolding drain_commands
  drain_commands-keeps_other agent j target w b c there opened names ne =
      let other = other_target mine c target names ne in
      let p = cmd_prefix t.prefix agent in
      let v = (list_keys h p w).1 in
      let kept = list_keys-keeps s p j w in
      elim (Outcome-cases (validate_agent_id agent)) [
        | inr (bad, failed) ↦ ground arith
        | inl (u, valid) ↦ elim (Outcome-cases (list_keys h p w).0) [
          | inr (bad, failed) ↦ ground arith
          | inl (keys, listed) ↦ ground (
            arith,
            drain_keys-keeps_other h t s p mine keys j [] v b c (kept ∙ there) opened other,
          )
        ]
      ]
