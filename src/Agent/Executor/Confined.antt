-- ===== src/Agent/Executor/Confined.antt =====
-- The handlers of crates/agent/src/executor.rs stay inside the places that the policy allows.
pub mod Transfers
pub mod Execute
use s3_mcp_relay.Base.{
  ℕ, Bool, true, false, ◌≡◌, Option, none, some, List, Text, All, ok, err, arith, subst, sym, refl,
  if◌then◌else◌,
}
use s3_mcp_relay.Failure.{Error, Outcome}
use s3_mcp_relay.Effect.{Eff, Good, continue-keeps, pure, lift, request, sample, ◌>>=◌, ◌>>◌}
use s3_mcp_relay.Effect.Keeps.{
  Keeps, Keeps-bind, Keeps-given, Keeps-after, Keeps-request, Keeps-sample, Keeps-if, keeps_rules,
  reply-world,
}
use s3_mcp_relay.Platform.{Host}
use s3_mcp_relay.Transport.Quiet.{IsQuiet}
use s3_mcp_relay.Protocol.Types.{Command, Response, ResponsePayload}
use s3_mcp_relay.Agent.Policy.{
  Policy, Paths, Files, check_existing_path, check_write_path, prepare_write_path,
}
use s3_mcp_relay.Agent.Policy.Laws.{IsAllowed, IsPaths}
use s3_mcp_relay.Agent.Policy.Laws.Tracked.{IsTracked}
use s3_mcp_relay.Agent.Policy.Laws.Prepared.{
  IsPrepared, IsPrepared-IsAllowed, check_existing_path-Good, check_write_path-Good,
  prepare_write_path-Good, make_prepared-keeps, below-IsAllowed,
}
use s3_mcp_relay.Agent.Executor.{Machine, respond}
use s3_mcp_relay.Agent.Executor.Handlers.{
  read_file, write_file, list_dir, make_present, make_absent, make_dir, remove_path, move_path,
}

module _ {W : Type 0} (h : Host W) (m : Machine W) (policy : Policy) {I : W → Type 0}
    {Resolves : W → Text → Text → Type 0} {Absent : W → Text → Type 0} {Plain : Text → Type 0}
    {Safe : Text → Type 0} (l : IsPaths m.paths)
    (s : IsTracked m.paths m.files I Resolves Absent Plain Safe)
    (safe : (p : Text) → IsAllowed m.paths policy p → Safe p) (q : IsQuiet h I) where
  -- The invariant is kept.
  abbrev pub Kept : {A : Type 0} → Eff W A → Type 0
  Kept e = Keeps I e

  pub respond-Kept : (cmd : Command) (p : ResponsePayload) → Kept (respond h cmd p)
  unfolding respond
  respond-Kept cmd p = search (keeps_rules, q.now_unix)

  -- A block that begins with the check of a path.
  existing-Kept :
      {A : Type 0} (value : Text) (f : Text → Eff W A)
      → ((p : Text) → IsAllowed m.paths policy p → Kept (f p))
      → Kept (check_existing_path m.paths policy m.files value >>= f)
  existing-Kept value f k =
      Keeps-given (IsAllowed m.paths policy) _ f
        (λ w i.
          let (kept, checked) = check_existing_path-Good l s policy safe value w i in
          (kept, λ c e. (checked c e).0))
        k

  prepared-Kept :
      {A : Type 0} (e : Eff W Text) (f : Text → Eff W A)
      → ((w : W) → I w → Good I (λ c v. IsPrepared l s policy safe v c) (e w))
      → ((p : Text) → IsAllowed m.paths policy p → Kept (f p))
      → Kept (e >>= f)
  prepared-Kept e f good k =
      Keeps-given (IsAllowed m.paths policy) e f
        (λ w i.
          let (kept, checked) = good w i in
          (kept, λ c x. IsPrepared-IsAllowed l s policy safe _ c (checked c x)))
        k

  pub read_file-Kept :
      (cmd : Command) (value : Text) (most : Option ℕ) → Kept (read_file h m policy cmd value most)
  unfolding read_file
  read_file-Kept cmd value most =
      existing-Kept value _ (λ p allowed. search (keeps_rules, s.open_reader_keeps, respond-Kept))

  pub list_dir-Kept : (cmd : Command) (value : Text) → Kept (list_dir h m policy cmd value)
  unfolding list_dir
  list_dir-Kept cmd value =
      existing-Kept value _ (λ p allowed. search (keeps_rules, s.read_dir_keeps, respond-Kept))

  pub write_file-Kept :
      (cmd : Command) (value contents : Text) (append : Bool)
      → Kept (write_file h m policy cmd value contents append)
  unfolding write_file
  write_file-Kept cmd value contents append =
      prepared-Kept _ _ (check_write_path-Good l s policy safe value) (λ p allowed.
        search
          (
            keeps_rules, s.open_writer_keeps, safe, allowed, s.write_all_keeps, s.flush_keeps,
            respond-Kept,
          )
          depth 12)

  -- What is below an allowed path may be changed.
  inside :
      (p : Text) → IsAllowed m.paths policy p → (x : Text) → m.paths.is_within x p ≡ true → Safe x
  inside p allowed x within = safe x (below-IsAllowed l s policy safe x p within allowed)

  remove_dir-keeps :
      (recursive : Bool) (p : Text)
      → IsAllowed m.paths policy p
      → (w : W) → I w
      → I ((if recursive then m.files.remove_dir_all p else m.files.remove_dir p) w).1
  remove_dir-keeps true p allowed w i = s.remove_dir_all_keeps p w (inside p allowed) i
  remove_dir-keeps false p allowed w i = s.remove_dir_keeps p w (safe p allowed) i

  make_absent-Kept :
      (cmd : Command) (path : Text) (parents : Bool)
      → Plain path
      → Kept (make_absent h m policy cmd path parents)
  unfolding make_absent
  make_absent-Kept cmd path parents plain =
      Keeps-after (λ p w. IsPrepared l s policy safe w p) _ _
        (prepare_write_path-Good l s policy safe path plain)
        (λ p w i prepared.
          continue-keeps I _ _
            (subst I (sym (reply-world (Error.service 47) _))
              (make_prepared-keeps l s policy safe parents p w prepared i))
            (λ u v j. (respond-Kept cmd ResponsePayload.empty).at v j))

  make_present-Kept : (cmd : Command) (path : Text) → Kept (make_present h m policy cmd path)
  unfolding make_present
  make_present-Kept cmd path =
      existing-Kept path _ (λ p allowed. search (keeps_rules, s.is_dir_keeps, respond-Kept))

  pub make_dir-Kept :
      (cmd : Command) (path : Text) (parents : Bool)
      → Plain path
      → Kept (make_dir h m policy cmd path parents)
  unfolding make_dir
  make_dir-Kept cmd path parents plain =
      search (keeps_rules, s.exists_keeps, make_present-Kept, make_absent-Kept, plain)

  pub remove_path-Kept :
      (cmd : Command) (value : Text) (recursive : Bool)
      → Kept (remove_path h m policy cmd value recursive)
  unfolding remove_path
  remove_path-Kept cmd value recursive = existing-Kept value _ (λ p allowed.
      search
        (
          keeps_rules, s.is_dir_keeps, remove_dir-keeps, safe, allowed, s.remove_file_keeps,
          respond-Kept,
        )
        depth 14)

  pub move_path-Kept :
      (cmd : Command) (from to : Text) → Plain to → Kept (move_path h m policy cmd from to)
  unfolding move_path
  move_path-Kept cmd from to plain = existing-Kept from _ (λ p allowed.
      prepared-Kept _ _ (prepare_write_path-Good l s policy safe to plain) (λ d ready.
        search (keeps_rules, s.rename_keeps, inside, allowed, ready, respond-Kept) depth 12))
