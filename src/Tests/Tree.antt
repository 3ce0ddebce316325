-- ===== src/Tests/Tree.antt =====
-- The theorems on what a command changes and runs, on a tree of directories. A path is the list of
-- its components, the innermost first; the component 0 leads to the directory above.
use s3_mcp_relay.Base.{
  ◌≡◌, inl, inr, Bool, true, false, ◌==◌, ◌||◌, ◌&&◌, Option, none, some, List, [], ◌∷◌, arith,
  refl, sym, ◌∙◌, subst, Text, codes, text_eq, text_eq_iff, drop, All, pos, Bool-cases,
  if◌then◌else◌,
}
use s3_mcp_relay.Platform.{Host}
use s3_mcp_relay.Transport.Quiet.{IsQuiet}
use s3_mcp_relay.Protocol.Types.{Command, CommandKind}
use s3_mcp_relay.Blob.{Disk}
use s3_mcp_relay.Agent.Jobs.{Shell}
use s3_mcp_relay.Agent.Policy.{
  Files, check_program, check_canonical, nearest_existing, name_below, prepare_new_path,
  prepare_write_path,
}
use s3_mcp_relay.Agent.Policy.Laws.{IsClear, higher, itself, IsRunnable}
use s3_mcp_relay.Agent.Policy.Laws.Tracked.{IsTracked}
use s3_mcp_relay.Agent.Executor.{Machine, Waited, read_bounded, respond}
use s3_mcp_relay.Agent.Executor.Handlers.{make_absent, make_dir}
use s3_mcp_relay.Agent.Executor.Programs.{check_cwd, decode_stdin, exec}
use s3_mcp_relay.Agent.Executor.Run.{run, execute}
use s3_mcp_relay.Agent.Executor.Confined.Transfers.{IsTrackedMachine}
use s3_mcp_relay.Agent.Executor.Confined.Execute.{
  IsTouchable, execute-IsTouchable, execute-IsRunnable,
}
use s3_mcp_relay.Tests.Memory.{toy_codec}
use s3_mcp_relay.Tests.Machine.{
  below, outer, below_trans, below_self, toy_paths, toy_paths-IsPaths, toy_policy, toy_transport,
  kind_command,
}

record Tree : Type 0 where
  there : List Text
  changed : List Text
  ran : List Text

unfoldable resolve : Text → Text
resolve [] = []
resolve (c ∷ p) = let rest = resolve p in if c == 0 then drop 1 rest else c ∷ rest

unfoldable holds : List Text → Text → Bool
unfolding text_eq
holds [] x = false
holds (y ∷ ys) x = text_eq y x || holds ys x

unfoldable is_there : Text → Tree → Bool
unfolding resolve holds
is_there [] w = true
is_there (c ∷ p) w =
    let rest = is_there p w in if c == 0 then rest else holds w.there (resolve (c ∷ p))

abbrev touch : Text → Tree → Tree
touch p w = record w { changed = p ∷ w.changed }

abbrev add : Text → Tree → Tree
add p w = record w { there = p ∷ w.there; changed = p ∷ w.changed }

unfoldable make_all : Text → Tree → Tree
unfolding is_there resolve
make_all [] w = w
make_all (c ∷ p) w =
    let rest = make_all p w in if is_there (c ∷ p) w then w else add (resolve (c ∷ p)) rest

unfoldable canonical : Text → Tree → Option Text
unfolding is_there resolve
canonical p w = if is_there p w && is_there (resolve p) w then some (resolve p) else none

abbrev tree : Files Tree
tree = record {
  exists = λ p w. (is_there p w, w);
  is_dir = λ p w. (is_there p w, w);
  canonicalize = λ p w. (canonical p w, w);
  size = λ p w. (some 4, w);
  create_dir_all = λ p w. (some tt, make_all p w);
  create_dir = λ p w. (some tt, add p w);
  remove_dir_all = λ p w. (some tt, touch p w);
  remove_dir = λ p w. (some tt, touch p w);
  remove_file = λ p w. (some tt, touch p w);
  rename = λ p q w. (some tt, touch p (touch q w));
  open_reader = λ p w. (some (some (5 ∷ 6 ∷ []) ∷ []), w);
  open_writer = λ p append w. (some tt, touch p w);
  write_all = λ b w. (some tt, w);
  flush = λ w. (some tt, w);
  read_dir = λ p w. (some [], w);
}

abbrev Plain : Text → Type 0
Plain [] = Unit {0}
Plain (c ∷ p) = (c == 0 ≡ false) × Plain p

abbrev Resolves : Tree → Text → Text → Type 0
Resolves w p c = (is_there p w ≡ true) × (is_there c w ≡ true) × (resolve p ≡ c)

resolve-Plain : (p : Text) → Plain p → resolve p ≡ p
unfolding resolve
resolve-Plain [] plain = refl
resolve-Plain (c ∷ p) plain = rw (plain.0, resolve-Plain p plain.1) refl

Plain-drop : (p : Text) → Plain p → Plain (drop 1 p)
Plain-drop [] plain = tt
Plain-drop (c ∷ p) plain = plain.1

Plain-resolve : (p : Text) → Plain (resolve p)
unfolding resolve
Plain-resolve [] = tt
Plain-resolve (c ∷ p) = elim (Bool-cases (c == 0)) [
  | inl up ↦ rw up (Plain-drop (resolve p) (Plain-resolve p))
  | inr name ↦ rw name (name, Plain-resolve p)
]

canonical_lem : (p c : Text) (w : Tree) → canonical p w ≡ some c → Resolves w p c
unfolding canonical
canonical_lem p c w e = elim (Bool-cases (is_there p w && is_there (resolve p) w)) [
  | inl there ↦
      let same : resolve p ≡ c = ground arith in
      let here : is_there (resolve p) w ≡ true = ground arith in
      (ground arith, subst (λ x. is_there x w ≡ true) same here, same)
  | inr missing ↦ absurd (ground arith)
]

below-outer : (a b : Text) → outer a ≡ some b → below a b ≡ true
unfolding below
below-outer [] b e = absurd (ground arith)
below-outer (c ∷ p) b e =
    let same : p ≡ b = ground arith in
    subst (λ x. below (c ∷ p) x ≡ true) same (ground (arith, below_self p))

IsClear-below : (A : Text → Type 0) (p a : Text) → IsClear toy_paths A p a → below p a ≡ true
IsClear-below A p a itself = below_self p
IsClear-below A p a (higher {a = x} clear gone up) =
    below_trans p x a (IsClear-below A p x clear) (below-outer x a up)

Plain-below : (p a : Text) → below p a ≡ true → Plain p → Plain a
unfolding below
Plain-below [] a h plain = let e : [] ≡ a = (text_eq_iff [] a).0 h in subst Plain e tt
Plain-below (c ∷ p) a h plain = elim (Bool-cases (text_eq (c ∷ p) a)) [
  | inl same ↦ let e : c ∷ p ≡ a = (text_eq_iff (c ∷ p) a).0 same in subst Plain e plain
  | inr other ↦ Plain-below p a (ground arith) plain.1
]

-- The directories that are made on a plain path are below one that is there.
make_all-below :
    (P : Text → Type 0) (p a : Text) (w : Tree)
    → Plain p
    → below p a ≡ true
    → is_there a w ≡ true
    → ((x : Text) → below x a ≡ true → P x)
    → All P w.changed
    → All P (make_all p w).changed
unfolding make_all below
make_all-below P [] a w plain h there inside i = i
make_all-below P (c ∷ p) a w plain h there inside i = elim (Bool-cases (is_there (c ∷ p) w)) [
  | inl present ↦ rw present i
  | inr missing ↦ elim (Bool-cases (text_eq (c ∷ p) a)) [
    | inl same ↦
        let e : c ∷ p ≡ a = (text_eq_iff (c ∷ p) a).0 same in
        absurd (
          let t : is_there (c ∷ p) w ≡ true = subst (λ x. is_there x w ≡ true) (sym e) there in
          ground arith)
    | inr other ↦
        let rest : below p a ≡ true = ground arith in
        rw missing (
          subst P (sym (resolve-Plain (c ∷ p) plain)) (inside (c ∷ p) h),
          make_all-below P p a w plain.1 rest there inside i,
        )
  ]
]

make_all-there : (p : Text) (w : Tree) → is_there p w ≡ true → make_all p w ≡ w
unfolding make_all
make_all-there [] w there = refl
make_all-there (c ∷ p) w there = rw there refl

-- In a directory that is there at most one is made.
make_all-one :
    (P : Text → Type 0) (p d : Text) (w : Tree)
    → outer p ≡ some d
    → Resolves w d d
    → P p
    → All P w.changed
    → All P (make_all p w).changed
unfolding make_all is_there resolve
make_all-one P [] d w up there ok_path i = i
make_all-one P (c ∷ p) d w up (there, here, fixed) ok_path i =
    let same : p ≡ d = ground arith in
    let above : is_there p w ≡ true = subst (λ x. is_there x w ≡ true) (sym same) there in
    let still : resolve p ≡ p = subst (λ x. resolve x ≡ x) (sym same) fixed in
    let kept = make_all-there p w above in
    elim (Bool-cases (is_there (c ∷ p) w)) [
      | inl present ↦ rw present i
      | inr missing ↦ elim (Bool-cases (c == 0)) [
        | inl parent ↦ absurd (ground arith)
        | inr name ↦
            let place : resolve (c ∷ p) ≡ c ∷ p = rw (name, still) refl in
            rw missing (subst P (sym place) ok_path, subst (λ v. All P v.changed) (sym kept) i)
      ]
    ]

make_all-ran : (p : Text) (w : Tree) → (make_all p w).ran ≡ w.ran
unfolding make_all
make_all-ran [] w = refl
make_all-ran (c ∷ p) w = elim (Bool-cases (is_there (c ∷ p) w)) [
  | inl present ↦ rw present refl
  | inr missing ↦ rw missing (make_all-ran p w)
]

tree-IsTracked :
    (P : Text → Type 0)
    → IsTracked toy_paths tree (λ w. All P w.changed) Resolves (λ w p. is_there p w ≡ false) Plain P
tree-IsTracked P = record {
  plain_parent = λ p q h e. Plain-below p q (below-outer p q e) h;
  absent = λ p w e. e;
  absent_exists = λ p x w h. h;
  absent_canonicalize = λ p x w h. h;
  exists_keeps = λ p w i. i;
  is_dir_keeps = λ p w i. i;
  size_keeps = λ p w i. i;
  canonicalize_keeps = λ p w i. i;
  open_reader_keeps = λ p w i. i;
  read_dir_keeps = λ p w i. i;
  write_all_keeps = λ b w i. i;
  flush_keeps = λ w i. i;
  resolves = canonical_lem;
  resolves_canonical = λ p c w (a, b, e).
      (b, b, subst (λ x. resolve x ≡ x) e (resolve-Plain (resolve p) (Plain-resolve p)));
  create_dir_all_below = λ p a c w plain clear (there, here, e) inside i.
      let inner = IsClear-below _ p a clear in
      let same : a ≡ c = sym (resolve-Plain a (Plain-below p a inner plain)) ∙ e in
      make_all-below P p a w plain inner there
        (subst (λ y. (x : Text) → below x y ≡ true → P x) (sym same) inside) i;
  create_dir_all_one = λ p d w up there ok_path i. make_all-one P p d w up there ok_path i;
  create_dir_all_none =
      λ p w (there, here, e) i. subst (λ v. All P v.changed) (sym (make_all-there p w there)) i;
  create_dir_keeps = λ p w h i. (h, i);
  remove_dir_all_keeps = λ p w h i. (h p (below_self p), i);
  remove_dir_keeps = λ p w h i. (h, i);
  remove_file_keeps = λ p w h i. (h, i);
  rename_keeps = λ p q w h k i. (h p (below_self p), (k q (below_self q), i));
  open_writer_keeps = λ p append w h i. (h, i);
}

-- No call of the file system runs a program.
tree-IsTracked_ran :
    (R : Text → Type 0)
    → IsTracked toy_paths tree
        (λ w. All R w.ran)
        Resolves
        (λ w p. is_there p w ≡ false)
        (λ p. Unit {0})
        (λ p. Unit {0})
tree-IsTracked_ran R = record {
  plain_parent = λ p q h e. tt;
  absent = λ p w e. e;
  absent_exists = λ p x w h. h;
  absent_canonicalize = λ p x w h. h;
  exists_keeps = λ p w i. i;
  is_dir_keeps = λ p w i. i;
  size_keeps = λ p w i. i;
  canonicalize_keeps = λ p w i. i;
  open_reader_keeps = λ p w i. i;
  read_dir_keeps = λ p w i. i;
  write_all_keeps = λ b w i. i;
  flush_keeps = λ w i. i;
  resolves = canonical_lem;
  resolves_canonical = λ p c w (a, b, e).
      (b, b, subst (λ x. resolve x ≡ x) e (resolve-Plain (resolve p) (Plain-resolve p)));
  create_dir_all_below =
      λ p a c w plain clear there inside i. subst (All R) (sym (make_all-ran p w)) i;
  create_dir_all_one = λ p d w up there ok_path i. subst (All R) (sym (make_all-ran p w)) i;
  create_dir_all_none = λ p w there i. subst (All R) (sym (make_all-ran p w)) i;
  create_dir_keeps = λ p w h i. i;
  remove_dir_all_keeps = λ p w h i. i;
  remove_dir_keeps = λ p w h i. i;
  remove_file_keeps = λ p w h i. i;
  rename_keeps = λ p q w h k i. i;
  open_writer_keeps = λ p append w h i. i;
}

abbrev tree_host : Host Tree
tree_host = record {
  codec = toy_codec;
  now_unix = λ w. (pos 50, w);
  now_instant = λ w. (7, w);
  sleep = λ n w. w;
  fill_nonce = λ w. ([], w);
  new_uuid = λ w. (codes "u", w);
  get_object = λ k w. (some none, w);
  put_object = λ k b w. (none, w);
  delete_object = λ k w. (some tt, w);
  head_object = λ k w. (some none, w);
  list_objects = λ prefix token w. (none, w);
}

tree_host-IsQuiet : (I : Tree → Type 0) → IsQuiet tree_host I
tree_host-IsQuiet I = record {
  now_unix = λ w i. i;
  fill_nonce = λ w i. i;
  get_object = λ k w i. i;
  put_object = λ k b w i. i;
  delete_object = λ k w i. i;
  list_objects = λ p token w i. i;
}

abbrev tree_disk : Disk Tree
tree_disk = record {
  open_file = λ p w. (some tt, w);
  read = λ n w. (some [], w);
  create = λ p w. (some tt, touch p w);
  write_all = λ b w. (some tt, w);
  flush = λ w. (some tt, w);
  rename = λ p q w. (some tt, touch p (touch q w));
  remove_file = λ p w. (some tt, touch p w);
  next_upload = λ w. (0, w);
}

abbrev run_it : Text → Tree → Tree
run_it p w = record w { ran = p ∷ w.ran }

abbrev tree_shell : Shell Tree
tree_shell = record {
  create = λ p w. (some tt, touch p w);
  spawn = λ p args cwd env w. (some (some 9), run_it p w);
  now_unix = λ w. (pos 50, w);
}

abbrev tree_machine : Machine Tree
tree_machine = record {
  files = tree;
  disk = tree_disk;
  shell = tree_shell;
  run_program = λ p args cwd env stdin secs w.
      (some (record { waited = Waited.timed_out; stdout = []; stderr = [] }), run_it p w);
  read_tail = λ p w. (some none, w);
  digest = λ b. b;
  lossy = λ b. b;
  hostname = codes "h";
  os = codes "o";
  version = codes "v";
  upload_concurrency = 1;
  paths = toy_paths;
}

tree_machine-IsTracked :
    (P : Text → Type 0) → IsTrackedMachine tree_machine (λ w. All P w.changed) P (λ p. Unit {0})
tree_machine-IsTracked P = record {
  reader = record { open_file = λ p w i. i; read = λ n w i. i; next_upload = λ w i. i };
  writer = λ temp dest h k. record {
    create = λ w i. (h, i);
    write_all = λ b w i. i;
    flush = λ w i. i;
    rename = λ w i. (h, (k, i));
    remove_file = λ w i. (h, i);
  };
  run_program = λ p args cwd env stdin secs w r i. i;
  read_tail = λ p w i. i;
  create = λ p w h i. (h, i);
  spawn = λ p args cwd env w r i. i;
  job_clock = λ w i. i;
}

tree_machine-IsTracked_ran :
    (R : Text → Type 0) → IsTrackedMachine tree_machine (λ w. All R w.ran) (λ p. Unit {0}) R
tree_machine-IsTracked_ran R = record {
  reader = record { open_file = λ p w i. i; read = λ n w i. i; next_upload = λ w i. i };
  writer = λ temp dest h k. record {
    create = λ w i. i;
    write_all = λ b w i. i;
    flush = λ w i. i;
    rename = λ w i. i;
    remove_file = λ w i. i;
  };
  run_program = λ p args cwd env stdin secs w r i. (r, i);
  read_tail = λ p w i. i;
  create = λ p w h i. i;
  spawn = λ p args cwd env w r i. (r, i);
  job_clock = λ w i. i;
}

-- The root 1 of the policy and the program 2 are there.
abbrev before : Tree
before = record { there = (1 ∷ []) ∷ (2 ∷ []) ∷ []; changed = []; ran = [] }

-- A directory is made at 7 in 6 in 3 in the root 1, of which 3 and 6 are missing too.
abbrev make_command : Command
make_command = kind_command (CommandKind.make_dir (7 ∷ 6 ∷ 3 ∷ 1 ∷ []) true) none

made :
    (execute tree_host tree_machine toy_policy toy_transport 3
      (codes "jobs")
      make_command
      []
      before).1.changed
    ≡ (7 ∷ 6 ∷ 3 ∷ 1 ∷ []) ∷ (6 ∷ 3 ∷ 1 ∷ []) ∷ (3 ∷ 1 ∷ []) ∷ []
unfolding execute run make_dir make_absent prepare_write_path prepare_new_path nearest_existing
    name_below check_canonical respond make_all canonical is_there resolve holds below text_eq
made = refl

execute-IsTouchable_example :
    All
      (IsTouchable toy_paths toy_policy toy_codec.is_uuid (codes "jobs"))
      (execute tree_host tree_machine toy_policy toy_transport 3
        (codes "jobs")
        make_command
        []
        before).1.changed
execute-IsTouchable_example =
    execute-IsTouchable tree_host tree_machine toy_policy toy_transport (codes "jobs")
      (λ w. w.changed) Resolves (λ w p. is_there p w ≡ false) Plain toy_paths-IsPaths
      (tree-IsTracked _) (tree_host-IsQuiet _) (tree_machine-IsTracked _) 3 make_command [] before
      (refl, (refl, (refl, (refl, tt)))) tt

abbrev exec_command : Command
exec_command = kind_command (CommandKind.exec (2 ∷ []) [] none none) none

executed :
    (execute tree_host tree_machine toy_policy toy_transport 3
      (codes "jobs")
      exec_command
      []
      before).1.ran
    ≡ (2 ∷ []) ∷ []
unfolding execute run exec check_program check_cwd decode_stdin canonical is_there resolve holds
    text_eq respond read_bounded
executed = refl

execute-IsRunnable_example :
    All
      (IsRunnable toy_policy)
      (execute tree_host tree_machine toy_policy toy_transport 3
        (codes "jobs")
        exec_command
        []
        before).1.ran
execute-IsRunnable_example =
    execute-IsRunnable tree_host tree_machine toy_policy toy_transport (codes "jobs") (λ w. w.ran)
      Resolves (λ w p. is_there p w ≡ false) toy_paths-IsPaths (tree-IsTracked_ran _)
      (tree_host-IsQuiet _) (tree_machine-IsTracked_ran _) 3 exec_command [] before tt
