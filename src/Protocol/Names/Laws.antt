-- ===== src/Protocol/Names/Laws.antt =====
-- What the checks on names accept, and that no accepted name holds a slash.
use s3_mcp_relay.Base.{
  ℕ, ◌≤◌, ◌≡◌, ◌≢◌, ◌↔◌, ◌⊎◌, Bool, true, false, [], ◌∷◌, ◌++◌, arith, Text, codes, length, all,
  All, ok, refl, starts_with, eq-false_of_ne, contains, contains_sound, contains_complete,
  starts_with_iff, &&-eq-true_iff,
}
use s3_mcp_relay.Protocol.Names.{is_id_byte, is_name_byte, validate_agent_id, validate_share_name}

-- An ASCII digit or letter.
abbrev pub IsAlphanumeric : ℕ → Type 0
IsAlphanumeric b = (b'0' ≤ b) × (b ≤ b'9') ⊎ (b'A' ≤ b) × (b ≤ b'Z') ⊎ (b'a' ≤ b) × (b ≤ b'z')

abbrev pub IsIdByte : ℕ → Type 0
IsIdByte b = IsAlphanumeric b ⊎ (b ≡ b'-') ⊎ (b ≡ b'_')

abbrev pub IsNameByte : ℕ → Type 0
IsNameByte b = IsAlphanumeric b ⊎ (b ≡ b'-') ⊎ (b ≡ b'_') ⊎ (b ≡ b'.')

is_id_byte_iff : (b : ℕ) → (is_id_byte b ≡ true) ↔ IsIdByte b
unfolding is_id_byte
is_id_byte_iff b = (λ h. ground arith, λ h. ground arith)

is_name_byte_iff : (b : ℕ) → (is_name_byte b ≡ true) ↔ IsNameByte b
unfolding is_name_byte
is_name_byte_iff b = (λ h. ground arith, λ h. ground arith)

pub all_iff :
    (p : ℕ → Bool) (P : ℕ → Type 0)
    → ((b : ℕ) → (p b ≡ true) ↔ P b)
    → (t : Text) → (all p t ≡ true) ↔ All P t
all_iff p P each [] = (λ _. tt, λ _. refl)
all_iff p P each (b ∷ t) = (
  λ h.
      let (here, later) = (&&-eq-true_iff (p b) (all p t)).0 h in
      ((each b).0 here, (all_iff p P each t).0 later),
  λ h. (&&-eq-true_iff (p b) (all p t)).1 ((each b).1 h.0, (all_iff p P each t).1 h.1),
)

-- An agent id is accepted exactly when it has 1 to 64 bytes, all of them ASCII letters, digits, `-`
-- or `_`.
pub validate_agent_id_iff :
    (value : Text)
    → (validate_agent_id value ≡ ok tt)
      ↔ ((1 ≤ length value) × (length value ≤ 64) × All IsIdByte value)
unfolding validate_agent_id
validate_agent_id_iff value =
    let (to, from) = all_iff is_id_byte IsIdByte is_id_byte_iff value in
    (λ h. (ground arith, ground arith, to (ground arith)), λ h. let e = from h.2 in ground arith)

-- What `validate_share_name` refuses besides length and alphabet.
not_hidden :
    (value : Text) → (starts_with value (codes ".") ≡ false) ↔ ((r : Text) → value ≢ b'.' ∷ r)
not_hidden value = (
  λ h r e. let t = (starts_with_iff value (codes ".")).1 (r, e) in cc,
  λ h. eq-false_of_ne _ (λ t. let (r, e) = (starts_with_iff value (codes ".")).0 t in h r e),
)

not_climbing :
    (value : Text)
    → (contains value (codes "..") ≡ false) ↔ ((u v : Text) → value ≢ u ++ (b'.' ∷ b'.' ∷ v))
not_climbing value = (
  λ h u v e. let t = contains_complete u (codes "..") v in cc,
  λ h. eq-false_of_ne _ (λ t. let (u, v, e) = contains_sound value (codes "..") t in h u v e),
)

-- A shared name is accepted exactly when it has 1 to 128 bytes, all of them ASCII letters, digits,
-- `-`, `_` or `.`, does not begin with `.`, and has no two dots in a row.
pub validate_share_name_iff :
    (value : Text)
    → (validate_share_name value ≡ ok tt) ↔ (
        (1 ≤ length value)
        × (length value ≤ 128)
        × All IsNameByte value
        × ((r : Text) → value ≢ b'.' ∷ r)
        × ((u v : Text) → value ≢ u ++ (b'.' ∷ b'.' ∷ v)))
unfolding validate_share_name
validate_share_name_iff value =
    let (to, from) = all_iff is_name_byte IsNameByte is_name_byte_iff value in
    let (shown, show) = not_hidden value in
    let (level, flat) = not_climbing value in
    (
      λ h. (
        ground arith,
        ground arith,
        to (ground arith),
        shown (ground arith),
        level (ground arith),
      ),
      λ h. let a = from h.2 in let b = show h.3 in let c = flat h.4 in ground arith,
    )

-- Nothing that may become part of a key holds a slash.
abbrev pub NoSlash : Text → Type 0
NoSlash = All (λ b. b ≢ b'/')

All-NoSlash : (P : ℕ → Type 0) → ((b : ℕ) → P b → b ≢ b'/') → (t : Text) → All P t → NoSlash t
All-NoSlash P each [] h = tt
All-NoSlash P each (b ∷ t) h = (each b h.0, All-NoSlash P each t h.1)

pub agent_id-NoSlash : (value : Text) → validate_agent_id value ≡ ok tt → NoSlash value
agent_id-NoSlash value h =
    All-NoSlash IsIdByte (λ b i. ground arith) value ((validate_agent_id_iff value).0 h).2

pub share_name-NoSlash : (value : Text) → validate_share_name value ≡ ok tt → NoSlash value
share_name-NoSlash value h =
    All-NoSlash IsNameByte (λ b i. ground arith) value ((validate_share_name_iff value).0 h).2
