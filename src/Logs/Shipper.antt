-- ===== src/Logs/Shipper.antt =====
-- crates/agent/src/log_shipper.rs. The directory of the logs, the parsing of a number and
-- `Path::extension` are parameters.
pub mod Laws
use s3_mcp_relay.Base.{
  ℕ, ◌+◌, ◌-◌, min, Bool, true, false, not, ◌||◌, ◌&&◌, Option, none, some, List, [], ◌∷◌, ◌++◌,
  Text, codes, text_eq, decimal, length, all, starts_with, ok, err, leb, if◌then◌else◌,
}
use s3_mcp_relay.Failure.{Error, Outcome}
use s3_mcp_relay.Effect.{Eff, ◌>>=◌, ◌>>◌, pure, request, sample}
use s3_mcp_relay.Platform.{Host}
use s3_mcp_relay.Protocol.Types.{LogChunk}
use s3_mcp_relay.Protocol.Names.{is_name_byte}
use s3_mcp_relay.Transport.Objects.{Transport}
use s3_mcp_relay.Transport.Liveness.{publish_log_chunk}
use s3_mcp_relay.Agent.Policy.{Paths}

-- `MARKER_SUFFIX`
abbrev pub marker_suffix : Text
marker_suffix = codes ".shipped"

-- `MAX_SOURCE_BYTES`
abbrev pub max_source_bytes : ℕ
max_source_bytes = 96

unfoldable pub marker_path : Text → Text
marker_path path = path ++ marker_suffix

-- `str::ends_with`
unfoldable pub ends_with : Text → Text → Bool
ends_with [] p = text_eq [] p
ends_with (c ∷ s) p = text_eq (c ∷ s) p || ends_with s p

-- `matches!(extension, Some("out" | "err"))`
abbrev pub is_job_log : Option Text → Bool
is_job_log none = false
is_job_log (some e) = text_eq e (codes "out") || text_eq e (codes "err")

-- `safe_source` on the name of the file, with its extension.
unfoldable pub safe_name : Option Text → Text → Option Text
unfolding ends_with
safe_name extension name =
    if ends_with name marker_suffix
    then none
    else if (is_job_log extension || starts_with name (codes "agent.log."))
        && leb (length name) max_source_bytes
        && all is_name_byte name
    then some name
    else none

unfoldable pub safe_source : Paths → (Text → Option Text) → Text → Option Text
unfolding safe_name
safe_source paths extension path = elim (paths.file_name path) [
  | none ↦ none
  | some name ↦ safe_name (extension path) name
]

-- The directory of the logs. `scan` gives the paths of the entries that can be read, with their sizes where those
-- are known; `read_exact` opens a file and reads so many bytes from an offset.
pub record LogDir (W : Type 0) : Type 0 where
  pub scan : W → Option (List (Text × Option ℕ)) × W
  pub read_to_string : Text → W → Option Text × W
  pub read_exact : Text → ℕ → ℕ → W → Option (List ℕ) × W
  pub write : Text → Text → W → Option (Unit {0}) × W

-- `offsets`
abbrev pub Offsets : Type 0
Offsets = List (Text × ℕ)

abbrev pub offset_of : Text → Offsets → Option ℕ
offset_of path [] = none
offset_of path ((p, n) ∷ more) = if text_eq p path then some n else offset_of path more

-- `HashMap::insert`
abbrev pub put_offset : Text → ℕ → Offsets → Offsets
put_offset path n [] = (path, n) ∷ []
put_offset path n ((p, k) ∷ more) =
    if text_eq p path then (path, n) ∷ more else (p, k) ∷ put_offset path n more

abbrev pub parsed_or_zero : (Text → Option ℕ) → Option Text → ℕ
parsed_or_zero parse none = 0
parsed_or_zero parse (some text) = elim (parse text) [ none ↦ 0 | some n ↦ n ]

module _ {W : Type 0} (h : Host W) (t : Transport) (paths : Paths) (extension : Text → Option Text)
    (logs : LogDir W) (parse : Text → Option ℕ) (chunk_bytes : ℕ) (agent : Text) where
  unfoldable pub read_marker : Text → W → ℕ × W
  unfolding marker_path
  read_marker path w =
      let (text, w') = logs.read_to_string (marker_path path) w in (parsed_or_zero parse text, w')

  -- `.get(&path).copied().unwrap_or_else(|| read_marker(&path))`
  abbrev pub start_offset : Text → Option ℕ → W → ℕ × W
  start_offset path (some n) w = (n, w)
  start_offset path none w = read_marker path w

  -- The piece of a log from an offset, and the marker behind it.
  unfoldable pub ship_piece : Text → Text → ℕ → ℕ → Eff W (Unit {0})
  unfolding marker_path
  ship_piece path source offset read_len = do
    bytes ← request (Error.service 70) (logs.read_exact path offset read_len)
    now ← sample h.now_unix
    publish_log_chunk h t (record {
      agent_id = agent;
      source = source;
      offset = offset;
      data_b64 = h.codec.encode bytes;
      at = now;
    })
    request (Error.service 71) (logs.write (marker_path path) (decimal (offset + read_len)))
    pure tt

  -- The table once a piece has been shipped, or not.
  abbrev pub after_piece :
      Text → ℕ → Offsets → Outcome (Unit {0}) × W → (Outcome (Unit {0}) × Offsets) × W
  after_piece path next offsets (ok _, w) = ((ok tt, put_offset path next offsets), w)
  after_piece path next offsets (err e, w) = ((err e, offsets), w)

  unfoldable pub ship_log :
      Text → Text → Option ℕ → Offsets → W → (Outcome (Unit {0}) × Offsets) × W
  unfolding read_marker ship_piece
  ship_log path source size offsets w =
      let (offset, w') = start_offset path (offset_of path offsets) w in
      elim size [
        | none ↦ ((err (Error.service 72), offsets), w')
        | some size ↦
            if leb size offset
            then ((ok tt, offsets), w')
            else (let read_len = min (size - offset) chunk_bytes in
                after_piece path (offset + read_len) offsets
                  (ship_piece path source offset read_len w'))
      ]

  -- An entry that is no log is passed over.
  unfoldable pub ship_entry :
      Text → Option ℕ → Option Text → Offsets → W → (Outcome (Unit {0}) × Offsets) × W
  unfolding ship_log
  ship_entry path size none offsets w = ((ok tt, offsets), w)
  ship_entry path size (some source) offsets w = ship_log path source size offsets w

  -- The loop of `ship_once`, which the first error ends.
  unfoldable pub ship_entries :
      List (Text × Option ℕ) → Offsets → W → (Outcome (Unit {0}) × Offsets) × W
  unfolding ship_entry safe_source
  ship_entries [] offsets w = ((ok tt, offsets), w)
  ship_entries ((path, size) ∷ entries) offsets w =
      let (shipped, w') = ship_entry path size (safe_source paths extension path) offsets w in
      let rest = ship_entries entries shipped.1 w' in
      elim shipped.0 [ ok _ ↦ rest | err e ↦ ((err e, shipped.1), w') ]

  unfoldable pub ship_once : Offsets → W → (Outcome (Unit {0}) × Offsets) × W
  unfolding ship_entries
  ship_once offsets w =
      let (entries, w') = logs.scan w in
      elim entries [
        | none ↦ ((err (Error.service 73), offsets), w')
        | some found ↦ ship_entries found offsets w'
      ]
