-- ===== src/Store/Extensions.antt =====
-- Extension files: `write_extension_file` and `validate_extensions`, over the root of a fixture as a
-- list of its entries. Creating a file under a path that the root lacks, and writing it, is taken to
-- succeed; the name of a file stands for itself alone.
use eggreplay.Stream.Sse.{is_some}
use eggreplay.Store.Conversations.{max_extension_bytes}
use eggreplay.Prelude.{
  Bool, List, Option, Result, [], about_number, about_text, any, contains, err, if◌then◌else◌,
  is_empty, leb, length, ltb, none, not, ok, ok_or, reject_if, saturating_add, some, text, ℕ, ◌&&◌,
  ◌*◌, ◌++◌, ◌+◌, ◌==◌, ◌^◌, ◌||◌, ◌∷◌, nat_eq, list_eq, option_eq, pair_eq, ◌>>◌, ◌>>=◌, false,
  true,
}
use eggreplay.Bytes.{Bytes, codes, starts_with_byte}
use eggreplay.Scenario.Types.{ScenarioRules, rules_schema_version}
use eggreplay.Scenario.Validate as Rules
use eggreplay.Store.Types.{StoreError, invalid, io, validate_extension_name, json, as_store_error}
use eggreplay.Stream.Types.{StreamEvents, stream_events_schema_version}
use eggreplay.Stream.Validate as Events
use eggreplay.WebSocket.Types.{WebSocketTranscript, websocket_schema_version, default_limits}
use eggreplay.WebSocket.Validate as WebSocket

abbrev pub max_extensions : ℕ
max_extensions = 64

abbrev pub max_total_extension_bytes : ℕ
max_total_extension_bytes = 32 * 1024 * 1024

pub record ExtensionDescriptor : Type 0 where
  pub name : Bytes
  pub schema_version : ℕ
  pub path : Bytes
  pub required_for_replay : Bool

-- A regular file with its bytes, or something else with the length that its metadata has.
pub data Entry : Type 0 where
  regular_file : Bytes → Entry
  other_entry : ℕ → Entry

abbrev pub Directory : Type 0
Directory = List (Bytes × Entry)

-- What is taken from crates: `Path`'s `components().count() == 1` and `file_name`, and the reading of
-- the three kinds of files.
pub record ExtensionReaders : Type 0 where
  pub is_single : Bytes → Bool
  pub file_name : Bytes → Option Bytes
  pub read_rules : Bytes → Option ScenarioRules
  pub read_events : Bytes → Option StreamEvents
  pub read_transcript : Bytes → Option WebSocketTranscript

unfoldable pub entry_at : Directory → Bytes → Option Entry
entry_at [] path = none
entry_at ((name, entry) ∷ dir) path = if name == path then some entry else entry_at dir path

abbrev pub entry_len : Entry → ℕ
entry_len (regular_file b) = length b
entry_len (other_entry n) = n

-- `fs::metadata(…).ok().map(|m| m.len())`, where a missing file adds nothing to the sum.
unfoldable pub len_at : Directory → Bytes → ℕ
len_at dir path = elim (entry_at dir path) [ none ↦ 0 | some entry ↦ entry_len entry ]

unfoldable pub current_total : Directory → List ExtensionDescriptor → ℕ
current_total dir [] = 0
current_total dir (e ∷ es) = len_at dir e.path + current_total dir es

-- The bytes of a regular file; a missing file gives an error of the file system.
unfoldable pub regular_at : Directory → Bytes → Result Bytes StoreError
regular_at dir path = elim (entry_at dir path) [
  | none ↦ err io
  | some (regular_file b) ↦ ok b
  | some (other_entry n) ↦ err (invalid (text "extension must be a regular non-symlink file"))
]

abbrev pub same_place : Bytes → Bytes → ExtensionDescriptor → Bool
same_place name path entry = entry.name == name || entry.path == path

abbrev known_extensions : List Bytes
known_extensions =
    codes "rules"
    ∷ codes "stream-events"
    ∷ codes "websocket-messages"
    ∷ codes "interop-provenance"
    ∷ []

module _ (readers : ExtensionReaders) where
  open readers use {is_single, file_name, read_rules, read_events, read_transcript}

  -- `validate_extension_path`
  unfoldable pub validate_extension_path : Bytes → Result (Unit {0}) StoreError
  validate_extension_path path =
      reject_if
        (is_empty path
          || ltb 128 (length path)
          || not (is_single path)
          || not (file_name path == some path)
          || starts_with_byte b'.' path)
        (invalid (text "extension path must be a confined filename"))

  -- `write_extension_file`: the root and the registry that it leaves.
  unfoldable pub write_extension_file :
      Directory
      → List ExtensionDescriptor
      → ExtensionDescriptor
      → Bytes
      → Result (Directory × List ExtensionDescriptor) StoreError
  write_extension_file dir extensions e bytes = do
    validate_extension_name e.name
    validate_extension_path e.path
    reject_if (e.schema_version == 0) (invalid (text "extension schema version must be positive"))
    reject_if (leb max_extensions (length extensions))
        (invalid (text "extension count exceeds configured limit"))
    reject_if (ltb max_extension_bytes (length bytes))
        (invalid (text "extension exceeds configured limit"))
    reject_if (any (same_place e.name e.path) extensions)
        (invalid (text "duplicate extension name or path"))
    reject_if
        (ltb max_total_extension_bytes
          (saturating_add (current_total dir extensions) (length bytes)))
        (invalid (text "aggregate extensions exceed configured limit"))
    reject_if (is_some (entry_at dir e.path)) io
    ok ((e.path, regular_file bytes) ∷ dir, extensions ++ e ∷ [])

  check_rules : ExtensionDescriptor → Bytes → Result (Unit {0}) StoreError
  check_rules e bytes = do
    reject_if (not (e.schema_version == rules_schema_version))
        (invalid (about_number "unsupported rules extension schema" e.schema_version))
    rules ← ok_or (read_rules bytes) json
    as_store_error invalid (Rules.validate rules)

  check_events_file : ExtensionDescriptor → Bytes → Result (Unit {0}) StoreError
  check_events_file e bytes = do
    reject_if (not (e.schema_version == stream_events_schema_version))
        (invalid (about_number "unsupported stream-events extension schema" e.schema_version))
    events ← ok_or (read_events bytes) json
    as_store_error invalid (Events.validate events)

  check_transcript : ExtensionDescriptor → Bytes → Result (Unit {0}) StoreError
  check_transcript e bytes = do
    reject_if (not (e.schema_version == websocket_schema_version))
        (invalid (about_number "unsupported websocket-messages extension schema" e.schema_version))
    reject_if (not e.required_for_replay || not (e.path == codes "websockets.jsonl"))
        (invalid (text "websocket-messages must be required and stored at websockets.jsonl"))
    transcript ← ok_or (read_transcript bytes) json
    as_store_error invalid (WebSocket.validate transcript default_limits)

  by_name : Bool → Bool → Bool → ExtensionDescriptor → Bytes → Result (Unit {0}) StoreError
  by_name true is_events is_websocket e bytes = check_rules e bytes
  by_name false true is_websocket e bytes = check_events_file e bytes
  by_name false false true e bytes = check_transcript e bytes
  by_name false false false e bytes = ok tt

  -- What is asked of an extension by its name. The three names differ.
  unfoldable pub check_contents : ExtensionDescriptor → Bytes → Result (Unit {0}) StoreError
  unfolding by_name check_rules check_events_file check_transcript
  check_contents e bytes = do
    reject_if (e.required_for_replay && not (contains known_extensions e.name))
        (invalid (about_text "unknown required extension" e.name))
    by_name (e.name == codes "rules") (e.name == codes "stream-events")
        (e.name == codes "websocket-messages") e bytes

  -- The loop of `validate_extensions`, with the names, paths and length so far.
  unfoldable pub check_extensions :
      Directory
      → List Bytes
      → List Bytes
      → ℕ
      → List ExtensionDescriptor
      → Result (Unit {0}) StoreError
  check_extensions dir names paths total [] = ok tt
  check_extensions dir names paths total (e ∷ es) = do
    validate_extension_name e.name
    validate_extension_path e.path
    reject_if (e.schema_version == 0 || contains names e.name || contains paths e.path)
        (invalid (text "invalid or duplicate extension descriptor"))
    bytes ← regular_at dir e.path
    reject_if (ltb max_extension_bytes (length bytes))
        (invalid (text "extension exceeds configured limit"))
    reject_if (leb (2 ^ 64) (total + length bytes))
        (invalid (text "aggregate extension length overflow"))
    reject_if (ltb max_total_extension_bytes (total + length bytes))
        (invalid (text "aggregate extensions exceed configured limit"))
    check_contents e bytes
    check_extensions dir (e.name ∷ names) (e.path ∷ paths) (total + length bytes) es

  -- `validate_extensions`
  unfoldable pub validate_extensions :
      Directory → List ExtensionDescriptor → Result (Unit {0}) StoreError
  validate_extensions dir extensions = do
    reject_if (ltb max_extensions (length extensions))
        (invalid (text "extension count exceeds configured limit"))
    check_extensions dir [] [] 0 extensions
