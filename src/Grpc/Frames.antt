-- ===== src/Grpc/Frames.antt =====
-- `parse_grpc_frames`, `decode_grpc_payload` and `grpc_view`.
use eggreplay.Prelude.{length}
use eggreplay.Prelude.{
  Bool, List, Option, Result, [], drop, err, false, if◌then◌else◌, ltb, map, none, ok, ok_or,
  reject_if, some, suc, take, true, zero, ℕ, ◌%◌, ◌*◌, ◌+◌, ◌==◌, ◌||◌, ◌∷◌, nat_eq, list_eq,
  option_eq, pair_eq, ◌>>◌, ◌>>=◌,
}
use eggreplay.Bytes.{Bytes, codes, strip_prefix}

abbrev pub grpc_max_body_bytes : ℕ
grpc_max_body_bytes = 16 * 1024 * 1024

abbrev pub grpc_max_frames : ℕ
grpc_max_frames = 4096

abbrev pub grpc_max_descriptor_bytes : ℕ
grpc_max_descriptor_bytes = 1024 * 1024

pub data GrpcError : Type 0 where
  too_large too_many_frames truncated overrun trailing_bytes descriptor_too_large : GrpcError
  descriptor_invalid unknown_message decode json : Bytes → GrpcError

pub record GrpcFrame : Type 0 where
  pub index : ℕ
  pub compressed : Bool
  pub length : ℕ
  pub payload : Bytes

-- `is_grpc_content_type`
unfoldable pub is_grpc_content_type : Option Bytes → Bool
is_grpc_content_type none = false
is_grpc_content_type (some value) =
    value == codes "application/grpc"
    || elim (strip_prefix (codes "application/grpc+") value) [ none ↦ false | some r ↦ true ]

-- `u32::from_be_bytes`
abbrev pub from_be_bytes : ℕ → ℕ → ℕ → ℕ → ℕ
from_be_bytes a b c d = 16777216 * a + 65536 * b + 256 * c + d

-- What follows the envelope of the frame at `index`: its payload, and the loop on what is left.
unfoldable pub take_payload :
    (Bytes → Result (List GrpcFrame) GrpcError)
    → ℕ
    → Bool
    → ℕ
    → Bytes
    → Result (List GrpcFrame) GrpcError
take_payload next index compressed size rest = if ltb (length rest) size then err overrun else do
  frames ← next (drop size rest)
  ok (
      (record { index = index; compressed = compressed; length = size; payload = take size rest })
      ∷ frames)

-- The loop from an offset: `room` is `GRPC_MAX_FRAMES - frames.len()`, and the body from the offset on
-- is the last argument. The sum of an offset and a length cannot overflow, since the body is below
-- 16 MiB. The loop ends only where nothing is left, so `TrailingBytes` is not returned.
unfoldable pub parse_frames : ℕ → ℕ → Bytes → Result (List GrpcFrame) GrpcError
unfolding take_payload
parse_frames room index [] = ok []
parse_frames zero index (flags ∷ rest) = err too_many_frames
parse_frames (suc room) index (flags ∷ a ∷ b ∷ c ∷ d ∷ rest) =
    take_payload (parse_frames room (suc index)) index (flags % 2 == 1) (from_be_bytes a b c d) rest
parse_frames (suc room) index _ = err truncated

-- `parse_grpc_frames`
unfoldable pub parse_grpc_frames : Bytes → Result (List GrpcFrame) GrpcError
parse_grpc_frames body =
    if ltb grpc_max_body_bytes (length body)
    then err too_large
    else parse_frames grpc_max_frames 0 body

-- What the prost crates provide: descriptor pools and dynamic messages.
pub record Protobuf : Type 1 where
  pub Pool : Type 0
  pub Descriptor : Type 0
  pub Json : Type 0
  pub decode_pool : Bytes → Option Pool
  pub get_message : Pool → Bytes → Option Descriptor
  pub decode_message : Descriptor → Bytes → Option Json

pub record GrpcMessageView (Json : Type 0) : Type 0 where
  pub index : ℕ
  pub compressed : Bool
  pub length : ℕ
  pub decoded : Option Json

module _ (pb : Protobuf) where
  open pb use {Json, decode_pool, get_message, decode_message}

  -- `decode_grpc_payload`; the texts of the errors of the crates are left out.
  unfoldable pub decode_grpc_payload : Bytes → Bytes → Bytes → Result Json GrpcError
  decode_grpc_payload payload descriptor_set message_name = do
    reject_if (ltb grpc_max_descriptor_bytes (length descriptor_set)) descriptor_too_large
    reject_if (ltb grpc_max_body_bytes (length payload)) too_large
    pool ← ok_or (decode_pool descriptor_set) (descriptor_invalid [])
    descriptor ← ok_or (get_message pool message_name) (unknown_message message_name)
    ok_or (decode_message descriptor payload) (decode [])

  discard_error : Result Json GrpcError → Option Json
  discard_error (ok v) = some v
  discard_error (err e) = none

  view_frame : Option (Bytes × Bytes) → GrpcFrame → GrpcMessageView Json
  unfolding discard_error
  view_frame descriptor f = record {
    index = f.index;
    compressed = f.compressed;
    length = f.length;
    decoded = elim descriptor [
      | none ↦ none
      | some (set, name) ↦
          if f.compressed then none else discard_error (decode_grpc_payload f.payload set name)
    ];
  }

  -- The messages of `grpc_view`.
  unfoldable pub grpc_view_messages :
      Bytes → Option (Bytes × Bytes) → Result (List (GrpcMessageView Json)) GrpcError
  unfolding view_frame
  grpc_view_messages body descriptor = do
    frames ← parse_grpc_frames body
    ok (map (view_frame descriptor) frames)
