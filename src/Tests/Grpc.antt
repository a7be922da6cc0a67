-- ===== src/Tests/Grpc.antt =====
-- The theorems on gRPC at concrete inputs.
use eggreplay.Grpc.Status.{IsStatus, grpc_status_from_trailers_iff}
use eggreplay.Flow.{HeaderEntry}
use eggreplay.Grpc.Frames.{parse_grpc_frames, grpc_max_frames}
use eggreplay.Bytes.{codes, Bytes, trim, eq_ignore_case, parse_unsigned}
use eggreplay.Prelude.{
  List, [], arith, length, ok, refl, some, ℕ, ◌==◌, ◌||◌, ◌∷◌, ◌≡◌, ◌≤◌, nat_eq, list_eq, option_eq,
  pair_eq, list_beq, ◌↔◌,
}
use eggreplay.Grpc.Framing.{encode, parse_grpc_frames-encode, parse_grpc_frames_sound, frames_from}
use eggreplay.Grpc.Trailers.{
  decode_percent-encode_percent, GrpcStatus, decode_percent, grpc_status_from_trailers, rfind,
  encode_percent, hex_pair, hex_value,
}

abbrev two_messages : List (ℕ × Bytes)
two_messages = (0, b'h' ∷ b'i' ∷ []) ∷ (1, []) ∷ []

parse_grpc_frames-encode_example :
    parse_grpc_frames (encode two_messages) ≡ ok (frames_from 0 two_messages)
parse_grpc_frames-encode_example =
    parse_grpc_frames-encode two_messages (omega arith) (omega arith) (omega arith)

abbrev two_bodies : Bytes
two_bodies = encode two_messages

parse_grpc_frames_sound_example :
    (ms : List (ℕ × Bytes)) × (two_bodies ≡ encode ms)
    × (frames_from 0 two_messages ≡ frames_from 0 ms)
    × (length ms ≤ grpc_max_frames)
parse_grpc_frames_sound_example =
    parse_grpc_frames_sound two_bodies (frames_from 0 two_messages) (omega arith)
      parse_grpc_frames-encode_example

decode_percent-encode_percent_example :
    decode_percent (encode_percent (λ c. c == b'%' || c == b' ') (codes "50% of it"))
    ≡ codes "50% of it"
decode_percent-encode_percent_example =
    decode_percent-encode_percent (λ c. c == b'%' || c == b' ') (codes "50% of it") refl
      (omega arith)

abbrev not_found : List HeaderEntry
not_found =
    record { name = codes "grpc-status"; value = codes "5" }
    ∷ record { name = codes "grpc-message"; value = codes "no%20user" }
    ∷ []

abbrev status_not_found : GrpcStatus
status_not_found = record { code = 5; message = codes "no user" }

status_read : grpc_status_from_trailers (λ b. b) not_found ≡ some status_not_found
unfolding grpc_status_from_trailers rfind eq_ignore_case eggreplay.Prelude.list_beq parse_unsigned
    trim eggreplay.Bytes.to_lower eggreplay.Bytes.lowercase decode_percent hex_pair hex_value
status_read = refl

grpc_status_from_trailers_iff_example :
    (grpc_status_from_trailers (λ b. b) not_found ≡ some status_not_found)
    ↔ IsStatus (λ b. b) not_found status_not_found
grpc_status_from_trailers_iff_example =
    grpc_status_from_trailers_iff (λ b. b) not_found status_not_found
