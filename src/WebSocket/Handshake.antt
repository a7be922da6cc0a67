-- ===== src/WebSocket/Handshake.antt =====
-- `normalize_websocket_handshake_headers`, `validate_websocket_handshake_headers` and
-- `payload_ref_for_bytes`.
use eggreplay.Prelude.{
  Bool, List, Message, Option, Result, [], any, if◌then◌else◌, is_empty, leb, length, ltb, none,
  not, ok, ok_or, reject_if, retain, some, text, ℕ, ◌&&◌, ◌+◌, ◌^◌, ◌∷◌, ◌>>◌, ◌>>=◌,
}
use eggreplay.Bytes.{Bytes, codes, eq_ignore_case, trim}
use eggreplay.External.{External}
use eggreplay.Flow.{HeaderEntry, BodyRef, new_blob}
use eggreplay.Error.{FlowError}
use eggreplay.WebSocket.Types.{WebSocketLimits}

-- `normalize_websocket_handshake_headers`
unfoldable pub normalize_handshake_headers : List HeaderEntry → Bool → List HeaderEntry
normalize_handshake_headers headers response =
    let volatile = if response then codes "sec-websocket-accept" else codes "sec-websocket-key" in
    retain (λ header. not (eq_ignore_case header.name volatile)) headers

-- The `try_fold` of checked sums.
unfoldable pub header_bytes : ℕ → List HeaderEntry → Option ℕ
header_bytes total [] = some total
header_bytes total (h ∷ hs) =
    let next = total + length h.name + length h.value + 4 in
    let rest = header_bytes next hs in if leb (2 ^ 64) next then none else rest

-- `validate_websocket_handshake_headers`
unfoldable pub validate_handshake_headers :
    List HeaderEntry → WebSocketLimits → Bool → Result (Unit {0}) Message
unfolding header_bytes
validate_handshake_headers headers limits response = do
  reject_if (ltb limits.max_handshake_header_count (length headers))
      (text "WebSocket handshake header count exceeds limit")
  bytes ← ok_or (header_bytes 0 headers) (text "WebSocket handshake header length overflow")
  reject_if (ltb limits.max_handshake_header_bytes bytes)
      (text "WebSocket handshake headers exceed byte limit")
  reject_if
      (response
        && any
            (λ header.
              eq_ignore_case header.name (codes "sec-websocket-extensions")
              && not (is_empty (trim header.value)))
            headers)
      (text "negotiated WebSocket extensions are unsupported")

-- `payload_ref_for_bytes`
unfoldable pub payload_ref_for_bytes : External → Bytes → Result BodyRef FlowError
payload_ref_for_bytes ext bytes =
    if is_empty bytes
    then ok BodyRef.empty
    else (do blob ← new_blob (ext.sha256_hex bytes) (length bytes); ok (BodyRef.blob blob))
