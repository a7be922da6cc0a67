-- ===== src/Grpc/Trailers.antt =====
-- `grpc_status_from_trailers`, `decode_grpc_message_text` and `hex_value`.
use eggreplay.Prelude.{
  All, Bool, Bool-cases, Option, [], ap, arith, false, if◌then◌else◌, inl, inr, leb, ltb, none,
  refl, some, true, ℕ, ◌%◌, ◌&&◌, ◌*◌, ◌+◌, ◌-◌, ◌/◌, ◌<◌, ◌==◌, ◌∙◌, ◌∷◌, ◌≡◌, nat_eq, list_eq,
  option_eq, pair_eq, ==_iff,
}
use eggreplay.Bytes.{Bytes, codes, is_digit, eq_ignore_case, trim, parse_unsigned}
use eggreplay.Flow.{HeaderEntry, Trailers}

pub record GrpcStatus : Type 0 where
  pub code : ℕ
  pub message : Bytes

-- `hex_value`
unfoldable pub hex_value : ℕ → Option ℕ
hex_value c =
    if is_digit c
    then some (c - b'0')
    else if leb b'a' c && leb c b'f'
    then some (c - b'a' + 10)
    else if leb b'A' c && leb c b'F'
    then some (c - b'A' + 10)
    else none

-- The byte that two digits after a percent sign stand for.
unfoldable pub hex_pair : ℕ → ℕ → Option ℕ
hex_pair h l = elim (hex_value h) [
  | none ↦ none
  | some high ↦ elim (hex_value l) [ none ↦ none | some low ↦ some (16 * high + low) ]
]

-- The bytes that `decode_grpc_message_text` collects.
unfoldable pub decode_percent : Bytes → Bytes
decode_percent [] = []
decode_percent (c ∷ []) = c ∷ []
decode_percent (c ∷ h ∷ []) = c ∷ decode_percent (h ∷ [])
decode_percent (c ∷ h ∷ l ∷ s) =
    let plain = c ∷ decode_percent (h ∷ l ∷ s) in
    let after = decode_percent s in
    if c == b'%' then elim (hex_pair h l) [ some b ↦ b ∷ after | none ↦ plain ] else plain

-- `iter().rfind(|entry| entry.name.eq_ignore_ascii_case(name))`
unfoldable pub rfind : Bytes → Trailers → Option HeaderEntry
rfind name [] = none
rfind name (h ∷ hs) = elim (rfind name hs) [
  | some later ↦ some later
  | none ↦ if eq_ignore_case h.name name then some h else none
]

-- The message of a status; `lossy` is `String::from_utf8_lossy`.
unfoldable pub message_text : (Bytes → Bytes) → Option HeaderEntry → Bytes
message_text lossy none = []
message_text lossy (some h) = lossy (decode_percent h.value)

-- `grpc_status_from_trailers`
unfoldable pub grpc_status_from_trailers : (Bytes → Bytes) → Trailers → Option GrpcStatus
unfolding message_text
grpc_status_from_trailers lossy trailers = elim (rfind (codes "grpc-status") trailers) [
  | none ↦ none
  | some entry ↦ elim (parse_unsigned 32 (trim entry.value)) [
    | none ↦ none
    | some code ↦
        if ltb 16 code
        then none
        else some (record {
          code = code;
          message = message_text lossy (rfind (codes "grpc-message") trailers);
        })
  ]
]

-- The encoding of the gRPC specification, for the bytes that it escapes as chosen by a test: a percent
-- sign has to be among them.
abbrev pub hex_digit : ℕ → ℕ
hex_digit n = if ltb n 10 then b'0' + n else b'A' + (n - 10)

abbrev pub encode_percent : (ℕ → Bool) → Bytes → Bytes
encode_percent escaped [] = []
encode_percent escaped (c ∷ s) =
    let rest = encode_percent escaped s in
    if escaped c then b'%' ∷ hex_digit (c / 16) ∷ hex_digit (c % 16) ∷ rest else c ∷ rest

hex_value-hex_digit : (n : ℕ) → n < 16 → hex_value (hex_digit n) ≡ some n
unfolding hex_value
hex_value-hex_digit n h = ground arith

hex_pair-hex_digit : (c : ℕ) → c < 256 → hex_pair (hex_digit (c / 16)) (hex_digit (c % 16)) ≡ some c
unfolding hex_pair
hex_pair-hex_digit c h = ground (arith, hex_value-hex_digit (c / 16), hex_value-hex_digit (c % 16))

decode_percent-plain :
    (c : ℕ) (s : Bytes) → (c == b'%') ≡ false → decode_percent (c ∷ s) ≡ c ∷ decode_percent s
unfolding decode_percent
decode_percent-plain c [] h = refl
decode_percent-plain c (d ∷ []) h = refl
decode_percent-plain c (d ∷ e ∷ s) h = rw h

decode_percent-escape :
    (c : ℕ) (s : Bytes)
    → c < 256
    → decode_percent (b'%' ∷ hex_digit (c / 16) ∷ hex_digit (c % 16) ∷ s) ≡ c ∷ decode_percent s
unfolding decode_percent
decode_percent-escape c s h = rw (hex_pair-hex_digit c h)

plain_of_escaped : (c : ℕ) → ((c == b'%') ≡ true → ⊥) → (c == b'%') ≡ false
plain_of_escaped c h = elim (Bool-cases (c == b'%')) [ inl q ↦ absurd (h q) | inr q ↦ q ]

-- Decoding a message recovers the bytes that were encoded, whichever of them were escaped, as long as
-- percent signs were.
pub decode_percent-encode_percent :
    (escaped : ℕ → Bool) (s : Bytes)
    → escaped b'%' ≡ true
    → All (λ c. c < 256) s
    → decode_percent (encode_percent escaped s) ≡ s
decode_percent-encode_percent escaped [] p h = unfold decode_percent in refl
decode_percent-encode_percent escaped (c ∷ s) p h = elim (Bool-cases (escaped c)) [
  | inl e ↦ rw e (
      decode_percent-escape c (encode_percent escaped s) h.0
      ∙ ap (λ (r : Bytes). c ∷ r) (decode_percent-encode_percent escaped s p h.1))
  | inr e ↦
      let other : (c == b'%') ≡ false =
        plain_of_escaped c (λ q. cc (ap escaped ((==_iff c b'%').0 q))) in
      rw e (
        decode_percent-plain c (encode_percent escaped s) other
        ∙ ap (λ (r : Bytes). c ∷ r) (decode_percent-encode_percent escaped s p h.1))
]
