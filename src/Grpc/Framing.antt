-- ===== src/Grpc/Framing.antt =====
-- The framing of the gRPC specification, and proofs that `parse_grpc_frames` inverts it.
use eggreplay.Prelude.{
  All, Bool, List, Result, [], arith, drop, false, length, length-append, ltb, ok, refl, suc, take,
  zero, ℕ, ◌%◌, ◌++◌, ◌/◌, ◌<◌, ◌==◌, ◌∷◌, ◌≡◌, ◌≤◌, nat_eq, list_eq, option_eq, pair_eq,
  Result-cases, ap, inl, inr, length-take, ◌∙◌, sym, take-append-drop,
}
use eggreplay.Bytes.{Bytes}
use eggreplay.Grpc.Frames.{
  GrpcError, GrpcFrame, grpc_max_body_bytes, grpc_max_frames, from_be_bytes, take_payload,
  parse_frames, parse_grpc_frames,
}

-- One message: a byte of flags and a payload.
abbrev pub Message : Type 0
Message = ℕ × Bytes

-- The length of a payload in four bytes, the highest first.
abbrev pub to_be_bytes : ℕ → Bytes
to_be_bytes n = n / 16777216 ∷ n / 65536 % 256 ∷ n / 256 % 256 ∷ n % 256 ∷ []

abbrev pub encode : List Message → Bytes
encode [] = []
encode ((flags, payload) ∷ ms) = flags ∷ (to_be_bytes (length payload) ++ (payload ++ encode ms))

-- The frames that stand for messages, numbered from an index on.
abbrev pub frames_from : ℕ → List Message → List GrpcFrame
frames_from index [] = []
frames_from index ((flags, payload) ∷ ms) =
    (record {
      index = index;
      compressed = flags % 2 == 1;
      length = length payload;
      payload = payload;
    })
    ∷ frames_from (suc index) ms

-- A payload whose length fits in 32 bits.
abbrev pub FitsU32 : Message → Type 0
FitsU32 (flags, payload) = length payload < 4294967296

be_round_trip :
    (n : ℕ)
    → n < 4294967296
    → from_be_bytes (n / 16777216) (n / 65536 % 256) (n / 256 % 256) (n % 256) ≡ n
be_round_trip n h = omega arith

take-length : (p q : Bytes) → take (length p) (p ++ q) ≡ p
take-length [] q = refl
take-length (c ∷ p) q = rw (take-length p q)

drop-length : (p q : Bytes) → drop (length p) (p ++ q) ≡ q
drop-length [] q = refl
drop-length (c ∷ p) q = drop-length p q

take_payload-append :
    (next : Bytes → Result (List GrpcFrame) GrpcError) (index : ℕ) (compressed : Bool)
    (payload rest : Bytes) (frames : List GrpcFrame)
    → next rest ≡ ok frames
    → take_payload next index compressed (length payload) (payload ++ rest)
      ≡ ok (
          (record {
            index = index;
            compressed = compressed;
            length = length payload;
            payload = payload;
          })
          ∷ frames)
unfolding take_payload
take_payload-append next index compressed payload rest frames h =
    let fits : ltb (length (payload ++ rest)) (length payload) ≡ false =
      ground (arith, length-append payload rest) in
    rw (fits, drop-length payload rest, take-length payload rest, h)

parse_frames-encode :
    (room index : ℕ) (ms : List Message)
    → length ms ≤ room
    → All FitsU32 ms
    → parse_frames room index (encode ms) ≡ ok (frames_from index ms)
unfolding parse_frames
parse_frames-encode zero index [] le fits = refl
parse_frames-encode (suc room) index [] le fits = refl
parse_frames-encode zero index (m ∷ ms) le fits = absurd (omega arith)
parse_frames-encode (suc room) index ((flags, payload) ∷ ms) le fits =
    rw (be_round_trip (length payload) fits.0) (
      take_payload-append (parse_frames room (suc index)) index (flags % 2 == 1) payload (encode ms)
        (frames_from (suc index) ms) (parse_frames-encode room (suc index) ms (omega arith) fits.1))

-- Every sequence of at most 4096 messages in a body of at most 16 MiB is read back: in order, with its
-- compression flags, and with its payloads byte for byte.
pub parse_grpc_frames-encode :
    (ms : List Message)
    → length ms ≤ grpc_max_frames
    → All FitsU32 ms
    → length (encode ms) ≤ grpc_max_body_bytes
    → parse_grpc_frames (encode ms) ≡ ok (frames_from 0 ms)
unfolding parse_grpc_frames
parse_grpc_frames-encode ms count fits size =
    let small : ltb grpc_max_body_bytes (length (encode ms)) ≡ false = ground arith in
    rw small (parse_frames-encode grpc_max_frames 0 ms count fits)

be_bytes_lem :
    (a b c d : ℕ) (rest : Bytes) {flags : ℕ}
    → All (λ x. x < 256) (flags ∷ a ∷ b ∷ c ∷ d ∷ rest)
    → ◌≡◌ {A = Bytes} (a ∷ b ∷ c ∷ d ∷ rest) (to_be_bytes (from_be_bytes a b c d) ++ rest)
be_bytes_lem a b c d rest h =
    let n = from_be_bytes a b c d in
    let e1 : n / 16777216 ≡ a = omega arith in
    let e2 : n / 65536 % 256 ≡ b = omega arith in
    let e3 : n / 256 % 256 ≡ c = omega arith in
    let e4 : n % 256 ≡ d = omega arith in rw (e1, e2, e3, e4)

All-drop {ℓ κ} : {A : Type ℓ} (P : A → Type κ) (n : ℕ) (l : List A) → All P l → All P (drop n l)
All-drop P zero l h = h
All-drop P (suc n) [] h = tt
All-drop P (suc n) (x ∷ l) h = All-drop P n l h.1

-- What `parse_frames` accepts, it reads completely.
parse_frames_sound :
    (room index : ℕ) (body : Bytes) (frames : List GrpcFrame)
    → All (λ b. b < 256) body
    → parse_frames room index body ≡ ok frames
    → (ms : List Message) × (body ≡ encode ms)
      × (frames ≡ frames_from index ms)
      × (length ms ≤ room)
unfolding parse_frames take_payload
parse_frames_sound room index [] frames bytes e = ([], refl, ground arith, omega arith)
parse_frames_sound zero index (flags ∷ rest) frames bytes e = cc
parse_frames_sound (suc room) index (flags ∷ []) frames bytes e = cc
parse_frames_sound (suc room) index (flags ∷ a ∷ []) frames bytes e = cc
parse_frames_sound (suc room) index (flags ∷ a ∷ b ∷ []) frames bytes e = cc
parse_frames_sound (suc room) index (flags ∷ a ∷ b ∷ c ∷ []) frames bytes e = cc
parse_frames_sound (suc room) index (flags ∷ a ∷ b ∷ c ∷ d ∷ rest) frames bytes e =
    let n = from_be_bytes a b c d in
    elim (Result-cases (parse_frames room (suc index) (drop n rest))) [
      | inr (x, bad) ↦ absurd (ground arith)
      | inl (tail, q) ↦
          let fits : n ≤ length rest = ground arith in
          let here : frames
              ≡ (record {
                index = index;
                compressed = flags % 2 == 1;
                length = n;
                payload = take n rest;
              })
                ∷ tail =
            ground arith in
          let (ms, body, same, le) =
            parse_frames_sound room (suc index) (drop n rest) tail
              (All-drop (λ b. b < 256) n rest bytes.1.1.1.1.1) q in
          let size : length (take n rest) ≡ n = omega (arith, length-take n rest) in
          (
            (flags, take n rest) ∷ ms,
            ap (λ (s : Bytes). flags ∷ s)
                (rw size (
                  be_bytes_lem a b c d rest bytes
                  ∙ ap (λ (r : Bytes). to_be_bytes n ++ r)
                      (sym (take-append-drop n rest) ∙ ap (λ (r : Bytes). take n rest ++ r) body))),
            here ∙ rw (size, same),
            omega arith,
          )
    ]

-- A body of bytes that is accepted is exactly the framing of at most 4096 messages, with nothing left
-- over, and the frames are those messages, numbered from zero.
pub parse_grpc_frames_sound :
    (body : Bytes) (frames : List GrpcFrame)
    → All (λ b. b < 256) body
    → parse_grpc_frames body ≡ ok frames
    → (ms : List Message) × (body ≡ encode ms)
      × (frames ≡ frames_from 0 ms)
      × (length ms ≤ grpc_max_frames)
unfolding parse_grpc_frames
parse_grpc_frames_sound body frames bytes e =
    let accepted : parse_frames grpc_max_frames 0 body ≡ ok frames = ground arith in
    parse_frames_sound grpc_max_frames 0 body frames bytes accepted
