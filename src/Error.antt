-- ===== src/Error.antt =====
-- Stable error categories (crates/eggreplay-core/src/error.rs).
use eggreplay.Prelude.{
  ℕ, Bool, true, not, ◌&&◌, [], ◌∷◌, Option, none, some, ltb, leb, if◌then◌else◌, length, take,
  drop, ap, arith, refl, suc, zero, ◌≡◌, ◌≤◌, Bool-cases, false, inl, inr, sym, ◌<◌, ◌||◌,
}
use eggreplay.Bytes.{Bytes, codes, utf8_lead, utf8_run, is_utf8}

pub data ErrorPhase : Type 0 where
  request connect tls headers body timeout cancelled policy other : ErrorPhase

pub data ErrorCategory : Type 0 where
  dns connection_refused unreachable tls protocol policy timeout cancelled other : ErrorCategory

pub record FlowError : Type 0 where
  pub category : ErrorCategory
  pub phase : ErrorPhase
  pub message : Bytes

-- `ErrorCategory::as_str`
unfoldable pub category_name : ErrorCategory → Bytes
category_name ErrorCategory.dns = codes "dns"
category_name ErrorCategory.connection_refused = codes "connection_refused"
category_name ErrorCategory.unreachable = codes "unreachable"
category_name ErrorCategory.tls = codes "tls"
category_name ErrorCategory.protocol = codes "protocol"
category_name ErrorCategory.policy = codes "policy"
category_name ErrorCategory.timeout = codes "timeout"
category_name ErrorCategory.cancelled = codes "cancelled"
category_name ErrorCategory.other = codes "other"

-- `ErrorPhase::as_str`
unfoldable pub phase_name : ErrorPhase → Bytes
phase_name ErrorPhase.request = codes "request"
phase_name ErrorPhase.connect = codes "connect"
phase_name ErrorPhase.tls = codes "tls"
phase_name ErrorPhase.headers = codes "headers"
phase_name ErrorPhase.body = codes "body"
phase_name ErrorPhase.timeout = codes "timeout"
phase_name ErrorPhase.cancelled = codes "cancelled"
phase_name ErrorPhase.policy = codes "policy"
phase_name ErrorPhase.other = codes "other"

-- The continuation bytes of UTF-8, at which no character starts.
abbrev pub is_continuation : ℕ → Bool
is_continuation c = leb 0x80 c && leb c 0xbf

-- Whether the bytes from an offset on begin with a character, or are none.
unfoldable pub is_boundary : Bytes → Bool
is_boundary [] = true
is_boundary (c ∷ s) = not (is_continuation c)

-- `String::truncate` at an offset below the length; `none` is its panic inside a character.
unfoldable pub truncate : ℕ → Bytes → Option Bytes
unfolding is_boundary
truncate n s = if is_boundary (drop n s) then some (take n s) else none

-- `FlowError::new` of a literal of at most 512 bytes.
abbrev pub short_error : ErrorCategory → ErrorPhase → Bytes → FlowError
short_error category phase message = record {
  category = category;
  phase = phase;
  message = message;
}

-- `FlowError::new` with the limit as a parameter; `none` is a panic.
unfoldable pub new_within : ℕ → ErrorCategory → ErrorPhase → Bytes → Option FlowError
unfolding truncate
new_within n category phase message =
    if ltb n (length message)
    then elim (truncate n message) [ none ↦ none | some m ↦ some (short_error category phase m) ]
    else some (short_error category phase message)

-- `FlowError::new`
unfoldable pub new : ErrorCategory → ErrorPhase → Bytes → Option FlowError
unfolding new_within
new category phase message = new_within 512 category phase message

take_all : (n : ℕ) (s : Bytes) → length s ≤ n → take n s ≡ s
take_all zero [] h = refl
take_all zero (c ∷ s) h = absurd (omega arith)
take_all (suc n) [] h = refl
take_all (suc n) (c ∷ s) h = ap (λ (r : Bytes). c ∷ r) (take_all n s (omega arith))

-- A byte that can begin a character does not continue one, and the bytes after it that it asks for do.
utf8_lead_lem :
    (c : ℕ)
    → (utf8_lead c).0 ≡ true
    → (is_continuation c ≡ false) × (0x80 ≤ (utf8_lead c).2) × ((utf8_lead c).3 ≤ 0xbf)
unfolding utf8_lead
utf8_lead_lem c h = ground arith

all_three : (a b c : Bool) → (a && b && c) ≡ true → (a ≡ true) × (b ≡ true) × (c ≡ true)
all_three a b c h = ground arith

-- Where the characters of a text end: a first part of it is a text exactly if a character begins after
-- it.
utf8_run-take :
    (n due lo hi : ℕ) (s : Bytes)
    → 0x80 ≤ lo
    → hi ≤ 0xbf
    → n < length s
    → utf8_run due lo hi s ≡ true
    → utf8_run due lo hi (take n s) ≡ is_boundary (drop n s)
unfolding utf8_run is_boundary
utf8_run-take n due lo hi [] low high lt h = absurd (omega arith)
utf8_run-take zero zero lo hi (c ∷ s) low high lt h =
    let valid : (utf8_lead c).0 ≡ true = ground arith in ap not (sym (utf8_lead_lem c valid).0)
utf8_run-take zero (suc due) lo hi (c ∷ s) low high lt h = ground arith
utf8_run-take (suc n) zero lo hi (c ∷ s) low high lt h =
    let valid : (utf8_lead c).0 ≡ true = ground arith in
    let (alone, low', high') = utf8_lead_lem c valid in
    let rest : utf8_run (utf8_lead c).1 (utf8_lead c).2 (utf8_lead c).3 s ≡ true = ground arith in
    rw valid (
      utf8_run-take n (utf8_lead c).1 (utf8_lead c).2 (utf8_lead c).3 s low' high' (omega arith)
        rest)
utf8_run-take (suc n) (suc due) lo hi (c ∷ s) low high lt h =
    let (above, below, rest) = all_three (leb lo c) (leb c hi) (utf8_run due 0x80 0xbf s) h in
    rw (above, below)
      (utf8_run-take n due 0x80 0xbf s (omega arith) (omega arith) (omega arith) rest)

is_utf8-take :
    (n : ℕ) (s : Bytes)
    → n < length s
    → is_utf8 s ≡ true
    → is_utf8 (take n s) ≡ is_boundary (drop n s)
unfolding is_utf8
is_utf8-take n s lt h = utf8_run-take n 0 0x80 0xbf s (omega arith) (omega arith) lt h

new_within_lem :
    (n : ℕ) (category : ErrorCategory) (phase : ErrorPhase) (message : Bytes)
    → is_utf8 message ≡ true
    → new_within n category phase message ≡ (
        if leb (length message) n || is_utf8 (take n message)
        then some (short_error category phase (take n message))
        else none)
unfolding new_within truncate
new_within_lem n category phase message valid = elim (Bool-cases (ltb n (length message))) [
  | inr short ↦ ground (arith, take_all n message)
  | inl long ↦ ground (arith, is_utf8-take n message (ground arith) valid)
]

-- Making an error from a message, which is a text in UTF-8, panics exactly if the message has more than
-- 512 bytes of which the first 512 are not a text in UTF-8; otherwise the error has the category, the
-- phase and the message up to its first 512 bytes.
pub new_lem :
    (category : ErrorCategory) (phase : ErrorPhase) (message : Bytes)
    → is_utf8 message ≡ true
    → new category phase message ≡ (
        if leb (length message) 512 || is_utf8 (take 512 message)
        then some (short_error category phase (take 512 message))
        else none)
unfolding new
new_lem category phase message valid = new_within_lem 512 category phase message valid
