-- ===== src/Intercept/Hosts.antt =====
-- Hosts and authorities: `normalize_host`, `normalize_dns`, `normalize_authority`, `parse_port`.
use Prim.Native.String.{String}
use eggreplay.Prelude.{
  Bool, List, Message, Option, Result, [], about_text, all, any, err, if◌then◌else◌, is_empty, leb,
  length, ltb, none, not, ok, ok_or, reject_if, some, suc, text, zero, ℕ, ◌&&◌, ◌++◌, ◌+◌, ◌==◌,
  ◌||◌, ◌∷◌, nat_eq, list_eq, option_eq, pair_eq, ◌>>◌, ◌>>=◌,
}
use eggreplay.Bytes.{
  Bytes, codes, strip_prefix, strip_suffix_byte, parse_unsigned, trim, contains_byte,
  starts_with_byte, split_once, lowercase, rsplit_byte, contains_white, ends_with, split_byte,
  is_alphanumeric,
}

abbrev pub max_host_pattern_len : ℕ
max_host_pattern_len = 253

abbrev pub diagnostic_preview_len : ℕ
diagnostic_preview_len = 64

-- `std::net::IpAddr`: its values, `==`, parsing, printing, and whether an address is of version 6.
pub record IpAddresses : Type 1 where
  pub IpAddr : Type 0
  pub ip_beq : IpAddr → IpAddr → Bool
  pub parse_ip : Bytes → Option IpAddr
  pub print_ip : IpAddr → Bytes
  pub is_v6 : IpAddr → Bool

-- An error carries its text; `invalid_rule` and the size of an oversized list are the other kinds.
pub data PolicyError : Type 0 where
  invalid_host invalid_port invalid_rule : Message → PolicyError
  too_many_rules : ℕ → PolicyError

abbrev is_lead : ℕ → Bool
is_lead c = not (leb 0x80 c && leb c 0xbf)

-- `chars().count()` and `chars().take(n)`: a character is a byte that leads and those that continue.
count_chars : Bytes → ℕ
count_chars [] = 0
count_chars (c ∷ s) = let rest = count_chars s in if is_lead c then suc rest else rest

unfoldable pub take_chars : ℕ → Bytes → Bytes
take_chars n [] = []
take_chars zero (c ∷ s) = let rest = take_chars zero s in if is_lead c then [] else c ∷ rest
take_chars (suc n) (c ∷ s) =
    let lead = take_chars n s in
    let rest = take_chars (suc n) s in if is_lead c then c ∷ lead else c ∷ rest

-- `preview`
unfoldable pub preview : Bytes → Bytes
unfolding count_chars take_chars
preview input =
    take_chars diagnostic_preview_len input
    ++ (if ltb diagnostic_preview_len (count_chars input) then codes "..." else [])

abbrev host_error : String → Bytes → PolicyError
host_error what input = invalid_host (about_text what (preview input))

pub data NormalizedHost (Addr : Type 0) : Type 0 where
  dns : Bytes → NormalizedHost Addr
  ip : Addr → NormalizedHost Addr

pub record NormalizedTarget (Addr : Type 0) : Type 0 where
  pub host : NormalizedHost Addr
  pub port : ℕ

-- `contains(['/', '?', '#'])`
abbrev has_path_syntax : Bytes → Bool
has_path_syntax s = contains_byte b'/' s || contains_byte b'?' s || contains_byte b'#' s

-- The checks of one label, in their order. The first byte and the last one may not be a dash.
unfoldable pub check_label : Bytes → Bytes → Result (Unit {0}) PolicyError
check_label input label = do
  reject_if (is_empty label || ltb 63 (length label)) (host_error "invalid DNS label" input)
  reject_if (starts_with_byte b'-' label || ends_with (b'-' ∷ []) label)
      (host_error "invalid DNS label" input)
  reject_if (not (all (λ b. is_alphanumeric b || b == b'-') label))
      (host_error "invalid DNS characters" input)

unfoldable pub check_labels : Bytes → List Bytes → Result (Unit {0}) PolicyError
check_labels input [] = ok tt
check_labels input (label ∷ labels) = do check_label input label; check_labels input labels

-- `strip_suffix('.').unwrap_or(&lower)`
unfoldable pub without_dot : Bytes → Bytes
without_dot s = elim (strip_suffix_byte b'.' s) [ none ↦ s | some r ↦ r ]

-- `normalize_dns`, which only ever returns a name.
unfoldable pub normalize_dns : Bytes → Result Bytes PolicyError
normalize_dns input = do
  reject_if (any (leb 0x80) input) (invalid_host (text "non-ASCII names are rejected"))
  let name = without_dot (lowercase input)
  reject_if (is_empty name) (invalid_host (text "empty host"))
  reject_if (ltb max_host_pattern_len (length name)) (host_error "host too long" input)
  reject_if (contains_white name) (host_error "host contains whitespace" input)
  check_labels input (split_byte b'.' name)
  ok name

-- `parse_port`
unfoldable pub parse_port : Bytes → Result ℕ PolicyError
parse_port s = do
  port ← ok_or (parse_unsigned 16 s) (invalid_port (about_text "invalid port" (preview s)))
  reject_if (port == 0) (invalid_port (text "port zero is rejected"))
  ok port

-- `strip_prefix('[')` and then `strip_suffix(']')`
unfoldable pub inside_brackets : Bytes → Option Bytes
inside_brackets s = elim (strip_prefix (codes "[") s) [
  | none ↦ none
  | some rest ↦ strip_suffix_byte b']' rest
]

module _ (ips : IpAddresses) where
  open ips use {IpAddr, parse_ip, is_v6}

  -- A literal in brackets has to be of version 6.
  unfoldable pub bracketed : Bytes → Bytes → Result (NormalizedHost IpAddr) PolicyError
  bracketed trimmed inside = elim (parse_ip inside) [
    | none ↦ err (host_error "invalid bracketed host" trimmed)
    | some a ↦ if is_v6 a then ok (ip a) else err (host_error "invalid bracketed host" trimmed)
  ]

  -- What follows the brackets in `normalize_host`.
  unfoldable pub plain_host : Bytes → Result (NormalizedHost IpAddr) PolicyError
  plain_host s = do
    reject_if (contains_byte b'[' s || contains_byte b']' s) (host_error "unbalanced brackets" s)
    elim (parse_ip s) [
      | some a ↦ ok (ip a)
      | none ↦ do
        reject_if (contains_byte b':' s) (host_error "invalid host" s)
        name ← normalize_dns s
        ok (dns name)
    ]

  -- `normalize_host`
  unfoldable pub normalize_host : Bytes → Result (NormalizedHost IpAddr) PolicyError
  normalize_host input =
      let s = trim input in
      do
        reject_if (is_empty s) (invalid_host (text "empty host"))
        reject_if (ltb (max_host_pattern_len + 2) (length s)) (host_error "host too long" s)
        reject_if (contains_byte b'@' s) (invalid_host (text "host must not contain userinfo"))
        reject_if (has_path_syntax s) (host_error "host contains path syntax" s)
        elim (inside_brackets s) [ some inside ↦ bracketed s inside | none ↦ plain_host s ]

  -- What follows a bracketed host: nothing, or a port.
  authority_port : Bytes → ℕ → Bytes → Result ℕ PolicyError
  authority_port s default_port [] = ok default_port
  authority_port s default_port (c ∷ rest) =
      if c == b':' then parse_port rest else err (host_error "invalid authority suffix" s)

  bracketed_authority : Bytes → ℕ → Bytes → Result (NormalizedTarget IpAddr) PolicyError
  unfolding authority_port
  bracketed_authority s default_port rest = do
    parts ← ok_or (split_once b']' rest) (host_error "unbalanced brackets" s)
    host ← bracketed s parts.0
    port ← authority_port s default_port parts.1
    ok (record { host = host; port = port })

  plain_authority : Bytes → ℕ → Result (NormalizedTarget IpAddr) PolicyError
  plain_authority s default_port = elim (rsplit_byte b':' s) [
    | none ↦ do host ← normalize_host s; ok (record { host = host; port = default_port })
    | some (before, after) ↦ do
      reject_if (contains_byte b':' before) (host_error "unbracketed IPv6 must use brackets" s)
      host ← normalize_host before
      port ← parse_port after
      ok (record { host = host; port = port })
  ]

  -- `normalize_authority`
  unfoldable pub normalize_authority : Bytes → ℕ → Result (NormalizedTarget IpAddr) PolicyError
  unfolding bracketed_authority plain_authority
  normalize_authority authority default_port =
      let s = trim authority in
      do
        reject_if (is_empty s) (invalid_host (text "empty authority"))
        reject_if (contains_byte b'@' s) (invalid_host (text "authority must not contain userinfo"))
        reject_if (has_path_syntax s) (host_error "authority contains path syntax" s)
        elim (strip_prefix (codes "[") s) [
          | some rest ↦ bracketed_authority s default_port rest
          | none ↦ do
            reject_if (contains_white s) (host_error "authority contains whitespace" s)
            plain_authority s default_port
        ]
