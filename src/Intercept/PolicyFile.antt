-- ===== src/Intercept/PolicyFile.antt =====
-- The policy file: `FilePolicy::from_document`, `check_coherence`, `to_target_policy`,
-- `policy_from_flags` and the parsers of patterns.
use eggreplay.Intercept.Hosts.{
  IpAddresses, take_chars, PolicyError, inside_brackets, invalid_host, invalid_port, invalid_rule,
}
use eggreplay.Bytes.{
  Bytes, codes, lowercase, parse_unsigned, eq_ignore_case, trim, split_once, strip_prefix,
}
use eggreplay.Prelude.{
  Bool, List, Message, Option, Result, [], about_number, about_text, any, err, false, if◌then◌else◌,
  is_empty, leb, length, ltb, map, none, not, ok, ok_or, reject_if, some, text, true, ℕ, ◌&&◌, ◌*◌,
  ◌++◌, ◌==◌, ◌^◌, ◌∷◌, nat_eq, list_eq, option_eq, pair_eq, ◌>>◌, ◌>>=◌, saturating_add,
}
use eggreplay.Intercept.Rules.{
  RuleAction, ConnectAction, TargetPolicy, PortMatch, Rule, HostMatch, covers, RequestKind,
  new_policy, connect, any_port, suffix_dns_of, any_kind, plain, max_policy_rules, exact_ip,
  exact_port, port_range, port_set_of, exact_dns_of,
}

abbrev pub max_policy_file_bytes : ℕ
max_policy_file_bytes = 64 * 1024

abbrev detail_len : ℕ
detail_len = 200

-- The errors that parsing gives; reading a file gives others.
pub data PolicyFileError : Type 0 where
  too_large mixed_actions : PolicyFileError
  invalid : Message → PolicyFileError
  unsupported_version : Bytes → PolicyFileError
  too_many_rules : ℕ → PolicyFileError

-- `bound_detail`
unfoldable pub bound_detail : Bytes → Bytes
unfolding take_chars
bound_detail input =
    if leb (length input) detail_len then input else take_chars detail_len input ++ codes "..."

pub data FileAction : Type 0 where
  deny tunnel intercept : FileAction

-- `FileAction::parse`
unfoldable pub parse_action : Bytes → Result FileAction PolicyFileError
parse_action input =
    let word = lowercase (trim input) in
    if word == codes "deny"
    then ok FileAction.deny
    else if word == codes "tunnel"
    then ok FileAction.tunnel
    else if word == codes "intercept"
    then ok FileAction.intercept
    else err (invalid (about_text "unknown rule action" (bound_detail word)))

-- `FileAction::connect_action`, `rule_action`
unfoldable pub connect_action : FileAction → ConnectAction
connect_action FileAction.deny = ConnectAction.refuse
connect_action FileAction.tunnel = ConnectAction.tunnel
connect_action FileAction.intercept = ConnectAction.intercept

unfoldable pub rule_action : FileAction → RuleAction
rule_action FileAction.deny = RuleAction.deny
rule_action _ = RuleAction.allow

-- `parse_connect_action`
unfoldable pub parse_connect_action : Bytes → Result ConnectAction PolicyFileError
parse_connect_action input =
    let word = lowercase (trim input) in
    if word == codes "deny"
    then ok ConnectAction.refuse
    else if word == codes "tunnel"
    then ok ConnectAction.tunnel
    else if word == codes "intercept"
    then ok ConnectAction.intercept
    else err (invalid (about_text "unknown default_connect_action" (bound_detail word)))

-- `parse_kind`
unfoldable pub parse_kind : Bytes → Result RequestKind PolicyFileError
parse_kind input =
    let word = lowercase (trim input) in
    if word == codes "plain"
    then ok plain
    else if word == codes "connect"
    then ok connect
    else if word == codes "any"
    then ok any_kind
    else err (invalid (about_text "unknown rule kind" (bound_detail word)))

-- `parse_one_port`
unfoldable pub parse_one_port : Bytes → Result ℕ PolicyFileError
parse_one_port input = do
  port ← ok_or (parse_unsigned 16 input) (invalid (about_text "invalid port" (bound_detail input)))
  reject_if (port == 0) (invalid (text "port zero is rejected"))
  ok port

-- `map_err`: the text of a policy error, which is not compared, becomes the detail.
as_invalid {ℓ} : {A : Type ℓ} → Result A PolicyError → Result A PolicyFileError
as_invalid (ok a) = ok a
as_invalid (err (invalid_host m)) = err (invalid m)
as_invalid (err (invalid_port m)) = err (invalid m)
as_invalid (err (invalid_rule m)) = err (invalid m)
as_invalid (err (PolicyError.too_many_rules n)) =
    err (invalid (about_number "too many policy rules" n))

-- The forms of `serde_json::Value` that `ports` may have; a number that is not a `u64` has none.
pub data PortsValue : Type 0 where
  null other : PortsValue
  string : Bytes → PortsValue
  number : Option ℕ → PortsValue
  array : List (Option ℕ) → PortsValue

-- `as_u64().and_then(|port| u16::try_from(port).ok())`
port_number : Option ℕ → Result ℕ PolicyFileError
port_number none = err (invalid (text "invalid port"))
port_number (some n) = do reject_if (leb (2 ^ 16) n) (invalid (about_number "invalid port" n)); ok n

port_numbers : List (Option ℕ) → Result (List ℕ) PolicyFileError
unfolding port_number
port_numbers [] = ok []
port_numbers (n ∷ ns) = do port ← port_number n; ports ← port_numbers ns; ok (port ∷ ports)

parse_ports_text : Bytes → Result PortMatch PolicyFileError
unfolding as_invalid
parse_ports_text s =
    if eq_ignore_case s (codes "any") then ok any_port else elim (split_once b'-' s) [
      | some (lo, hi) ↦ do
        start ← parse_one_port (trim lo)
        finish ← parse_one_port (trim hi)
        as_invalid (port_range start finish)
      | none ↦ do port ← parse_one_port s; as_invalid (exact_port port)
    ]

-- `parse_ports`
unfoldable pub parse_ports : PortsValue → Result PortMatch PolicyFileError
unfolding parse_ports_text port_number port_numbers as_invalid
parse_ports null = ok any_port
parse_ports (string s) = parse_ports_text (trim s)
parse_ports (number n) = do port ← port_number n; as_invalid (exact_port port)
parse_ports (array ns) = do ports ← port_numbers ns; as_invalid (port_set_of ports)
parse_ports other =
    err (invalid (text "ports must be \"any\", a port, a \"lo-hi\" range, or an array of ports"))

pub record FileRule (Addr : Type 0) : Type 0 where
  pub host : HostMatch Addr
  pub ports : PortMatch
  pub kind : RequestKind
  pub action : FileAction
  pub host_display : Bytes

pub record FilePolicy (Addr : Type 0) : Type 0 where
  pub default_connect_action : ConnectAction
  pub rules : List (FileRule Addr)

-- `RuleDocument` and `PolicyDocument`, with the defaults of absent fields filled in.
pub record RuleDocument : Type 0 where
  pub host : Bytes
  pub ports : PortsValue
  pub kind : Bytes
  pub action : Bytes

pub record PolicyDocument : Type 0 where
  pub version : Bytes
  pub default_connect_action : Bytes
  pub rules : List RuleDocument

unfoldable pub same_connect : ConnectAction → ConnectAction → Bool
same_connect ConnectAction.refuse ConnectAction.refuse = true
same_connect ConnectAction.tunnel ConnectAction.tunnel = true
same_connect ConnectAction.intercept ConnectAction.intercept = true
same_connect _ _ = false

unfoldable pub is_deny : FileAction → Bool
is_deny FileAction.deny = true
is_deny _ = false

-- Whether a rule contradicts the default: it does not deny, covers CONNECT, and acts otherwise.
unfoldable pub is_mixed : {Addr : Type 0} → ConnectAction → FileRule Addr → Bool
unfolding same_connect is_deny
is_mixed default_action r =
    not (is_deny r.action)
    && covers r.kind connect
    && not (same_connect (connect_action r.action) default_action)

-- `check_coherence`
unfoldable pub check_coherence :
    {Addr : Type 0} → FilePolicy Addr → Result (Unit {0}) PolicyFileError
check_coherence policy =
    reject_if (any (is_mixed policy.default_connect_action) policy.rules) mixed_actions

-- The rule that `to_target_policy` makes of a file rule.
unfoldable pub target_rule : {Addr : Type 0} → FileRule Addr → Rule Addr
target_rule r = record {
  host = r.host;
  ports = r.ports;
  kind = r.kind;
  action = rule_action r.action;
}

-- `to_target_policy`
unfoldable pub to_target_policy :
    {Addr : Type 0} → FilePolicy Addr → Result (TargetPolicy Addr) PolicyError
to_target_policy policy = new_policy (map target_rule policy.rules) policy.default_connect_action

module _ (ips : IpAddresses) where
  open ips use {IpAddr, parse_ip}

  -- `parse_host_pattern`, past the suffix forms.
  literal_or_name : Bytes → Result (HostMatch IpAddr) PolicyFileError
  unfolding as_invalid
  literal_or_name s = elim (inside_brackets s) [
    | some inside ↦ elim (parse_ip inside) [
      | some a ↦ ok (exact_ip a)
      | none ↦ err (invalid (about_text "invalid host pattern" (bound_detail s)))
    ]
    | none ↦ elim (parse_ip s) [ some a ↦ ok (exact_ip a) | none ↦ as_invalid (exact_dns_of ips s) ]
  ]

  suffix_pattern : Bytes → Result (HostMatch IpAddr) PolicyFileError
  unfolding as_invalid
  suffix_pattern parent =
      if is_empty parent
      then err (invalid (text "empty suffix parent"))
      else as_invalid (suffix_dns_of ips parent)

  unfoldable pub parse_host_pattern : Bytes → Result (HostMatch IpAddr) PolicyFileError
  unfolding suffix_pattern literal_or_name
  parse_host_pattern input =
      let s = trim input in
      elim (strip_prefix (codes "*.") s) [
        | some parent ↦ suffix_pattern parent
        | none ↦ elim (strip_prefix (codes ".") s) [
          | some parent ↦ suffix_pattern parent
          | none ↦ literal_or_name s
        ]
      ]

  -- `parse_rule`
  unfoldable pub parse_rule : RuleDocument → Result (FileRule IpAddr) PolicyFileError
  parse_rule r =
      let display = trim r.host in
      do
        reject_if (is_empty display) (invalid (text "rule host must not be empty"))
        host ← parse_host_pattern display
        ports ← parse_ports r.ports
        kind ← parse_kind r.kind
        action ← parse_action r.action
        ok (record {
          host = host;
          ports = ports;
          kind = kind;
          action = action;
          host_display = lowercase (trim display);
        })

  unfoldable pub parse_rules : List RuleDocument → Result (List (FileRule IpAddr)) PolicyFileError
  parse_rules [] = ok []
  parse_rules (r ∷ rs) = do rule ← parse_rule r; rules ← parse_rules rs; ok (rule ∷ rules)

  -- `from_document`
  unfoldable pub from_document : PolicyDocument → Result (FilePolicy IpAddr) PolicyFileError
  from_document document = do
    reject_if (not (document.version == codes "eggreplay-intercept-policy/v1"))
        (unsupported_version (bound_detail document.version))
    reject_if (ltb max_policy_rules (length document.rules))
        (PolicyFileError.too_many_rules (length document.rules))
    default_action ← parse_connect_action document.default_connect_action
    rules ← parse_rules document.rules
    let policy : FilePolicy IpAddr = record {
      default_connect_action = default_action;
      rules = rules;
    }
    check_coherence policy
    ok policy

  -- `parse_json`, over the deserialisation of a document.
  unfoldable pub parse_json :
      (Bytes → Option PolicyDocument) → Bytes → Result (FilePolicy IpAddr) PolicyFileError
  parse_json read bytes = do
    reject_if (ltb max_policy_file_bytes (length bytes)) too_large
    document ← ok_or (read bytes) (invalid (text "malformed JSON"))
    from_document document

  -- The loops of `policy_from_flags`: the hosts with the action that they are given.
  unfoldable pub flag_rules :
      FileAction → List Bytes → Result (List (FileRule IpAddr)) PolicyFileError
  flag_rules action [] = ok []
  flag_rules action (h ∷ hs) = do
    reject_if (is_empty (trim h)) (invalid (text "host must not be empty"))
    host ← parse_host_pattern (trim h)
    rules ← flag_rules action hs
    ok (
        (record {
          host = host;
          ports = any_port;
          kind = any_kind;
          action = action;
          host_display = lowercase (trim (trim h));
        })
        ∷ rules)

  -- The action of the allowed hosts.
  unfoldable pub allow_action : ConnectAction → FileAction
  allow_action ConnectAction.intercept = FileAction.intercept
  allow_action _ = FileAction.tunnel

  -- `policy_from_flags`
  unfoldable pub policy_from_flags :
      ConnectAction → List Bytes → List Bytes → Result (FilePolicy IpAddr) PolicyFileError
  policy_from_flags default_action allow_hosts deny_hosts =
      let total = saturating_add (length allow_hosts) (length deny_hosts) in
      do
        reject_if (ltb max_policy_rules total) (PolicyFileError.too_many_rules total)
        allowed ← flag_rules (allow_action default_action) allow_hosts
        denied ← flag_rules FileAction.deny deny_hosts
        let policy : FilePolicy IpAddr = record {
          default_connect_action = default_action;
          rules = allowed ++ denied;
        }
        check_coherence policy
        ok policy
