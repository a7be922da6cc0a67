-- ===== src/Intercept/Rules.antt =====
-- Rules and their evaluation: `HostMatch`, `PortMatch`, `RequestKind`, `Rule`, `TargetPolicy`.
use eggreplay.Bytes.{Bytes, trim, strip_prefix, ends_with, codes}
use eggreplay.Prelude.{
  Bool, List, Option, Result, [], about_number, about_text, contains, err, false, if◌then◌else◌,
  is_empty, leb, length, ltb, min, none, ok, reject_if, some, text, true, ℕ, ◌&&◌, ◌+◌, ◌-◌, ◌==◌,
  ◌||◌, ◌∷◌, nat_eq, list_eq, option_eq, pair_eq, ◌>>◌, ◌>>=◌,
}
use eggreplay.Intercept.Hosts.{
  IpAddresses, NormalizedHost, PolicyError, too_many_rules, normalize_host, invalid_port, dns, ip,
  max_host_pattern_len, invalid_host, preview,
}

abbrev pub max_policy_rules : ℕ
max_policy_rules = 128

abbrev pub max_port_set_size : ℕ
max_port_set_size = 64

pub data HostMatch (Addr : Type 0) : Type 0 where
  exact_dns suffix_dns : Bytes → HostMatch Addr
  exact_ip : Addr → HostMatch Addr

pub data PortMatch : Type 0 where
  exact : ℕ → PortMatch
  range : ℕ → ℕ → PortMatch
  port_set : List ℕ → PortMatch
  any_port : PortMatch

pub data RequestKind : Type 0 where
  plain connect any_kind : RequestKind

pub data RuleAction : Type 0 where
  allow deny : RuleAction

-- `ConnectAction`
pub data ConnectAction : Type 0 where
  refuse tunnel intercept : ConnectAction

pub record Rule (Addr : Type 0) : Type 0 where
  pub host : HostMatch Addr
  pub ports : PortMatch
  pub kind : RequestKind
  pub action : RuleAction

pub record TargetPolicy (Addr : Type 0) : Type 0 where
  pub rules : List (Rule Addr)
  pub default_connect_action : ConnectAction

-- `PortMatch::exact`, `range`, `set`
unfoldable pub exact_port : ℕ → Result PortMatch PolicyError
exact_port port = do
  reject_if (port == 0) (invalid_port (text "port zero is rejected"))
  ok (exact port)

unfoldable pub port_range : ℕ → ℕ → Result PortMatch PolicyError
port_range start finish = do
  reject_if (start == 0 || finish == 0) (invalid_port (text "port zero is rejected"))
  reject_if (ltb finish start) (invalid_port (text "inverted port range"))
  ok (range start finish)

unfoldable pub port_set_of : List ℕ → Result PortMatch PolicyError
port_set_of ports = do
  reject_if (is_empty ports) (invalid_port (text "empty port set"))
  reject_if (ltb max_port_set_size (length ports))
      (invalid_port (about_number "port set too large" (length ports)))
  reject_if (contains ports 0) (invalid_port (text "port zero is rejected"))
  ok (port_set ports)

-- `PortMatch::matches`, `specificity`
unfoldable pub port_matches : PortMatch → ℕ → Bool
port_matches (exact expected) port = expected == port
port_matches (range start finish) port = leb start port && leb port finish
port_matches (port_set ports) port = contains ports port
port_matches any_port port = true

unfoldable pub port_specificity : PortMatch → ℕ
port_specificity (exact p) = 300
port_specificity (port_set ports) = 200 + (max_port_set_size - min (length ports) max_port_set_size)
port_specificity (range start finish) = 100
port_specificity any_port = 0

-- `RequestKind::covers`, `specificity`
unfoldable pub covers : RequestKind → RequestKind → Bool
covers any_kind observed = true
covers plain plain = true
covers connect connect = true
covers _ _ = false

unfoldable pub kind_specificity : RequestKind → ℕ
kind_specificity any_kind = 0
kind_specificity _ = 10

-- `TargetPolicy::new`
unfoldable pub new_policy :
    {Addr : Type 0} → List (Rule Addr) → ConnectAction → Result (TargetPolicy Addr) PolicyError
new_policy rules default_connect_action = do
  reject_if (ltb max_policy_rules (length rules)) (too_many_rules (length rules))
  ok (record { rules = rules; default_connect_action = default_connect_action })

-- A leading `*.` or `.` is stripped.
unfoldable pub suffix_parent : Bytes → Bytes
suffix_parent trimmed = elim (strip_prefix (codes "*.") trimmed) [
  | some parent ↦ parent
  | none ↦ elim (strip_prefix (codes ".") trimmed) [ some parent ↦ parent | none ↦ trimmed ]
]

abbrev pub Best : Type 0
Best = Option (ℕ × RuleAction)

-- `score > best_score || score == best_score && rule.action == Deny && best_action == Allow`
unfoldable pub replaces : ℕ → RuleAction → ℕ × RuleAction → Bool
replaces score deny (best_score, allow) = ltb best_score score || score == best_score
replaces score _ (best_score, _) = ltb best_score score

-- The update of `best` by a rule that matches, of a given score.
unfoldable pub improve : Best → ℕ → RuleAction → Best
unfolding replaces
improve none score action = some (score, action)
improve (some best) score action =
    if replaces score action best then some (score, action) else some best

unfoldable pub verdict : Best → RuleAction
verdict none = deny
verdict (some (score, action)) = action

is_allow : RuleAction → Bool
is_allow allow = true
is_allow deny = false

unfoldable pub resolve_with : ConnectAction → RuleAction → ConnectAction
resolve_with default_action deny = refuse
resolve_with default_action allow = default_action

module _ (ips : IpAddresses) where
  open ips use {IpAddr, ip_beq}

  -- `HostMatch::exact_dns`, `suffix_dns`
  unfoldable pub exact_dns_of : Bytes → Result (HostMatch IpAddr) PolicyError
  exact_dns_of input = do
    host ← normalize_host ips input
    elim host [
      | dns name ↦ ok (exact_dns name)
      | ip a ↦ err (invalid_host (text "exact DNS pattern must not be an IP literal"))
    ]

  unfoldable pub suffix_dns_of : Bytes → Result (HostMatch IpAddr) PolicyError
  suffix_dns_of input = do
    let parent = suffix_parent (trim input)
    reject_if (ltb max_host_pattern_len (length parent))
        (invalid_host (about_text "suffix too long" (preview input)))
    host ← normalize_host ips parent
    elim host [
      | dns name ↦ ok (suffix_dns name)
      | ip a ↦ err (invalid_host (text "DNS suffix must not be an IP literal"))
    ]

  -- `HostMatch::matches`, `specificity`
  unfoldable pub host_matches : HostMatch IpAddr → NormalizedHost IpAddr → Bool
  host_matches (exact_dns pattern_name) (dns name) = pattern_name == name
  host_matches (suffix_dns parent) (dns name) = name == parent || ends_with (b'.' ∷ parent) name
  host_matches (exact_ip a) (ip b) = ip_beq a b
  host_matches _ _ = false

  unfoldable pub host_specificity : HostMatch IpAddr → ℕ
  host_specificity (exact_ip a) = 3000
  host_specificity (exact_dns name) = 2000
  host_specificity (suffix_dns parent) = 1000 + min (length parent) 253

  -- `Rule::matches`, `specificity`
  unfoldable pub rule_matches : NormalizedHost IpAddr → ℕ → RequestKind → Rule IpAddr → Bool
  rule_matches host port kind r =
      host_matches r.host host && port_matches r.ports port && covers r.kind kind

  unfoldable pub specificity : Rule IpAddr → ℕ
  specificity r = host_specificity r.host + port_specificity r.ports + kind_specificity r.kind

  -- The loop of `evaluate`.
  unfoldable pub find_best :
      NormalizedHost IpAddr → ℕ → RequestKind → List (Rule IpAddr) → Best → Best
  unfolding improve
  find_best host port kind [] best = best
  find_best host port kind (r ∷ rs) best =
      find_best host port kind rs
        (if rule_matches host port kind r then improve best (specificity r) r.action else best)

  -- `TargetPolicy::evaluate`, `allows_plain`, `resolve_connect`
  unfoldable pub evaluate :
      TargetPolicy IpAddr → NormalizedHost IpAddr → ℕ → RequestKind → RuleAction
  unfolding verdict
  evaluate policy host port kind = verdict (find_best host port kind policy.rules none)

  unfoldable pub allows_plain : TargetPolicy IpAddr → NormalizedHost IpAddr → ℕ → Bool
  unfolding is_allow
  allows_plain policy host port = is_allow (evaluate policy host port plain)

  unfoldable pub resolve_connect : TargetPolicy IpAddr → NormalizedHost IpAddr → ℕ → ConnectAction
  unfolding resolve_with
  resolve_connect policy host port =
      resolve_with policy.default_connect_action (evaluate policy host port connect)
