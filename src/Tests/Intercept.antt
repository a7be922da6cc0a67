-- ===== src/Tests/Intercept.antt =====
-- The theorems on the interception proxy at concrete inputs.
use eggreplay.Bytes.{Bytes, codes, lowercase}
use eggreplay.Intercept.Boundary.{host_matches-suffix_dns}
use eggreplay.Intercept.Coherence.{resolve_connect-from_document, policy_from_flags-refuse}
use eggreplay.Intercept.Forwarding.{
  HeaderMapLaws, get_all-filter_proxy_headers, get_all-Concerns, values_of, Concerns,
}
use eggreplay.Intercept.Headers.{HeaderMaps, filter_proxy_headers, is_forwarded}
use eggreplay.Intercept.Hosts.{IpAddresses, dns, NormalizedHost}
use eggreplay.Intercept.PolicyFile.{
  FilePolicy, PolicyDocument, number, policy_from_flags, to_target_policy, from_document,
  FileAction, target_rule, connect_action,
}
use eggreplay.Intercept.Priority.{evaluate-allow, Permits}
use eggreplay.Intercept.Rules.{
  Rule, TargetPolicy, exact_dns, evaluate, resolve_connect, suffix_dns, host_matches, ConnectAction,
  exact, connect, any_port, RuleAction, any_kind,
}
use eggreplay.Prelude.{
  List, Option, Any, [], false, none, ok, refl, some, true, ℕ, ◌++◌, ◌==◌, ◌↔◌, ◌∷◌, ◌≡◌, ◌≢◌, ◌⊎◌,
  nat_eq, list_eq, option_eq, pair_eq, ◌>>◌, ◌>>=◌, Bool, arith, if◌then◌else◌, inl, inr, list_beq,
}

-- No text is an address here.
abbrev no_addresses : IpAddresses
no_addresses = record {
  IpAddr = ℕ;
  ip_beq = λ a b. a == b;
  parse_ip = λ s. none;
  print_ip = λ a. [];
  is_v6 = λ a. false;
}

abbrev allowed_hosts : Rule ℕ
allowed_hosts = record {
  host = suffix_dns (codes "example.test");
  ports = any_port;
  kind = any_kind;
  action = RuleAction.allow;
}

abbrev denied_host : Rule ℕ
denied_host = record {
  host = exact_dns (codes "evil.example.test");
  ports = any_port;
  kind = any_kind;
  action = RuleAction.deny;
}

abbrev policy : TargetPolicy ℕ
policy = record {
  rules = allowed_hosts ∷ denied_host ∷ [];
  default_connect_action = ConnectAction.tunnel;
}

abbrev evil : NormalizedHost ℕ
evil = dns (codes "evil.example.test")

evaluate-allow_example :
    (evaluate no_addresses policy evil 443 connect ≡ RuleAction.allow)
    ↔ Any (Permits no_addresses evil 443 connect policy.rules) policy.rules
evaluate-allow_example = evaluate-allow no_addresses evil 443 connect policy

evil_denied : evaluate no_addresses policy evil 443 connect ≡ RuleAction.deny
unfolding evaluate eggreplay.Intercept.Rules.find_best eggreplay.Intercept.Rules.rule_matches
    host_matches eggreplay.Prelude.list_beq eggreplay.Intercept.Rules.port_matches
    eggreplay.Intercept.Rules.covers eggreplay.Bytes.ends_with eggreplay.Intercept.Rules.specificity
    eggreplay.Intercept.Rules.host_specificity eggreplay.Intercept.Rules.port_specificity
    eggreplay.Intercept.Rules.kind_specificity
evil_denied = refl

host_matches-suffix_dns_example :
    (host_matches no_addresses (suffix_dns (codes "ple.test")) (dns (codes "example.test")) ≡ true)
    ↔ ((codes "example.test" ≡ codes "ple.test")
        ⊎ ((q : Bytes) × (codes "example.test" ≡ q ++ b'.' ∷ codes "ple.test")))
host_matches-suffix_dns_example =
    host_matches-suffix_dns no_addresses (codes "ple.test") (codes "example.test")

abbrev document : PolicyDocument
document = record {
  version = codes "eggreplay-intercept-policy/v1";
  default_connect_action = codes "intercept";
  rules =
      record {
        host = codes "a.test";
        ports = number (some 443);
        kind = codes "connect";
        action = codes "intercept";
      }
      ∷ [];
}

abbrev file_policy : FilePolicy ℕ
file_policy = record {
  default_connect_action = ConnectAction.intercept;
  rules =
      record {
        host = exact_dns (codes "a.test");
        ports = exact 443;
        kind = connect;
        action = FileAction.intercept;
        host_display = codes "a.test";
      }
      ∷ [];
}

abbrev target_policy : TargetPolicy ℕ
target_policy = record {
  rules =
      record {
        host = exact_dns (codes "a.test");
        ports = exact 443;
        kind = connect;
        action = RuleAction.allow;
      }
      ∷ [];
  default_connect_action = ConnectAction.intercept;
}

document_read : from_document no_addresses document ≡ ok file_policy
unfolding from_document list_beq eggreplay.Intercept.PolicyFile.parse_connect_action lowercase
    eggreplay.Bytes.trim eggreplay.Intercept.PolicyFile.parse_rules
    eggreplay.Intercept.PolicyFile.parse_rule eggreplay.Intercept.PolicyFile.parse_host_pattern
    eggreplay.Bytes.strip_prefix eggreplay.Intercept.Hosts.inside_brackets
    eggreplay.Intercept.Rules.exact_dns_of eggreplay.Intercept.Hosts.normalize_host
    eggreplay.Bytes.contains_byte eggreplay.Intercept.Hosts.plain_host
    eggreplay.Intercept.Hosts.normalize_dns eggreplay.Intercept.Hosts.without_dot
    eggreplay.Bytes.strip_suffix_byte eggreplay.Bytes.contains_white eggreplay.Bytes.ends_with
    eggreplay.Bytes.eq_ignore_case eggreplay.Bytes.parse_unsigned eggreplay.Bytes.split_byte
    eggreplay.Intercept.Hosts.check_labels eggreplay.Intercept.Hosts.check_label
    eggreplay.Bytes.starts_with_byte eggreplay.Intercept.PolicyFile.parse_ports
    eggreplay.Intercept.PolicyFile.parse_kind eggreplay.Intercept.PolicyFile.parse_action
    eggreplay.Intercept.PolicyFile.check_coherence eggreplay.Intercept.PolicyFile.is_mixed
    eggreplay.Intercept.PolicyFile.is_deny eggreplay.Intercept.PolicyFile.connect_action
    eggreplay.Intercept.PolicyFile.same_connect eggreplay.Intercept.Rules.covers
    eggreplay.Intercept.Rules.exact_port
document_read = refl

policy_converted : to_target_policy file_policy ≡ ok target_policy
unfolding to_target_policy eggreplay.Intercept.Rules.new_policy target_rule
    eggreplay.Intercept.PolicyFile.rule_action
policy_converted = refl

resolve_connect-from_document_example :
    (resolve_connect no_addresses target_policy (dns (codes "a.test")) 443 ≡ ConnectAction.refuse)
    ⊎ Any
        (λ r.
          Permits no_addresses
            (dns (codes "a.test"))
            443
            connect
            target_policy.rules
            (target_rule r)
          × (connect_action r.action
              ≡ resolve_connect no_addresses target_policy (dns (codes "a.test")) 443))
        file_policy.rules
resolve_connect-from_document_example =
    resolve_connect-from_document no_addresses document file_policy target_policy document_read
      policy_converted (dns (codes "a.test")) 443

policy_from_flags-refuse_example :
    policy_from_flags no_addresses ConnectAction.refuse (codes "a.test" ∷ []) [] ≢ ok file_policy
policy_from_flags-refuse_example =
    policy_from_flags-refuse no_addresses (codes "a.test") [] [] file_policy

-- A header map as the list of its entries, in the order in which they were appended; every item of its
-- iteration comes with its name.
abbrev values_for : List (Bytes × Bytes) → Bytes → List Bytes
values_for [] key = []
values_for ((name, value) ∷ m) key =
    let rest = values_for m key in if name == key then value ∷ rest else rest

abbrev named_items : List (Bytes × Bytes) → List (Option Bytes × Bytes)
named_items [] = []
named_items ((name, value) ∷ m) = (some name, value) ∷ named_items m

abbrev lists : HeaderMaps
lists = record {
  HeaderMap = List (Bytes × Bytes);
  HeaderValue = Bytes;
  new_map = [];
  get_all = values_for;
  into_iter = named_items;
  append = λ m name value. m ++ (name, value) ∷ [];
  to_str = λ v. some v;
}

values_for-append :
    (m : List (Bytes × Bytes)) (name key value : Bytes)
    → values_for (m ++ (name, value) ∷ []) key
      ≡ (if name == key then values_for m key ++ value ∷ [] else values_for m key)
values_for-append [] name key value = refl
values_for-append ((n, v) ∷ m) name key value = ground (arith, values_for-append m name key value)

values_of-named_items :
    (m : List (Bytes × Bytes)) (key : Bytes) (here : Bool)
    → values_of key here (named_items m) ≡ values_for m key
values_of-named_items [] key here = refl
values_of-named_items ((n, v) ∷ m) key here = rw (values_of-named_items m key (n == key)) refl

list_laws : HeaderMapLaws lists
list_laws = record {
  get_all_new = λ key. refl;
  get_all_append = λ m name key value. values_for-append m name key value;
  get_all_items = λ m key. values_of-named_items m key false;
}

abbrev request_headers : List (Bytes × Bytes)
request_headers =
    (codes "accept", codes "a")
    ∷ (codes "connection", codes "close, X-Hop")
    ∷ (codes "x-hop", codes "1")
    ∷ (codes "accept", codes "b")
    ∷ []

get_all-filter_proxy_headers_example :
    values_for (filter_proxy_headers lists request_headers).forwarded (codes "accept") ≡ (
      if is_forwarded lists request_headers (lowercase (codes "accept"))
      then values_for request_headers (codes "accept")
      else [])
get_all-filter_proxy_headers_example =
    get_all-filter_proxy_headers lists list_laws request_headers (codes "accept")

hop_nominated : Concerns lists list_laws request_headers (lowercase (codes "x-hop"))
unfolding lowercase eggreplay.Prelude.list_beq eggreplay.Bytes.split_byte
    eggreplay.Intercept.Headers.header_text eggreplay.Bytes.trim
hop_nominated = inr (refl, inl (inr (inl refl)))

get_all-Concerns_example :
    values_for (filter_proxy_headers lists request_headers).forwarded (codes "x-hop") ≡ []
get_all-Concerns_example =
    get_all-Concerns lists list_laws request_headers (codes "x-hop") hop_nominated
