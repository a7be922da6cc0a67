-- ===== src/Intercept/Coherence.antt =====
-- Coherence of policy files: proofs about `from_document`, `policy_from_flags` and what their
-- policies decide on a CONNECT.
use eggreplay.Intercept.Priority.{Permits, evaluate-allow}
use eggreplay.Bytes.{Bytes, codes, trim}
use eggreplay.Intercept.Rules.{
  max_policy_rules, resolve_connect, TargetPolicy, new_policy, rule_matches, connect, ConnectAction,
  RuleAction, covers, evaluate, RequestKind, resolve_with,
}
use eggreplay.Intercept.PolicyFile.{
  check_coherence, FilePolicy, parse_rules, from_document, PolicyDocument, is_mixed, RuleDocument,
  mixed_actions, FileRule, to_target_policy, policy_from_flags, parse_rule, target_rule,
  connect_action, parse_connect_action, flag_rules, allow_action, is_deny, FileAction, same_connect,
  rule_action, parse_host_pattern,
}
use eggreplay.Prelude.{
  List, [], any, ap, false, length, map, ok, refl, ◌∷◌, ◌≡◌, ◌≤◌, Bool-cases, bind-eq-ok, inl, inr,
  reject_if, sym, Any, reject_if-eq-ok, true, ℕ, ◌≢◌, ◌⊎◌, ltb, not, ◌==◌, nat_eq, list_eq,
  option_eq, pair_eq, arith, ok-inj, saturating_add, subst, Any-and, Any-imp, Any-map, any-All-not,
  length-map, ◌∙◌, is_empty, ◌&&◌, ◌++◌,
}
use eggreplay.Intercept.Hosts.{IpAddresses, NormalizedHost}

-- Rules none of which contradicts a default.
abbrev pub IsCoherent : {Addr : Type 0} → FilePolicy Addr → Type 0
IsCoherent policy = any (is_mixed policy.default_connect_action) policy.rules ≡ false

check_coherence-ok :
    {Addr : Type 0} (p : FilePolicy Addr) → (u : Unit {0}) → check_coherence p ≡ ok u → IsCoherent p
unfolding check_coherence
check_coherence-ok p tt h = elim (Bool-cases (any (is_mixed p.default_connect_action) p.rules)) [
  | inl mixed ↦ absurd (cc (h, ap (λ b. reject_if b mixed_actions) mixed))
  | inr none_is ↦ none_is
]

same_connect-eq : (a b : ConnectAction) → same_connect a b ≡ true → a ≡ b
unfolding same_connect
same_connect-eq ConnectAction.refuse ConnectAction.refuse h = refl
same_connect-eq ConnectAction.tunnel ConnectAction.tunnel h = refl
same_connect-eq ConnectAction.intercept ConnectAction.intercept h = refl
same_connect-eq ConnectAction.refuse ConnectAction.tunnel h = absurd (cc h)
same_connect-eq ConnectAction.refuse ConnectAction.intercept h = absurd (cc h)
same_connect-eq ConnectAction.tunnel ConnectAction.refuse h = absurd (cc h)
same_connect-eq ConnectAction.tunnel ConnectAction.intercept h = absurd (cc h)
same_connect-eq ConnectAction.intercept ConnectAction.refuse h = absurd (cc h)
same_connect-eq ConnectAction.intercept ConnectAction.tunnel h = absurd (cc h)

allowed-agrees :
    (a : FileAction) (d : ConnectAction) (k : RequestKind)
    → not (is_deny a) && covers k connect && not (same_connect (connect_action a) d) ≡ false
    → covers k connect ≡ true
    → rule_action a ≡ RuleAction.allow
    → connect_action a ≡ d
unfolding is_deny connect_action rule_action
allowed-agrees FileAction.deny d k unmixed covered allowed = absurd (cc allowed)
allowed-agrees FileAction.tunnel d k unmixed covered allowed = same_connect-eq _ d (ground arith)
allowed-agrees FileAction.intercept d k unmixed covered allowed = same_connect-eq _ d (ground arith)

is_mixed-agrees :
    {Addr : Type 0} (default_action : ConnectAction) (r : FileRule Addr)
    → is_mixed default_action r ≡ false
    → covers r.kind connect ≡ true
    → rule_action r.action ≡ RuleAction.allow
    → connect_action r.action ≡ default_action
unfolding is_mixed is_deny same_connect connect_action rule_action
is_mixed-agrees default_action r unmixed covered allowed =
    allowed-agrees r.action default_action r.kind unmixed covered allowed

-- `to_target_policy` where it succeeds
abbrev converted : {Addr : Type 0} → FilePolicy Addr → TargetPolicy Addr
converted p = record {
  rules = map target_rule p.rules;
  default_connect_action = p.default_connect_action;
}

RuleAction-cases : (a : RuleAction) → (a ≡ RuleAction.allow) ⊎ (a ≡ RuleAction.deny)
RuleAction-cases RuleAction.allow = inl refl
RuleAction-cases RuleAction.deny = inr refl

module _ (ips : IpAddresses) where
  open ips use {IpAddr}

  length-parse_rules :
      (rs : List RuleDocument) (out : List (FileRule IpAddr))
      → parse_rules ips rs ≡ ok out
      → length out ≡ length rs
  unfolding parse_rules
  length-parse_rules [] out h = cc h
  length-parse_rules (r ∷ rs) out h =
      let (rule, e, g) = bind-eq-ok (parse_rule ips r) _ h in
      let (rules, e2, k) = bind-eq-ok (parse_rules ips rs) _ g in
      cc (k, length-parse_rules rs rules e2)

  -- A document that is read gives a coherent policy, of at most 128 rules.
  from_document-ok :
      (d : PolicyDocument) (p : FilePolicy IpAddr)
      → from_document ips d ≡ ok p
      → IsCoherent p × (length p.rules ≤ max_policy_rules)
  unfolding from_document check_coherence
  from_document-ok d p h =
      let (versioned, g) =
        reject_if-eq-ok (not (d.version == codes "eggreplay-intercept-policy/v1")) _ _ h in
      let (few, f) = reject_if-eq-ok (ltb max_policy_rules (length d.rules)) _ _ g in
      let (action, parsed, e) = bind-eq-ok (parse_connect_action d.default_connect_action) _ f in
      let (rules, parsed_rules, c) = bind-eq-ok (parse_rules ips d.rules) _ e in
      let (coherent, same) = reject_if-eq-ok (any (is_mixed action) rules) _ _ c in
      subst (λ q. IsCoherent q × (length q.rules ≤ max_policy_rules)) (ok-inj same)
        (coherent, rw (length-parse_rules d.rules rules parsed_rules) (ground arith))

  kind_covered :
      (host : NormalizedHost IpAddr) (port : ℕ) (r : FileRule IpAddr)
      → rule_matches ips host port connect (target_rule r) ≡ true
      → covers r.kind connect ≡ true
  unfolding rule_matches target_rule
  kind_covered host port r h = ground arith

  resolve_connect-IsCoherent :
      (p : FilePolicy IpAddr)
      → IsCoherent p
      → (host : NormalizedHost IpAddr) (port : ℕ)
      → (resolve_connect ips (converted p) host port ≡ ConnectAction.refuse)
        ⊎ Any
            (λ r.
              Permits ips host port connect (map target_rule p.rules) (target_rule r)
              × (connect_action r.action ≡ resolve_connect ips (converted p) host port))
            p.rules
  unfolding resolve_connect rule_action target_rule
  resolve_connect-IsCoherent p coherent host port =
      elim (RuleAction-cases (evaluate ips (converted p) host port connect)) [
        | inr denied ↦ inl (ap (resolve_with p.default_connect_action) denied)
        | inl allowed ↦ inr (
            Any-imp p.rules
              (λ r (unmixed, permits). (
                permits,
                is_mixed-agrees p.default_connect_action r unmixed
                      (kind_covered host port r permits.0) permits.1.0
                    ∙ sym (ap (resolve_with p.default_connect_action) allowed),
              ))
              (Any-and _ _ p.rules (any-All-not _ p.rules coherent) (
                Any-map _ target_rule p.rules
                  ((evaluate-allow ips host port connect (converted p)).0 allowed))))
      ]

  -- A document that is read converts into a policy with the same rules in the same order, whatever
  -- the number of them, and with the same default.
  pub to_target_policy-from_document :
      (d : PolicyDocument) (p : FilePolicy IpAddr)
      → from_document ips d ≡ ok p
      → to_target_policy p ≡ ok (converted p)
  unfolding to_target_policy new_policy
  to_target_policy-from_document d p h =
      let (coherent, few) = from_document-ok d p h in
      rw (length-map target_rule p.rules) (ground arith)

  -- What a CONNECT gets from a file: a refusal, or the action of one of its rules that permit it.
  pub resolve_connect-from_document :
      (d : PolicyDocument) (p : FilePolicy IpAddr) (t : TargetPolicy IpAddr)
      → from_document ips d ≡ ok p
      → to_target_policy p ≡ ok t
      → (host : NormalizedHost IpAddr) (port : ℕ)
      → (resolve_connect ips t host port ≡ ConnectAction.refuse)
        ⊎ Any
            (λ r.
              Permits ips host port connect t.rules (target_rule r)
              × (connect_action r.action ≡ resolve_connect ips t host port))
            p.rules
  resolve_connect-from_document d p t h e host port =
      let converted = ok-inj (sym (to_target_policy-from_document d p h) ∙ e) in
      subst
        (λ t.
          (resolve_connect ips t host port ≡ ConnectAction.refuse)
          ⊎ Any
              (λ r.
                Permits ips host port connect t.rules (target_rule r)
                × (connect_action r.action ≡ resolve_connect ips t host port))
              p.rules)
        converted (resolve_connect-IsCoherent p (from_document-ok d p h).0 host port)

  -- The rules of allowed hosts begin with one that contradicts the default.
  flag_rules-mixed :
      (h : Bytes) (hs : List Bytes) (out : List (FileRule IpAddr))
      → flag_rules ips (allow_action ips ConnectAction.refuse) (h ∷ hs) ≡ ok out
      → (r : FileRule IpAddr) × (rest : List (FileRule IpAddr)) × (out ≡ r ∷ rest)
        × (is_mixed ConnectAction.refuse r ≡ true)
  unfolding flag_rules allow_action is_mixed is_deny same_connect connect_action covers
  flag_rules-mixed h hs out e =
      let (given, f) = reject_if-eq-ok (is_empty (trim h)) _ _ e in
      let (host, parsed, g) = bind-eq-ok (parse_host_pattern ips (trim h)) _ f in
      let (rest, parsed_rest, same) =
        bind-eq-ok (flag_rules ips (allow_action ips ConnectAction.refuse) hs) _ g in
      (_, rest, sym (ok-inj same), refl)

  -- With the default that refuses no host can be allowed by flags.
  pub policy_from_flags-refuse :
      (h : Bytes) (hs deny_hosts : List Bytes) (p : FilePolicy IpAddr)
      → policy_from_flags ips ConnectAction.refuse (h ∷ hs) deny_hosts ≢ ok p
  unfolding policy_from_flags check_coherence
  policy_from_flags-refuse h hs deny_hosts p e =
      let (few, g) =
        reject_if-eq-ok
          (ltb max_policy_rules (saturating_add (length (h ∷ hs)) (length deny_hosts))) _ _ e in
      let (allowed, parsed, f) =
        bind-eq-ok (flag_rules ips (allow_action ips ConnectAction.refuse) (h ∷ hs)) _ g in
      let (denied, parsed_denied, c) = bind-eq-ok (flag_rules ips FileAction.deny deny_hosts) _ f in
      let (first, rest, same, mixed) = flag_rules-mixed h hs allowed parsed in
      let (coherent, made) =
        reject_if-eq-ok (any (is_mixed ConnectAction.refuse) (allowed ++ denied)) _ _ c in
      cc (
        coherent,
        subst (λ l. any (is_mixed ConnectAction.refuse) (l ++ denied) ≡ true) (sym same)
            (ground arith),
      )
