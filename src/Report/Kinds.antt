-- ===== src/Report/Kinds.antt =====
-- The categories and the phases of errors are told apart by their names (`as_str`).
use eggreplay.Prelude.{
  ap, if◌then◌else◌, list_beq, refl, sym, ◌==◌, ◌∙◌, ◌≡◌, nat_eq, list_eq, option_eq, pair_eq,
}
use eggreplay.Bytes.{Bytes, codes}
use eggreplay.Error.{ErrorCategory, ErrorPhase, category_name, phase_name}

read_category : Bytes → ErrorCategory
read_category s =
    if s == codes "dns"
    then ErrorCategory.dns
    else if s == codes "connection_refused"
    then ErrorCategory.connection_refused
    else if s == codes "unreachable"
    then ErrorCategory.unreachable
    else if s == codes "tls"
    then ErrorCategory.tls
    else if s == codes "protocol"
    then ErrorCategory.protocol
    else if s == codes "policy"
    then ErrorCategory.policy
    else if s == codes "timeout"
    then ErrorCategory.timeout
    else if s == codes "cancelled"
    then ErrorCategory.cancelled
    else ErrorCategory.other

read_category-category_name : (c : ErrorCategory) → read_category (category_name c) ≡ c
unfolding read_category category_name list_beq
read_category-category_name ErrorCategory.dns = refl
read_category-category_name ErrorCategory.connection_refused = refl
read_category-category_name ErrorCategory.unreachable = refl
read_category-category_name ErrorCategory.tls = refl
read_category-category_name ErrorCategory.protocol = refl
read_category-category_name ErrorCategory.policy = refl
read_category-category_name ErrorCategory.timeout = refl
read_category-category_name ErrorCategory.cancelled = refl
read_category-category_name ErrorCategory.other = refl

read_phase : Bytes → ErrorPhase
read_phase s =
    if s == codes "request"
    then ErrorPhase.request
    else if s == codes "connect"
    then ErrorPhase.connect
    else if s == codes "tls"
    then ErrorPhase.tls
    else if s == codes "headers"
    then ErrorPhase.headers
    else if s == codes "body"
    then ErrorPhase.body
    else if s == codes "timeout"
    then ErrorPhase.timeout
    else if s == codes "cancelled"
    then ErrorPhase.cancelled
    else if s == codes "policy"
    then ErrorPhase.policy
    else ErrorPhase.other

read_phase-phase_name : (c : ErrorPhase) → read_phase (phase_name c) ≡ c
unfolding read_phase phase_name list_beq
read_phase-phase_name ErrorPhase.request = refl
read_phase-phase_name ErrorPhase.connect = refl
read_phase-phase_name ErrorPhase.tls = refl
read_phase-phase_name ErrorPhase.headers = refl
read_phase-phase_name ErrorPhase.body = refl
read_phase-phase_name ErrorPhase.timeout = refl
read_phase-phase_name ErrorPhase.cancelled = refl
read_phase-phase_name ErrorPhase.policy = refl
read_phase-phase_name ErrorPhase.other = refl

pub category_name-inj : (a b : ErrorCategory) → category_name a ≡ category_name b → a ≡ b
category_name-inj a b h =
    sym (read_category-category_name a) ∙ ap read_category h ∙ read_category-category_name b

pub phase_name-inj : (a b : ErrorPhase) → phase_name a ≡ phase_name b → a ≡ b
phase_name-inj a b h = sym (read_phase-phase_name a) ∙ ap read_phase h ∙ read_phase-phase_name b
