-- ===== src/Config.antt =====
-- Recording policy and matcher profiles (crates/eggreplay-core/src/config.rs).
use eggreplay.Bytes.{Bytes}
use eggreplay.Prelude.{
  ◌≡◌, Bool, true, false, not, ◌&&◌, if◌then◌else◌, Result, ok, Message, reject_if, text, ◌>>◌,
  List, ok-inj, refl, subst, ◌↔◌,
}

pub data RecordMode : Type 0 where
  sealed once append_new re_record : RecordMode

pub record RecordPolicy : Type 0 where
  pub mode : RecordMode
  pub upstream_enabled : Bool

unfoldable pub is_once : RecordMode → Bool
is_once once = true
is_once _ = false

-- `matches!(mode, Once | AppendNew | ReRecord)`
unfoldable pub requires_upstream : RecordMode → Bool
requires_upstream sealed = false
requires_upstream _ = true

-- `RecordMode::resolve`. The text of the first error names the mode.
unfoldable pub resolve : RecordMode → Bool → Bool → Result RecordPolicy Message
unfolding is_once requires_upstream
resolve self fixture_exists upstream_configured =
    let existing_once = is_once self && fixture_exists in
    let mode = if existing_once then sealed else self in
    let required = requires_upstream mode in
    do
      reject_if (required && not upstream_configured)
          (text "record mode requires an explicit upstream")
      reject_if (not required && upstream_configured && not existing_once)
          (text "sealed mode does not accept an upstream")
      ok (record { mode = mode; upstream_enabled = required })

-- What an operator may ask for, and the policy that is granted: a mode, whether the fixture exists,
-- whether an upstream is configured.
pub data Granted : RecordMode → Bool → Bool → RecordPolicy → Type 0 where
  offline : {e : Bool} → Granted sealed e false (record { mode = sealed; upstream_enabled = false })
  replayed : {u : Bool} → Granted once true u (record { mode = sealed; upstream_enabled = false })
  recorded_once : Granted once false true (record { mode = once; upstream_enabled = true })
  appended :
      {e : Bool} → Granted append_new e true (record { mode = append_new; upstream_enabled = true })
  recorded_again :
      {e : Bool} → Granted re_record e true (record { mode = re_record; upstream_enabled = true })

resolve-Granted :
    (m : RecordMode) (e u : Bool) (p : RecordPolicy) → resolve m e u ≡ ok p → Granted m e u p
unfolding resolve
resolve-Granted sealed e false p h = subst (Granted sealed e false) (ok-inj h) offline
resolve-Granted sealed e true p h = absurd (cc h)
resolve-Granted once true false p h = subst (Granted once true false) (ok-inj h) replayed
resolve-Granted once true true p h = subst (Granted once true true) (ok-inj h) replayed
resolve-Granted once false false p h = absurd (cc h)
resolve-Granted once false true p h = subst (Granted once false true) (ok-inj h) recorded_once
resolve-Granted append_new e false p h = absurd (cc h)
resolve-Granted append_new e true p h = subst (Granted append_new e true) (ok-inj h) appended
resolve-Granted re_record e false p h = absurd (cc h)
resolve-Granted re_record e true p h = subst (Granted re_record e true) (ok-inj h) recorded_again

Granted-resolve :
    (m : RecordMode) (e u : Bool) (p : RecordPolicy) → Granted m e u p → resolve m e u ≡ ok p
unfolding resolve
Granted-resolve m e u p offline = refl
Granted-resolve m e false p replayed = refl
Granted-resolve m e true p replayed = refl
Granted-resolve m e u p recorded_once = refl
Granted-resolve m e u p appended = refl
Granted-resolve m e u p recorded_again = refl

-- The policies that are granted are exactly these. Sealed mode is granted without an upstream, and never
-- uses the network. Once replays from a fixture that exists, without the network, even if an upstream is
-- configured; it records from an upstream that is configured if there is no fixture. Append-new and
-- re-record are granted with an upstream that is configured, and use it.
pub resolve_iff :
    (m : RecordMode) (fixture_exists upstream_configured : Bool) (p : RecordPolicy)
    → (resolve m fixture_exists upstream_configured ≡ ok p)
      ↔ Granted m fixture_exists upstream_configured p
resolve_iff m e u p = (resolve-Granted m e u p, Granted-resolve m e u p)

-- `MatcherProfile`
pub data MatcherProfile : Type 0 where
  strict practical : MatcherProfile

-- `RedactionProfile`
pub record RedactionProfile : Type 0 where
  pub id : Bytes
  pub sensitive_headers : List Bytes
  pub sensitive_query_keys : List Bytes
  pub sensitive_json_paths : List Bytes
