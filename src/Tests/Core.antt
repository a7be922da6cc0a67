-- ===== src/Tests/Core.antt =====
-- The theorems on record modes and errors at concrete inputs.
use eggreplay.Bytes.{Bytes, is_utf8}
use eggreplay.Prelude.{
  [], false, if◌then◌else◌, length, none, refl, some, suc, take, true, zero, ℕ, ◌∷◌, ◌≡◌, ok, ◌↔◌,
  leb, ◌||◌,
}
use eggreplay.Config.{
  RecordMode, RecordPolicy, resolve, resolve_iff, Granted, is_once, requires_upstream,
}
use eggreplay.Error.{new, new_lem, ErrorCategory, ErrorPhase, short_error}

abbrev sealed_policy : RecordPolicy
sealed_policy = record { mode = RecordMode.sealed; upstream_enabled = false }

once_resolved : resolve RecordMode.once true true ≡ ok sealed_policy
unfolding resolve is_once requires_upstream
once_resolved = refl

resolve_iff_example :
    (resolve RecordMode.once true true ≡ ok sealed_policy)
    ↔ Granted RecordMode.once true true sealed_policy
resolve_iff_example = resolve_iff RecordMode.once true true sealed_policy

-- 511 letters and then a letter of two bytes.
abbrev letters : ℕ → Bytes
letters zero = 0xc3 ∷ 0xa9 ∷ []
letters (suc n) = b'a' ∷ letters n

letters_are_text : is_utf8 (letters 511) ≡ true
unfolding is_utf8 eggreplay.Bytes.utf8_run eggreplay.Bytes.utf8_lead
letters_are_text = refl

new_lem_example : new ErrorCategory.policy ErrorPhase.policy (letters 511) ≡ (
    if leb (length (letters 511)) 512 || is_utf8 (take 512 (letters 511))
    then some (short_error ErrorCategory.policy ErrorPhase.policy (take 512 (letters 511)))
    else none)
new_lem_example = new_lem ErrorCategory.policy ErrorPhase.policy (letters 511) letters_are_text
