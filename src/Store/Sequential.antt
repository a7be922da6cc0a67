-- ===== src/Store/Sequential.antt =====
-- The concurrent session does what the sequential writer does: `RecordingSession::append_flow` and
-- `SessionWriter::append_flow`.
use eggreplay.Store.Types.{
  as_store_error, invalid_flow, flow_body_bytes, validate_body_refs, json, invalid,
}
use eggreplay.Prelude.{
  Bool, Option, Result, err, false, none, ok, refl, reject_if, some, true, ◌>>=◌, ◌>>◌, ◌≡◌, inl,
  inr, leb, length, ltb, ok_or, ◌+◌, ◌^◌, Bool-cases, suc, text, ℕ, ◌∷◌,
}
use mathlib.Core.Option
use eggreplay.Bytes.{Bytes}
use eggreplay.Flow
use eggreplay.Flow.{Flow}
use eggreplay.Store.Recorder.{Recorder, Writer, append_line, append_flow, write_flow, prepare}

-- `Result::ok`
abbrev pub ok_of {ℓ} : {A : Type ℓ} {E : Type 0} → Result A E → Option A
ok_of (ok a) = some a
ok_of (err e) = none

-- The limit on flows may be checked first or last: another error comes first, but no other success.
module _ {A B N E : Type 0} (view : A → B) (make : Bytes → N → A) (few long over big : E)
    (is_long : Bytes → Bool) (overflows exceeds : N → Bool) where
  checked_first : Bool → N → Result (Unit {0}) E → Result (Unit {0}) E → Result Bytes E → Result A E
  checked_first many n valid refs encoding = do
    reject_if many few
    valid
    refs
    encoded ← encoding
    reject_if (is_long encoded) long
    reject_if (overflows n) over
    reject_if (exceeds n) big
    ok (make encoded n)

  prepared : N → Result (Unit {0}) E → Result (Unit {0}) E → Result Bytes E → Result (Bytes × N) E
  prepared n valid refs encoding = do
    valid
    refs
    encoded ← encoding
    reject_if (is_long encoded) long
    ok (encoded, n)

  checked_last : Bool → N → Result (Unit {0}) E → Result (Unit {0}) E → Result Bytes E → Result B E
  unfolding prepared
  checked_last many n valid refs encoding = do
    line ← prepared n valid refs encoding
    reject_if many few
    reject_if (overflows line.1) over
    reject_if (exceeds line.1) big
    ok (view (make line.0 line.1))

  checked_last-checked_first :
      (many : Bool) (n : N) (valid refs : Result (Unit {0}) E) (encoding : Result Bytes E)
      → ok_of (checked_last many n valid refs encoding)
        ≡ Option.map view (ok_of (checked_first many n valid refs encoding))
  unfolding checked_last checked_first
  checked_last-checked_first true n (err e) refs encoding = refl
  checked_last-checked_first false n (err e) refs encoding = refl
  checked_last-checked_first true n (ok u) (err e) encoding = refl
  checked_last-checked_first false n (ok u) (err e) encoding = refl
  checked_last-checked_first true n (ok u) (ok v) (err e) = refl
  checked_last-checked_first false n (ok u) (ok v) (err e) = refl
  checked_last-checked_first many n (ok u) (ok v) (ok l) = elim (Bool-cases (is_long l)) [
    | inl too_long ↦ rw (too_long, checked_last, checked_first, prepared) (reject_all many)
    | inr short ↦
        rw (short, checked_last, checked_first, prepared) (same_end many (overflows n) (exceeds n))
  ]
    where
      reject_all :
          (t : Bool)
          → ◌≡◌ {A = Option B} none (Option.map view (ok_of (reject_if t few >> err long)))
      reject_all true = refl
      reject_all false = refl

      same_end :
          (t o x : Bool)
          → ok_of
              (reject_if t few >> (reject_if o over >> (reject_if x big >> ok (view (make l n)))))
            ≡ Option.map view (
                ok_of (reject_if t few >> (reject_if o over >> (reject_if x big >> ok (make l n)))))
      same_end true o x = refl
      same_end false true x = refl
      same_end false false true = refl
      same_end false false false = refl

-- A writer as a session that is not shut down and has no open body.
abbrev pub recorder_of : Writer → Recorder
recorder_of w = record {
  limits = w.limits;
  flows = some w.flows;
  flow_count = w.flow_count;
  total_bytes = w.total_bytes;
  active_blobs = 0;
  shutdown = false;
}

abbrev add_line : Writer → Bytes → ℕ → Writer
add_line w encoded size = record w {
  flows = encoded ∷ w.flows;
  flow_count = suc w.flow_count;
  total_bytes = w.total_bytes + size;
}

-- Appending a flow to a session succeeds exactly when writing it does, and to the same effect.
pub append_flow-write_flow :
    (to_vec : Flow → Option Bytes) (w : Writer) (flow : Flow)
    → ok_of (append_flow to_vec (recorder_of w) flow)
      ≡ Option.map recorder_of (ok_of (write_flow to_vec w flow))
unfolding append_flow write_flow prepare append_line checked_last checked_first prepared
append_flow-write_flow to_vec w flow =
    checked_last-checked_first recorder_of (add_line w)
      (invalid (text "flow count exceeds configured limit"))
      (invalid (text "flow JSONL line exceeds configured limit"))
      (invalid (text "total body length overflow"))
      (invalid (text "total body length exceeds configured limit"))
      (λ encoded. ltb w.limits.max_line_bytes (length encoded))
      (λ size. leb (2 ^ 64) (w.total_bytes + size))
      (λ size. ltb w.limits.max_total_bytes (w.total_bytes + size))
      (leb w.limits.max_flows w.flow_count) (flow_body_bytes flow)
      (as_store_error invalid_flow (Flow.validate flow))
      (validate_body_refs flow w.limits.max_blob_bytes) (ok_or (to_vec flow) json)
