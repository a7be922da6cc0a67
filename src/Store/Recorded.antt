-- ===== src/Store/Recorded.antt =====
-- What holds of a recording session however its tasks interleave, and the agreement of the concurrent
-- session with the sequential writer.
use eggreplay.Prelude.{
  List, Option, [], length, ok, some, suc, ℕ, ◌+◌, ◌<◌, ◌∷◌, ◌≡◌, ◌≤◌, ap, arith, bind-eq-ok, leb,
  ltb, ltb→le, ok-inj, ok_or, ok_or-eq-ok, refl, reject_if-eq-ok, subst, sym, then-eq-ok, ◌^◌, ◌∙◌,
  none, some-inj,
}
use eggreplay.Bytes.{Bytes}
use eggreplay.Flow
use eggreplay.Flow.{Flow}
use eggreplay.Store.Recorder.{
  Recorder, append_line, prepare, count_blob, release_blob, shut_down, take_log, create,
}
use eggreplay.Store.Types.{
  StoreLimits, flow_body_bytes, as_store_error, invalid_flow, validate_body_refs, json, migrate,
  as_store_error-eq-ok,
}

module _ (to_vec : Flow → Option Bytes) where
  -- One step of one of the tasks that share a session. A task that has passed a check of the flag may
  -- act at any later moment, so the flag does not stop it here.
  pub data Step : Recorder → Recorder → Type 0 where
    appended :
        {r r' : Recorder} (flow : Flow) (line : Bytes × ℕ)
        → prepare to_vec r.limits flow ≡ ok line
        → append_line to_vec r line ≡ ok r'
        → Step r r'
    began : {r : Recorder} → Step r (count_blob r)
    released : {r : Recorder} → Step r (release_blob r)
    stopped : {r : Recorder} → Step r (shut_down r)
    taken : {r r' : Recorder} {log : List Bytes × ℕ} → take_log r ≡ ok (r', log) → Step r r'

  pub data Steps : Recorder → Recorder → Type 0 where
    done : {r : Recorder} → Steps r r
    then_step : {r s t : Recorder} → Steps r s → Step s t → Steps r t

  -- The lines of a log are those of valid flows within the limit on a line, and the bodies of the flows
  -- have a total length.
  abbrev pub IsLog : StoreLimits → List Bytes → ℕ → Type 0
  IsLog limits [] total = total ≡ 0
  IsLog limits (line ∷ lines) total =
      (flow : Flow) × (rest : ℕ) × (Flow.validate flow ≡ ok tt)
      × (to_vec flow ≡ some line)
      × (length line ≤ limits.max_line_bytes)
      × (total ≡ rest + flow_body_bytes flow)
      × IsLog limits lines rest

  -- A log with its counters, within the limits of the session.
  pub record IsRecorded (limits : StoreLimits) (lines : List Bytes) (count total : ℕ) : Type 0 where
    pub counted : length lines ≡ count
    pub logged : IsLog limits lines total
    pub few : count ≤ limits.max_flows
    pub small : total ≤ limits.max_total_bytes

  -- A session whose log, until it is taken, is recorded.
  abbrev pub IsOpen : Recorder → Type 0
  IsOpen r =
      (lines : List Bytes)
      → r.flows ≡ some lines
      → IsRecorded r.limits lines r.flow_count r.total_bytes

  prepare-ok :
      (limits : StoreLimits) (flow : Flow) (line : Bytes) (size : ℕ)
      → prepare to_vec limits flow ≡ ok (line, size)
      → (Flow.validate flow ≡ ok tt)
        × (to_vec flow ≡ some line)
        × (length line ≤ limits.max_line_bytes)
        × (size ≡ flow_body_bytes flow)
  unfolding prepare as_store_error
  prepare-ok limits flow line size h =
      let (valid, g) = then-eq-ok (as_store_error invalid_flow (Flow.validate flow)) _ h in
      let (refs, f) = then-eq-ok (validate_body_refs flow limits.max_blob_bytes) _ g in
      let (encoded, found, e) = bind-eq-ok (ok_or (to_vec flow) json) _ f in
      let (short, same) = reject_if-eq-ok (ltb limits.max_line_bytes (length encoded)) _ _ e in
      let pair = ok-inj same in
      let lines = ap (λ (p : Bytes × ℕ). p.0) pair in
      (
        as_store_error-eq-ok invalid_flow (Flow.validate flow) valid,
        ok_or-eq-ok (to_vec flow) json found ∙ ap some lines,
        subst (λ l. length l ≤ limits.max_line_bytes) lines
            (ltb→le limits.max_line_bytes (length encoded) short),
        sym (ap (λ (p : Bytes × ℕ). p.1) pair),
      )

  append_line-ok :
      (r r' : Recorder) (line : Bytes) (size : ℕ)
      → append_line to_vec r (line, size) ≡ ok r'
      → (lines : List Bytes) × (r.flows ≡ some lines)
        × (r.flow_count < r.limits.max_flows)
        × (r.total_bytes + size ≤ r.limits.max_total_bytes)
        × (r' ≡ record r {
          flows = some (line ∷ lines);
          flow_count = suc r.flow_count;
          total_bytes = r.total_bytes + size;
        })
  unfolding append_line
  append_line-ok r r' line size h =
      let (lines, opened, g) = bind-eq-ok (ok_or r.flows _) _ h in
      let (few, f) = reject_if-eq-ok (leb r.limits.max_flows r.flow_count) _ _ g in
      let (fits, e) = reject_if-eq-ok (leb (2 ^ 64) (r.total_bytes + size)) _ _ f in
      let (small, same) =
        reject_if-eq-ok (ltb r.limits.max_total_bytes (r.total_bytes + size)) _ _ e in
      (lines, ok_or-eq-ok r.flows _ opened, ground arith, ground arith, sym (ok-inj same))

  appended-IsOpen :
      (r : Recorder) (flow : Flow) (line : Bytes) (size : ℕ) (lines : List Bytes)
      → prepare to_vec r.limits flow ≡ ok (line, size)
      → r.flow_count < r.limits.max_flows
      → r.total_bytes + size ≤ r.limits.max_total_bytes
      → IsRecorded r.limits lines r.flow_count r.total_bytes
      → (ls : List Bytes) → ◌≡◌ {A = Option (List Bytes)} (some (line ∷ lines)) (some ls)
      → IsRecorded r.limits ls (suc r.flow_count) (r.total_bytes + size)
  appended-IsOpen r flow line size lines prepared few small recorded ls same =
      let (valid, found, short, measured) = prepare-ok r.limits flow line size prepared in
      subst (λ l. IsRecorded r.limits l (suc r.flow_count) (r.total_bytes + size)) (some-inj same)
        (record {
          counted = omega (arith, recorded.counted);
          logged = (
            flow,
            r.total_bytes,
            valid,
            found,
            short,
            ap (λ n. r.total_bytes + n) measured,
            recorded.logged,
          );
          few = few;
          small = small;
        })

  take_log-ok :
      (r s : Recorder) (log : List Bytes × ℕ)
      → take_log r ≡ ok (s, log)
      → (r.flows ≡ some log.0) × (record r { flows = none } ≡ s) × (log.1 ≡ r.flow_count)
  unfolding take_log
  take_log-ok r s log h =
      let (lines, opened, same) = bind-eq-ok (ok_or r.flows _) _ h in
      let pair = ok-inj same in
      (
        ok_or-eq-ok r.flows _ opened ∙ ap (λ (p : Recorder × (List Bytes × ℕ)). some p.1.0) pair,
        ap (λ (p : Recorder × (List Bytes × ℕ)). p.0) pair,
        sym (ap (λ (p : Recorder × (List Bytes × ℕ)). p.1.1) pair),
      )

  -- A step keeps what is recorded, and the limits.
  Step-IsOpen : (r s : Recorder) → Step r s → IsOpen r → (s.limits ≡ r.limits) × IsOpen s
  unfolding count_blob release_blob shut_down
  Step-IsOpen r s (appended flow (line, size) prepared h) open_r =
      let (lines, opened, few, small, same) = append_line-ok r s line size h in
      subst (λ (t : Recorder). (t.limits ≡ r.limits) × IsOpen t) (sym same)
        (refl, appended-IsOpen r flow line size lines prepared few small (open_r lines opened))
  Step-IsOpen r s began open_r = (refl, open_r)
  Step-IsOpen r s released open_r = (refl, open_r)
  Step-IsOpen r s stopped open_r = (refl, open_r)
  Step-IsOpen r s (taken {log} h) open_r =
      subst (λ (t : Recorder). (t.limits ≡ r.limits) × IsOpen t) (take_log-ok r s log h).1
        (refl, λ lines nothing. absurd (cc nothing))

  Steps-IsOpen : (r s : Recorder) → Steps r s → IsOpen r → (s.limits ≡ r.limits) × IsOpen s
  Steps-IsOpen r s done open_r = (refl, open_r)
  Steps-IsOpen r t (then_step {s} earlier h) open_r =
      let (same, open_s) = Steps-IsOpen r s earlier open_r in
      let (same', open_t) = Step-IsOpen s t h open_s in (same' ∙ same, open_t)

  create-IsOpen :
      (v : ℕ) (limits : StoreLimits) (r : Recorder)
      → create v limits ≡ ok r
      → (r.limits ≡ limits) × IsOpen r
  unfolding create
  create-IsOpen v limits r h =
      let (schema, migrated, same) = bind-eq-ok (migrate v) _ h in
      subst (λ (t : Recorder). (t.limits ≡ limits) × IsOpen t) (ok-inj same)
        (
          refl,
          λ lines e.
              subst (λ l. IsRecorded limits l 0 0) (some-inj e)
                (record { counted = refl; logged = refl; few = omega arith; small = omega arith }),
        )

  IsRecorded-take_log :
      (v : ℕ) (limits : StoreLimits) (start r s : Recorder) (lines : List Bytes) (count : ℕ)
      → create v limits ≡ ok start
      → Steps start r
      → take_log r ≡ ok (s, (lines, count))
      → IsRecorded limits lines count r.total_bytes
  IsRecorded-take_log v limits start r s lines count created steps h =
      let (fresh, open_start) = create-IsOpen v limits start created in
      let (same, open_r) = Steps-IsOpen start r steps open_start in
      let (opened, after, counted) = take_log-ok r s (lines, count) h in
      subst (λ l. IsRecorded l lines count r.total_bytes) (same ∙ fresh)
        (subst (λ n. IsRecorded r.limits lines n r.total_bytes) (sym counted) (open_r lines opened))

  -- After the log is taken no flow is added and the log is not taken again.
  Step-take_log :
      (r s : Recorder)
      → Step r s
      → r.flows ≡ none
      → (s.flows ≡ none) × (s.flow_count ≡ r.flow_count)
  unfolding count_blob release_blob shut_down
  Step-take_log r s (appended flow (line, size) prepared h) gone =
      let (lines, opened, few, small, same) = append_line-ok r s line size h in
      absurd (cc (opened, gone))
  Step-take_log r s began gone = (gone, refl)
  Step-take_log r s released gone = (gone, refl)
  Step-take_log r s stopped gone = (gone, refl)
  Step-take_log r s (taken {log} h) gone =
      let (opened, after, counted) = take_log-ok r s log h in absurd (cc (opened, gone))

  Steps-take_log :
      (r s t : Recorder) (log : List Bytes × ℕ)
      → take_log r ≡ ok (s, log)
      → Steps s t
      → (t.flows ≡ none) × (t.flow_count ≡ log.1)
  Steps-take_log r s t log h done =
      let (opened, after, counted) = take_log-ok r s log h in
      (
        ap (λ (q : Recorder). q.flows) (sym after),
        ap (λ (q : Recorder). q.flow_count) (sym after) ∙ sym counted,
      )
  Steps-take_log r s t log h (then_step {s = u} earlier step) =
      let (gone, same) = Steps-take_log r s u log h earlier in
      let (gone', same') = Step-take_log u t step gone in (gone', same' ∙ same)

  -- However the tasks of a session interleave, the log that finishing takes has as many lines as the
  -- count that goes into the manifest, each the encoding of a valid flow within the limit on a line,
  -- and both the count and the total length of the bodies are within the limits. Whatever the tasks do
  -- after that, no flow is added: the log stays taken and the count the same.
  pub take_log-IsRecorded :
      (v : ℕ) (limits : StoreLimits) (start r s t : Recorder) (lines : List Bytes) (count : ℕ)
      → create v limits ≡ ok start
      → Steps start r
      → take_log r ≡ ok (s, (lines, count))
      → Steps s t
      → IsRecorded limits lines count r.total_bytes × ((t.flows ≡ none) × (t.flow_count ≡ count))
  take_log-IsRecorded v limits start r s t lines count created steps h later = (
    IsRecorded-take_log v limits start r s lines count created steps h,
    Steps-take_log r s t (lines, count) h later,
  )
