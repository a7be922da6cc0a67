-- ===== src/Tests/Matching.antt =====
-- The theorems on the matcher at concrete inputs.
use eggreplay.Matching.Outcome.{Outcome, select_with_loader-Outcome, answering}
use eggreplay.Bytes.{Bytes}
use eggreplay.Matching.Replays.{once-Distinct, AllSame, repeat_last-AllSame, serve, start, refuse}
use eggreplay.Matching.Loads.{Logged, is_narrowed, logging, select_with_loader-Logged}
use eggreplay.Matching.Select.{select, select_with_loader, report, no_loader}
use eggreplay.Matching.Session.{MatcherSession, new_session, consume}
use eggreplay.Prelude.{
  Distinct, List, Option, [], false, inr, map, none, refl, some, ℕ, ◌∷◌, ◌≡◌, ◌>>◌, ◌>>=◌, contains,
  list_beq, option_beq, pair_beq, nat_eq, list_eq, option_eq, pair_eq, length,
}
use eggreplay.Tests.Fixtures.{crates, users, orders, recorded}
use eggreplay.Matching.Types.{
  ConsumptionMode, strict_matcher, matched, exhausted, no_match, Matcher, MatchCandidate, from_flow,
  MatchDimension,
}

abbrev matcher : Matcher
matcher = strict_matcher 2

-- The session after the first recording of `/users` was served.
abbrev after_first : ConsumptionMode → MatcherSession
after_first mode = consume new_session 0 mode

first_served :
    select crates matcher users [] ConsumptionMode.once recorded new_session
    ≡ (matched 0, after_first ConsumptionMode.once)
unfolding eggreplay.Matching.Select.select eggreplay.Matching.Select.select_with_loader
    eggreplay.Matching.Select.scan eggreplay.Matching.Select.finish
    eggreplay.Matching.Select.sort_near eggreplay.Matching.Select.insert_near
    eggreplay.Matching.Select.key_le eggreplay.Matching.Select.note
    eggreplay.Matching.Select.differing eggreplay.Matching.Normalize.normalize
    eggreplay.Matching.Normalize.normalize_headers eggreplay.Matching.Normalize.normalize_loop
    eggreplay.Matching.Normalize.push_value eggreplay.Matching.Normalize.redacted_request_headers
    eggreplay.Matching.Normalize.redacted_request_query
    eggreplay.Matching.Normalize.redacted_body_json_paths
    eggreplay.Matching.Normalize.redacted_body_form_keys eggreplay.Matching.Normalize.stripped
    eggreplay.Matching.Normalize.filter_query eggreplay.Matching.Body.body_matches_lazy
    eggreplay.Matching.Body.body_match eggreplay.Matching.Body.body_match_with_json
    eggreplay.Matching.Body.try_form_wildcard eggreplay.Matching.Types.strict_matcher
    eggreplay.Matching.Types.new_matcher eggreplay.Matching.Types.new_candidate
    eggreplay.Matching.Session.new_session eggreplay.Matching.Session.is_available
    eggreplay.Matching.Session.consume eggreplay.Prelude.list_beq eggreplay.Prelude.pair_beq
    eggreplay.Prelude.option_beq eggreplay.Prelude.contains eggreplay.BTree.compare_bytes
    eggreplay.BTree.get eggreplay.BTree.insert eggreplay.BTree.contains eggreplay.BTree.add
    eggreplay.BTree.extend eggreplay.Bytes.to_lower eggreplay.Bytes.lowercase
    eggreplay.Bytes.strip_prefix eggreplay.Flow.header_beq eggreplay.Flow.query_beq
first_served = refl

second_served :
    select crates matcher users [] ConsumptionMode.once recorded (after_first ConsumptionMode.once)
    ≡ (matched 1, consume (after_first ConsumptionMode.once) 1 ConsumptionMode.once)
unfolding eggreplay.Matching.Select.select eggreplay.Matching.Select.select_with_loader
    eggreplay.Matching.Select.scan eggreplay.Matching.Select.finish
    eggreplay.Matching.Select.sort_near eggreplay.Matching.Select.insert_near
    eggreplay.Matching.Select.key_le eggreplay.Matching.Select.note
    eggreplay.Matching.Select.differing eggreplay.Matching.Normalize.normalize
    eggreplay.Matching.Normalize.normalize_headers eggreplay.Matching.Normalize.normalize_loop
    eggreplay.Matching.Normalize.push_value eggreplay.Matching.Normalize.redacted_request_headers
    eggreplay.Matching.Normalize.redacted_request_query
    eggreplay.Matching.Normalize.redacted_body_json_paths
    eggreplay.Matching.Normalize.redacted_body_form_keys eggreplay.Matching.Normalize.stripped
    eggreplay.Matching.Normalize.filter_query eggreplay.Matching.Body.body_matches_lazy
    eggreplay.Matching.Body.body_match eggreplay.Matching.Body.body_match_with_json
    eggreplay.Matching.Body.try_form_wildcard eggreplay.Matching.Types.strict_matcher
    eggreplay.Matching.Types.new_matcher eggreplay.Matching.Types.new_candidate
    eggreplay.Matching.Session.new_session eggreplay.Matching.Session.is_available
    eggreplay.Matching.Session.consume eggreplay.Prelude.list_beq eggreplay.Prelude.pair_beq
    eggreplay.Prelude.option_beq eggreplay.Prelude.contains eggreplay.BTree.compare_bytes
    eggreplay.BTree.get eggreplay.BTree.insert eggreplay.BTree.contains eggreplay.BTree.add
    eggreplay.BTree.extend eggreplay.Bytes.to_lower eggreplay.Bytes.lowercase
    eggreplay.Bytes.strip_prefix eggreplay.Flow.header_beq eggreplay.Flow.query_beq
second_served = refl

select_with_loader-Outcome_example :
    let r =
      select_with_loader crates
        (answering (λ i c. none))
        matcher
        users
        []
        ConsumptionMode.once
        recorded
        (after_first ConsumptionMode.once)
        tt in
    Outcome crates
      (λ i c. none)
      matcher
      users
      []
      ConsumptionMode.once
      0
      recorded
      false
      (after_first ConsumptionMode.once)
      r.0
      r.1
select_with_loader-Outcome_example =
    select_with_loader-Outcome crates (λ i c. none) matcher users [] ConsumptionMode.once
      (answering (λ i c. none)) (λ s i c. refl) recorded (after_first ConsumptionMode.once) tt

-- A loader that finds every body empty.
abbrev loads_empty : ℕ → MatchCandidate → Option Bytes
loads_empty i c = some []

abbrev by_digest : List MatchCandidate
by_digest = map (λ c. from_flow c.flow) recorded

select_with_loader-Logged_example :
    Logged
      (is_narrowed crates loads_empty matcher users [] ConsumptionMode.once)
      0
      by_digest
      []
      (select_with_loader crates
        (logging loads_empty)
        matcher
        users
        []
        ConsumptionMode.once
        by_digest
        new_session
        []).2
select_with_loader-Logged_example =
    select_with_loader-Logged crates loads_empty matcher users [] ConsumptionMode.once by_digest
      new_session []

once-Distinct_example : Distinct {A = ℕ} (1 ∷ 0 ∷ [])
once-Distinct_example =
    once-Distinct crates matcher recorded
      (serve users [] 1 (serve users [] 0 (start refl) first_served) second_served)

abbrev pinned : MatcherSession
pinned = after_first ConsumptionMode.repeat_last

pin_served :
    select crates matcher users [] ConsumptionMode.repeat_last recorded new_session
    ≡ (matched 0, pinned)
unfolding eggreplay.Matching.Select.select eggreplay.Matching.Select.select_with_loader
    eggreplay.Matching.Select.scan eggreplay.Matching.Select.finish
    eggreplay.Matching.Select.sort_near eggreplay.Matching.Select.insert_near
    eggreplay.Matching.Select.key_le eggreplay.Matching.Select.note
    eggreplay.Matching.Select.differing eggreplay.Matching.Normalize.normalize
    eggreplay.Matching.Normalize.normalize_headers eggreplay.Matching.Normalize.normalize_loop
    eggreplay.Matching.Normalize.push_value eggreplay.Matching.Normalize.redacted_request_headers
    eggreplay.Matching.Normalize.redacted_request_query
    eggreplay.Matching.Normalize.redacted_body_json_paths
    eggreplay.Matching.Normalize.redacted_body_form_keys eggreplay.Matching.Normalize.stripped
    eggreplay.Matching.Normalize.filter_query eggreplay.Matching.Body.body_matches_lazy
    eggreplay.Matching.Body.body_match eggreplay.Matching.Body.body_match_with_json
    eggreplay.Matching.Body.try_form_wildcard eggreplay.Matching.Types.strict_matcher
    eggreplay.Matching.Types.new_matcher eggreplay.Matching.Types.new_candidate
    eggreplay.Matching.Session.new_session eggreplay.Matching.Session.is_available
    eggreplay.Matching.Session.consume eggreplay.Prelude.list_beq eggreplay.Prelude.pair_beq
    eggreplay.Prelude.option_beq eggreplay.Prelude.contains eggreplay.BTree.compare_bytes
    eggreplay.BTree.get eggreplay.BTree.insert eggreplay.BTree.contains eggreplay.BTree.add
    eggreplay.BTree.extend eggreplay.Bytes.to_lower eggreplay.Bytes.lowercase
    eggreplay.Bytes.strip_prefix eggreplay.Flow.header_beq eggreplay.Flow.query_beq
pin_served = refl

pin_repeated :
    select crates matcher users [] ConsumptionMode.repeat_last recorded pinned
    ≡ (matched 0, consume pinned 0 ConsumptionMode.repeat_last)
unfolding eggreplay.Matching.Select.select eggreplay.Matching.Select.select_with_loader
    eggreplay.Matching.Select.scan eggreplay.Matching.Select.finish
    eggreplay.Matching.Select.sort_near eggreplay.Matching.Select.insert_near
    eggreplay.Matching.Select.key_le eggreplay.Matching.Select.note
    eggreplay.Matching.Select.differing eggreplay.Matching.Normalize.normalize
    eggreplay.Matching.Normalize.normalize_headers eggreplay.Matching.Normalize.normalize_loop
    eggreplay.Matching.Normalize.push_value eggreplay.Matching.Normalize.redacted_request_headers
    eggreplay.Matching.Normalize.redacted_request_query
    eggreplay.Matching.Normalize.redacted_body_json_paths
    eggreplay.Matching.Normalize.redacted_body_form_keys eggreplay.Matching.Normalize.stripped
    eggreplay.Matching.Normalize.filter_query eggreplay.Matching.Body.body_matches_lazy
    eggreplay.Matching.Body.body_match eggreplay.Matching.Body.body_match_with_json
    eggreplay.Matching.Body.try_form_wildcard eggreplay.Matching.Types.strict_matcher
    eggreplay.Matching.Types.new_matcher eggreplay.Matching.Types.new_candidate
    eggreplay.Matching.Session.new_session eggreplay.Matching.Session.is_available
    eggreplay.Matching.Session.consume eggreplay.Prelude.list_beq eggreplay.Prelude.pair_beq
    eggreplay.Prelude.option_beq eggreplay.Prelude.contains eggreplay.BTree.compare_bytes
    eggreplay.BTree.get eggreplay.BTree.insert eggreplay.BTree.contains eggreplay.BTree.add
    eggreplay.BTree.extend eggreplay.Bytes.to_lower eggreplay.Bytes.lowercase
    eggreplay.Bytes.strip_prefix eggreplay.Flow.header_beq eggreplay.Flow.query_beq
pin_repeated = refl

-- A pinned session does not serve the recording of another request.
other_refused : select crates matcher orders [] ConsumptionMode.repeat_last recorded pinned ≡ (
  exhausted (report 0 (MatchDimension.path ∷ []) ∷ report 1 (MatchDimension.path ∷ []) ∷ []),
  pinned,
)
unfolding eggreplay.Matching.Select.select eggreplay.Matching.Select.select_with_loader
    eggreplay.Matching.Select.scan eggreplay.Matching.Select.finish
    eggreplay.Matching.Select.sort_near eggreplay.Matching.Select.insert_near
    eggreplay.Matching.Select.key_le eggreplay.Matching.Select.note
    eggreplay.Matching.Select.differing eggreplay.Matching.Normalize.normalize
    eggreplay.Matching.Normalize.normalize_headers eggreplay.Matching.Normalize.normalize_loop
    eggreplay.Matching.Normalize.push_value eggreplay.Matching.Normalize.redacted_request_headers
    eggreplay.Matching.Normalize.redacted_request_query
    eggreplay.Matching.Normalize.redacted_body_json_paths
    eggreplay.Matching.Normalize.redacted_body_form_keys eggreplay.Matching.Normalize.stripped
    eggreplay.Matching.Normalize.filter_query eggreplay.Matching.Body.body_matches_lazy
    eggreplay.Matching.Body.body_match eggreplay.Matching.Body.body_match_with_json
    eggreplay.Matching.Body.try_form_wildcard eggreplay.Matching.Types.strict_matcher
    eggreplay.Matching.Types.new_matcher eggreplay.Matching.Types.new_candidate
    eggreplay.Matching.Session.new_session eggreplay.Matching.Session.is_available
    eggreplay.Matching.Session.consume eggreplay.Prelude.list_beq eggreplay.Prelude.pair_beq
    eggreplay.Prelude.option_beq eggreplay.Prelude.contains eggreplay.BTree.compare_bytes
    eggreplay.BTree.get eggreplay.BTree.insert eggreplay.BTree.contains eggreplay.BTree.add
    eggreplay.BTree.extend eggreplay.Bytes.to_lower eggreplay.Bytes.lowercase
    eggreplay.Bytes.strip_prefix eggreplay.Flow.header_beq eggreplay.Flow.query_beq
other_refused = refl

repeat_last-AllSame_example : AllSame (0 ∷ 0 ∷ [])
repeat_last-AllSame_example = repeat_last-AllSame crates matcher recorded (
    serve users [] 0
      (refuse orders [] _ (serve users [] 0 (start refl) pin_served) (inr other_refused))
      pin_repeated)
