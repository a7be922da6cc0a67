-- ===== src/Tests/Security.antt =====
-- The theorems on redaction at concrete inputs.
use eggreplay.Security.Reconciled.{survives, reconcile_headers_lem}
use eggreplay.Security.Headers.{reconcile_headers}
use eggreplay.Flow.{HeaderEntry}
use eggreplay.Security.Wildcards.{differing-redact_flow}
use eggreplay.Bytes.{codes, decimal}
use eggreplay.Matching.Types.{strict_matcher, CandidateBody}
use eggreplay.Security.Secrecy.{IsRedacted, redact_flow-IsRedacted}
use eggreplay.Matching.Select.{differing}
use eggreplay.Security.Redact.{RedactionConfig, redact_flow, default_secure}
use eggreplay.Prelude.{[], ◌∷◌, ◌≡◌, List, retain, ◌++◌}
use eggreplay.Tests.Fixtures.{users, flow_of}

abbrev by_query : RedactionConfig
by_query = record default_secure { query_keys = codes "page" ∷ [] }

differing-redact_flow_example :
    differing (strict_matcher 2) users (record {
      flow = redact_flow (flow_of users) by_query (codes "default");
      body = CandidateBody.empty;
      request_body = [];
    })
    ≡ []
differing-redact_flow_example =
    differing-redact_flow (strict_matcher 2) (flow_of users) by_query (codes "default")
      CandidateBody.empty []

redact_flow-IsRedacted_example :
    IsRedacted by_query (flow_of users) (redact_flow (flow_of users) by_query (codes "default"))
redact_flow-IsRedacted_example = redact_flow-IsRedacted (flow_of users) by_query (codes "default")

abbrev changed_body : List HeaderEntry
changed_body =
    record { name = codes "Digest"; value = codes "sha-256=x" }
    ∷ record { name = codes "Content-Length"; value = codes "10" }
    ∷ record { name = codes "Accept"; value = codes "text/plain" }
    ∷ []

reconcile_headers_lem_example :
    (reconcile_headers changed_body 23 (codes "default")).headers
    ≡ retain survives changed_body
      ++ (record { name = codes "content-length"; value = decimal 23 } ∷ [])
reconcile_headers_lem_example = reconcile_headers_lem changed_body 23 (codes "default")
