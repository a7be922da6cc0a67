-- ===== src/Scenario/Render.antt =====
-- `render`: explicit `{{name}}` substitution.
use eggreplay.Prelude.{
  Bool, Message, Option, Result, [], about_text, drop, err, false, length, ltb, none, ok, ok_or,
  reject_if, some, suc, text, true, zero, ℕ, ◌&&◌, ◌++◌, ◌==◌, ◌∷◌, nat_eq, list_eq, option_eq,
  pair_eq, ◌>>◌, ◌>>=◌,
}
use eggreplay.BTree
use eggreplay.BTree.{BTreeMap}
use eggreplay.Bytes.{Bytes}
use eggreplay.Scenario.Types.{max_template_bytes}
use eggreplay.Scenario.Validate.{validate_name}

starts_with_byte_twice : ℕ → Bytes → Bool
starts_with_byte_twice b (c ∷ d ∷ s) = c == b && d == b
starts_with_byte_twice b _ = false

-- `find("{{")` and `find("}}")` with the slices that are made of the result: what stands before the
-- first occurrence of a doubled byte, and what stands after it.
unfoldable pub split_at_double : ℕ → Bytes → Option (Bytes × Bytes)
unfolding starts_with_byte_twice
split_at_double b [] = none
split_at_double b (c ∷ s) = elim (starts_with_byte_twice b (c ∷ s)) [
  | true ↦ some ([], drop 1 s)
  | false ↦ elim (split_at_double b s) [
    | none ↦ none
    | some (before, after) ↦ some (c ∷ before, after)
  ]
]

-- The value of the variable that a text begins with, and what follows its closing braces.
unfoldable pub substitution : BTreeMap Bytes → Bytes → Result (Bytes × Bytes) Message
substitution variables rest = do
  split ← ok_or (split_at_double b'}' rest) (text "unterminated scenario variable")
  validate_name split.0 "template variable"
  value ← ok_or (BTree.get variables split.0) (about_text "scenario variable is missing" split.0)
  ok (value, split.1)

abbrev oversized : Bytes → Result (Unit {0}) Message
oversized output =
    reject_if (ltb max_template_bytes (length output))
      (text "rendered scenario template exceeds configured limit")

-- The end of a round, past the substitution: on to the next, unless the output is too long. `none` is
-- a lack of fuel.
unfoldable pub go_on :
    (Bytes → Bytes → Option (Result Bytes Message))
    → Bytes
    → Result (Bytes × Bytes) Message
    → Option (Result Bytes Message)
go_on next output (err e) = some (err e)
go_on next output (ok (value, after)) = elim (ltb max_template_bytes (length (output ++ value))) [
  | true ↦ some (err (text "rendered scenario template exceeds configured limit"))
  | false ↦ next (output ++ value) after
]

-- One round of the loop, on what `find("{{")` gives.
unfoldable pub round :
    (Bytes → Bytes → Option (Result Bytes Message))
    → BTreeMap Bytes
    → Bytes
    → Bytes
    → Option (Bytes × Bytes)
    → Option (Result Bytes Message)
unfolding go_on
round next variables output rest none = some (do oversized (output ++ rest); ok (output ++ rest))
round next variables output rest (some (before, inside)) =
    go_on next (output ++ before) (substitution variables inside)

-- The loop, on fuel.
unfoldable pub render_loop : ℕ → BTreeMap Bytes → Bytes → Bytes → Option (Result Bytes Message)
unfolding round substitution
render_loop zero variables output rest = none
render_loop (suc fuel) variables output rest =
    round (render_loop fuel variables) variables output rest (split_at_double b'{' rest)

-- `render`. Each round consumes at least four bytes, so the fuel lasts; the fallback is never used.
unfoldable pub render : Bytes → BTreeMap Bytes → Result Bytes Message
render template variables = do
  reject_if (ltb max_template_bytes (length template))
      (text "scenario template exceeds configured limit")
  elim (render_loop (suc (length template)) variables [] template) [
    | none ↦ err (text "out of fuel")
    | some r ↦ r
  ]
