-- ===== src/Scenario/Rendering.antt =====
-- Proofs about `render`.
use mathlib.Core.List.{append_assoc}
use eggreplay.Prelude.{
  [], none, some, ℕ, ◌++◌, ◌∷◌, ◌≡◌, Message, Option, Option-cases, Result, ap, arith, err, inl,
  inr, length, length-append, ok, suc, zero, ◌<◌, ◌≤◌, Bool-cases, ltb, ltb→le, refl, ◌∙◌, ◌≢◌,
  ==_iff, Bool, false, subst, sym, ◌&&◌, ◌==◌, ◌||◌, nat_eq, list_eq, option_eq, pair_eq,
}
use eggreplay.BTree
use eggreplay.BTree.{BTreeMap}
use eggreplay.Bytes.{Bytes}
use eggreplay.Scenario.Types.{max_template_bytes}
use eggreplay.Scenario.Render.{split_at_double, substitution, render_loop, render, round, go_on}

-- What a split says of the text: the two bytes stand between the parts, and do not occur before.
split_at_double_lem :
    (b : ℕ) (s before after : Bytes)
    → split_at_double b s ≡ some (before, after)
    → s ≡ before ++ b ∷ b ∷ after
unfolding split_at_double
split_at_double_lem b [] before after e = cc
split_at_double_lem b (c ∷ []) before after e = cc
split_at_double_lem b (c ∷ d ∷ s) before after e = elim (Option-cases (split_at_double b (d ∷ s))) [
  | inl missing ↦ ground arith
  | inr ((x, y), q) ↦ ground (arith, split_at_double_lem b (d ∷ s) x y q)
]

-- Whether a byte stands twice in a row.
unfoldable pub has_double : ℕ → Bytes → Bool
has_double b [] = false
has_double b (c ∷ []) = false
has_double b (c ∷ d ∷ s) = (c == b && d == b) || has_double b (d ∷ s)

-- Nothing is split where the byte does not stand twice in a row.
split_at_double-none : (b : ℕ) (s : Bytes) → split_at_double b s ≡ none → has_double b s ≡ false
unfolding split_at_double has_double
split_at_double-none b [] e = refl
split_at_double-none b (c ∷ []) e = refl
split_at_double-none b (c ∷ d ∷ s) e = ground (arith, split_at_double-none b (d ∷ s))

-- One more byte in front of the first part of a split.
has_double-front :
    (b c d : ℕ) (s x y : Bytes)
    → d ∷ s ≡ x ++ b ∷ b ∷ y
    → (c == b && d == b) ≡ false
    → has_double b (x ++ b ∷ []) ≡ false
    → has_double b (c ∷ (x ++ b ∷ [])) ≡ false
unfolding has_double
has_double-front b c d s [] y shape apart h = ground (arith, ==_iff d b, shape)
has_double-front b c d s (e ∷ x) y shape apart h =
    let same : d ≡ e = cc shape in
    let off : (c == b && e == b) ≡ false = cc (same, apart) in ground (arith, off, h)

-- A split is made at the first place.
split_at_double-first :
    (b : ℕ) (s before after : Bytes)
    → split_at_double b s ≡ some (before, after)
    → has_double b (before ++ b ∷ []) ≡ false
unfolding split_at_double has_double
split_at_double-first b [] before after e = cc
split_at_double-first b (c ∷ []) before after e = cc
split_at_double-first b (c ∷ d ∷ s) before after e = elim (Bool-cases (c == b && d == b)) [
  | inl here ↦
      let empty : before ≡ [] = ground arith in
      subst (λ l. has_double b (l ++ b ∷ []) ≡ false) (sym empty) refl
  | inr apart ↦ elim (Option-cases (split_at_double b (d ∷ s))) [
    | inl missing ↦ absurd (ground arith)
    | inr ((x, y), q) ↦
        let shape : before ≡ c ∷ x = ground arith in
        subst (λ l. has_double b (l ++ b ∷ []) ≡ false) (sym shape)
          (has_double-front b c d s x y (split_at_double_lem b (d ∷ s) x y q) apart
            (split_at_double-first b (d ∷ s) x y q))
  ]
]

-- A template with its variables replaced, in order: `Renders variables template output`.
pub data Renders (variables : BTreeMap Bytes) : Bytes → Bytes → Type 0 where
  plain :
      {template : Bytes} → has_double b'{' template ≡ false → Renders variables template template
  replaced :
      {template output : Bytes} (before name after value : Bytes)
      → template ≡ before ++ b'{' ∷ b'{' ∷ (name ++ b'}' ∷ b'}' ∷ after)
      → has_double b'{' (before ++ b'{' ∷ []) ≡ false
      → has_double b'}' (name ++ b'}' ∷ []) ≡ false
      → BTree.get variables name ≡ some value
      → Renders variables after output
      → Renders variables template (before ++ (value ++ output))

-- A split leaves less than it was given.
split_at_double-length :
    (b : ℕ) (s before after : Bytes)
    → split_at_double b s ≡ some (before, after)
    → length after < length s
split_at_double-length b s before after e = omega (
  arith,
  ap length (split_at_double_lem b s before after e),
  length-append before (b ∷ b ∷ after),
)

substitution_lem :
    (variables : BTreeMap Bytes) (rest value after : Bytes)
    → substitution variables rest ≡ ok (value, after)
    → (name : Bytes) × (rest ≡ name ++ b'}' ∷ b'}' ∷ after)
      × (has_double b'}' (name ++ b'}' ∷ []) ≡ false)
      × (BTree.get variables name ≡ some value)
unfolding substitution
substitution_lem variables rest value after e = elim (Option-cases (split_at_double b'}' rest)) [
  | inl missing ↦ absurd (ground arith)
  | inr ((name, tail), q) ↦ (
    name,
    ground (arith, split_at_double_lem b'}' rest name tail q),
    split_at_double-first b'}' rest name tail q,
    ground arith,
  )
]

-- What the loop returns, and the fuel that it needs: it always ends within the length of its text,
-- and a result is the output so far with the rest of the template rendered.
abbrev Loops : BTreeMap Bytes → Bytes → Bytes → Option (Result Bytes Message) → Type 0
Loops variables output rest none = ⊥
Loops variables output rest (some (err e)) = Unit
Loops variables output rest (some (ok result)) =
    (shown : Bytes) × Renders variables rest shown
    × (result ≡ output ++ shown)
    × (length result ≤ max_template_bytes)

module _ (variables : BTreeMap Bytes) (next : Bytes → Bytes → Option (Result Bytes Message))
    (fuel : ℕ)
    (later : (output rest : Bytes)
      → length rest < fuel
      → Loops variables output rest (next output rest)) where
  -- A result of the next round is one of this round, with what this round put before it.
  Loops-prepend :
      (output before name value after rest : Bytes) (r : Option (Result Bytes Message))
      → rest ≡ before ++ b'{' ∷ b'{' ∷ (name ++ b'}' ∷ b'}' ∷ after)
      → has_double b'{' (before ++ b'{' ∷ []) ≡ false
      → has_double b'}' (name ++ b'}' ∷ []) ≡ false
      → BTree.get variables name ≡ some value
      → Loops variables ((output ++ before) ++ value) after r
      → Loops variables output rest r
  Loops-prepend output before name value after rest none e opens closes g h = h
  Loops-prepend output before name value after rest (some (err x)) e opens closes g h = tt
  Loops-prepend output before name value after rest (some (ok result)) e opens closes g
        (shown, r, same, fits) =
      (
        before ++ (value ++ shown),
        replaced before name after value e opens closes g r,
        same ∙ simp append_assoc,
        fits,
      )

  go_on-Loops :
      (output before inside rest : Bytes) (r : Result (Bytes × Bytes) Message)
      → split_at_double b'{' rest ≡ some (before, inside)
      → length rest < suc fuel
      → substitution variables inside ≡ r
      → Loops variables output rest (go_on next (output ++ before) r)
  unfolding go_on
  go_on-Loops output before inside rest (err e) q h s = tt
  go_on-Loops output before inside rest (ok (value, after)) q h s =
      let (name, shape, closes, got) = substitution_lem variables inside value after s in
      let whole = split_at_double_lem b'{' rest before inside q in
      let smaller = split_at_double-length b'{' rest before inside q in
      let tail : length after < length inside =
        omega (arith, ap length shape, length-append name (b'}' ∷ b'}' ∷ after)) in
      elim (Bool-cases (ltb max_template_bytes (length ((output ++ before) ++ value)))) [
        | inl long ↦ rw (long, go_on) tt
        | inr fits ↦
            rw (fits, go_on)
              (Loops-prepend output before name value after rest _ (whole ∙ rw shape)
                (split_at_double-first b'{' rest before inside q) closes got
                (later ((output ++ before) ++ value) after (omega arith)))
      ]

  round-Loops :
      (output rest : Bytes) (split : Option (Bytes × Bytes))
      → length rest < suc fuel
      → split_at_double b'{' rest ≡ split
      → Loops variables output rest (round next variables output rest split)
  unfolding round
  round-Loops output rest none h q =
      elim (Bool-cases (ltb max_template_bytes (length (output ++ rest)))) [
        | inl long ↦ rw long tt
        | inr fits ↦ rw fits (rest, plain (split_at_double-none b'{' rest q), refl, ltb→le _ _ fits)
      ]
  round-Loops output rest (some (before, inside)) h q =
      go_on-Loops output before inside rest (substitution variables inside) q h refl

render_loop-Loops :
    (fuel : ℕ) (variables : BTreeMap Bytes) (output rest : Bytes)
    → length rest < fuel
    → Loops variables output rest (render_loop fuel variables output rest)
unfolding render_loop
render_loop-Loops zero variables output rest h = absurd (omega arith)
render_loop-Loops (suc fuel) variables output rest h =
    round-Loops variables (render_loop fuel variables) fuel (render_loop-Loops fuel variables)
      output rest (split_at_double b'{' rest) h refl

-- The loop ends within its fuel, whatever the template and the variables, so `render` never takes its
-- fallback.
pub render_loop-ne-none :
    (variables : BTreeMap Bytes) (template : Bytes)
    → render_loop (suc (length template)) variables [] template ≢ none
render_loop-ne-none variables template e =
    rw e at (render_loop-Loops (suc (length template)) variables [] template (omega arith))

-- A rendered text is the template with each placeholder replaced by the value of its variable, from
-- the first two braces that open one to the first two that close it, up to a rest that opens none;
-- values are not rendered again; neither the template nor the text exceeds the limit.
pub render-Renders :
    (template : Bytes) (variables : BTreeMap Bytes) {out : Bytes}
    → render template variables ≡ ok out
    → Renders variables template out
      × (length out ≤ max_template_bytes)
      × (length template ≤ max_template_bytes)
unfolding render
render-Renders template variables {out} e =
    let looped = render_loop-Loops (suc (length template)) variables [] template (omega arith) in
    elim (Option-cases (render_loop (suc (length template)) variables [] template)) [
      | inl missing ↦ absurd (render_loop-ne-none variables template missing)
      | inr (r, q) ↦
          let result : r ≡ ok out = ground arith in
          let (out', rendered, same, fits) = rw result at (rw q at looped) in
          (rw same rendered, fits, ground arith)
    ]
