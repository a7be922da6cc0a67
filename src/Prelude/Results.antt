-- ===== src/Prelude/Results.antt =====
-- Rust's `Result<T, E>` with the `?` operator as bind, and the text of an error.
use Prim.Native.Nat.{ℕ}
use Prim.Native.String.{String}
use mathlib.Core.Path.{◌≡◌, refl, sym, subst}
use mathlib.Core.Logic.{◌⊎◌, inl, inr}
use mathlib.Core.Bool.{Bool, true, false}
use mathlib.Core.Option.{Option, none, some}
use mathlib.Core.List.{List}

pub data Result {ℓ} (A : Type ℓ) (E : Type 0) : Type ℓ where
  ok : A → Result A E
  err : E → Result A E

-- An error of type `String`: a fixed text, or a `format!` text with what it prints.
pub data Message : Type 0 where
  text : String → Message
  about_number : String → ℕ → Message
  about_text : String → List ℕ → Message

module _ {ℓ κ} {A : Type ℓ} {B : Type κ} {E : Type 0} where
  infixl 5 ◌>>=◌
  abbrev pub ◌>>=◌ : Result A E → (A → Result B E) → Result B E
  ok a >>= f = f a
  err e >>= f = err e

  pub bind-eq-ok :
      (m : Result A E) (f : A → Result B E) {b : B}
      → (m >>= f) ≡ ok b
      → (a : A) × (m ≡ ok a) × (f a ≡ ok b)
  bind-eq-ok (ok a) f h = (a, refl, h)
  bind-eq-ok (err e) f h = cc

infixl 5 ◌>>◌
abbrev pub ◌>>◌ {κ} : {B : Type κ} {E : Type 0} → Result (Unit {0}) E → Result B E → Result B E
m >> k = m >>= λ _. k

-- `if bad { return Err(e); }`
abbrev pub reject_if : {E : Type 0} → Bool → E → Result (Unit {0}) E
reject_if true e = err e
reject_if false e = ok tt

-- `option.ok_or(e)?`
abbrev pub ok_or {ℓ} : {A : Type ℓ} {E : Type 0} → Option A → E → Result A E
ok_or none e = err e
ok_or (some a) e = ok a

-- A guarded continuation succeeds only past its guard.
pub reject_if-eq-ok {κ} :
    {B : Type κ} {E : Type 0} (bad : Bool) (e : E) (k : Result B E) {b : B}
    → (reject_if bad e >> k) ≡ ok b
    → (bad ≡ false) × (k ≡ ok b)
reject_if-eq-ok true e k h = cc
reject_if-eq-ok false e k h = (refl, h)

pub then-eq-ok {κ} :
    {B : Type κ} {E : Type 0} (m : Result (Unit {0}) E) (k : Result B E) {b : B}
    → (m >> k) ≡ ok b
    → (m ≡ ok tt) × (k ≡ ok b)
then-eq-ok (ok tt) k h = (refl, h)
then-eq-ok (err e) k h = cc

pub ok-inj {ℓ} : {A : Type ℓ} {E : Type 0} {a b : A} → ◌≡◌ {A = Result A E} (ok a) (ok b) → a ≡ b
ok-inj h = cc h

pub Result-cases {ℓ} :
    {A : Type ℓ} {E : Type 0} (r : Result A E) → ((a : A) × (r ≡ ok a)) ⊎ ((e : E) × (r ≡ err e))
Result-cases (ok a) = inl (a, refl)
Result-cases (err e) = inr (e, refl)

pub ok_or-eq-ok {ℓ} :
    {A : Type ℓ} {E : Type 0} (o : Option A) (e : E) {a : A} → ok_or o e ≡ ok a → o ≡ some a
ok_or-eq-ok none e h = cc h
ok_or-eq-ok (some a) e h = cc h

pub some-inj {ℓ} : {A : Type ℓ} {a b : A} → ◌≡◌ {A = Option A} (some a) (some b) → a ≡ b
some-inj h = cc h

-- What follows a success may be replaced.
pub then-imp {κ μ} :
    {B : Type κ} {C : Type μ} {E : Type 0} (m : Result (Unit {0}) E) (k : Result B E)
    (k' : Result C E) {b : B} {c : C}
    → (k ≡ ok b → k' ≡ ok c)
    → (m >> k) ≡ ok b
    → (m >> k') ≡ ok c
then-imp (ok u) k k' f h = f h
then-imp (err e) k k' f h = absurd (cc h)

-- So may a guard that does not hold.
pub reject_if-imp {κ μ} :
    {B : Type κ} {C : Type μ} {E : Type 0} (a b : Bool) (e : E) (k : Result B E) (k' : Result C E)
    {x : B} {y : C}
    → (a ≡ false → b ≡ false)
    → (k ≡ ok x → k' ≡ ok y)
    → (reject_if a e >> k) ≡ ok x
    → (reject_if b e >> k') ≡ ok y
reject_if-imp true b e k k' g f h = absurd (cc h)
reject_if-imp false true e k k' g f h = absurd (cc (g refl))
reject_if-imp false false e k k' g f h = f h

pub bind-imp {ℓ κ μ} :
    {A : Type ℓ} {B : Type κ} {C : Type μ} {E : Type 0} (m m' : Result A E) (f : A → Result B E)
    (g : A → Result C E) {b : B} {c : C}
    → ((a : A) → m ≡ ok a → m' ≡ ok a)
    → ((a : A) → m ≡ ok a → f a ≡ ok b → g a ≡ ok c)
    → (m >>= f) ≡ ok b
    → (m' >>= g) ≡ ok c
bind-imp (err e) m' f g same next h = absurd (cc h)
bind-imp (ok a) (err e) f g same next h = absurd (cc (same a refl))
bind-imp (ok a) (ok a') f g {b} {c} same next h =
    subst (λ x. g x ≡ ok c) (ok-inj (sym (same a refl))) (next a refl h)

-- A sequence succeeds when each of its parts does.
pub then-intro {κ} :
    {B : Type κ} {E : Type 0} (m : Result (Unit {0}) E) (k : Result B E) {b : B}
    → m ≡ ok tt
    → k ≡ ok b
    → (m >> k) ≡ ok b
then-intro (ok u) k h g = g
then-intro (err e) k h g = absurd (cc h)

pub reject_if-intro {κ} :
    {B : Type κ} (a : Bool) {E : Type 0} (e : E) (k : Result B E) {b : B}
    → a ≡ false
    → k ≡ ok b
    → (reject_if a e >> k) ≡ ok b
reject_if-intro true e k h g = absurd (cc h)
reject_if-intro false e k h g = g

pub bind-intro {ℓ κ} :
    {A : Type ℓ} {B : Type κ} {E : Type 0} (m : Result A E) (f : A → Result B E) {a : A} {b : B}
    → m ≡ ok a
    → f a ≡ ok b
    → (m >>= f) ≡ ok b
bind-intro (err e) f h g = absurd (cc h)
bind-intro (ok x) f {a} {b} h g = subst (λ y. f y ≡ ok b) (ok-inj (sym h)) g
