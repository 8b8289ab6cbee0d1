-- ===== src/Prelude/Results.antt =====
-- `std::result::Result`, `std::io::Error` and the signed integers that an error code is.
use Prim.Native.Nat.{ℕ, ◌+◌, ◌-◌, ◌≤◌}
use native.Mathlib.Omega.{arith}
use mathlib.Core.Path.{◌≡◌, refl}
use mathlib.Core.Bool.{Bool, true, false}
use mathlib.Core.Option.{Option, none, some}
use rust_subprocess.Prelude.Tests.{if◌then◌else◌, leb}

-- `negsuc n` is -(n + 1).
pub data ℤ : Type 0 where
  pos : ℕ → ℤ
  negsuc : ℕ → ℤ

-- `timed_out` is the error that the crate makes itself; `other` stands for every other kind.
pub data ErrorKind : Type 0 where
  timed_out : ErrorKind
  other : ℕ → ErrorKind

pub data IoError : Type 0 where
  os_error : ℤ → IoError
  simple : ErrorKind → IoError

abbrev pub raw_os_error : IoError → Option ℤ
raw_os_error (os_error code) = some code
raw_os_error (simple kind) = none

pub data Result {ℓ} (A E : Type ℓ) : Type ℓ where
  ok : A → Result A E
  err : E → Result A E

-- `result.unwrap_or(default)`
abbrev pub ok_or {ℓ} : {A E : Type ℓ} → Result A E → A → A
ok_or (ok a) d = a
ok_or (err e) d = d

infixl 5 ◌>>=◌ ◌>>◌
abbrev pub ◌>>=◌ {ℓ} : {A B E : Type ℓ} → Result A E → (A → Result B E) → Result B E
ok a >>= f = f a
err e >>= f = err e

abbrev pub ◌>>◌ {ℓ} : {A B E : Type ℓ} → Result A E → Result B E → Result B E
m >> k = m >>= λ _. k

-- How a run of code that may panic, or whose loops run on fuel, comes out.
pub data Run {ℓ} (A : Type ℓ) : Type ℓ where
  returned : A → Run A
  panicked : Run A
  unfinished : Run A

abbrev pub and_then {ℓ} : {A B : Type ℓ} → Run A → (A → Run B) → Run B
and_then (returned a) f = f a
and_then panicked f = panicked
and_then unfinished f = unfinished

-- `timeout.map(|t| Instant::now() + t)`, where `latest` is the last instant that can be represented:
-- the addition panics beyond it.
abbrev pub deadline_at : ℕ → ℕ → Option ℕ → Run (Option ℕ)
deadline_at latest now none = returned none
deadline_at latest now (some t) =
    if leb t (latest - now) then returned (some (now + t)) else panicked

-- The instant at which the timeout is over can be represented.
abbrev pub Fits : ℕ → ℕ → Option ℕ → Type 0
Fits latest now none = Unit
Fits latest now (some t) = t ≤ latest - now

abbrev pub over_at : ℕ → Option ℕ → Option ℕ
over_at now none = none
over_at now (some t) = some (now + t)

pub deadline_at-Fits :
    (latest now : ℕ) (timeout : Option ℕ)
    → Fits latest now timeout
    → deadline_at latest now timeout ≡ returned (over_at now timeout)
deadline_at-Fits latest now none h = refl
deadline_at-Fits latest now (some t) h = ground (arith, h)

-- The run ends, and without a panic.
abbrev pub Returns {ℓ} : {A : Type ℓ} → Run A → Type 0
Returns (returned a) = Unit
Returns panicked = ⊥
Returns unfinished = ⊥

-- `P` holds of what the run returns, if it returns.
abbrev pub Gives {ℓ} : {A : Type ℓ} → (A → Type 0) → Run A → Type 0
Gives P (returned a) = P a
Gives P panicked = Unit
Gives P unfinished = Unit

-- The run returns, and `P` holds of what it returns.
abbrev pub Delivers {ℓ} : {A : Type ℓ} → (A → Type 0) → Run A → Type 0
Delivers P (returned a) = P a
Delivers P panicked = ⊥
Delivers P unfinished = ⊥

pub Gives-Delivers {ℓ} :
    {A : Type ℓ} (P : A → Type 0) (r : Run A) → Gives P r → Returns r → Delivers P r
Gives-Delivers P (returned a) h e = h
Gives-Delivers P panicked h e = absurd e
Gives-Delivers P unfinished h e = absurd e

pub Gives-any {ℓ} : {A : Type ℓ} (r : Run A) → Gives (λ _. Unit) r
Gives-any (returned a) = tt
Gives-any panicked = tt
Gives-any unfinished = tt

pub Delivers-Returns {ℓ} : {A : Type ℓ} (P : A → Type 0) (r : Run A) → Delivers P r → Returns r
Delivers-Returns P (returned a) h = tt
Delivers-Returns P panicked h = absurd h
Delivers-Returns P unfinished h = absurd h

pub Delivers-map {ℓ} :
    {A : Type ℓ} (P Q : A → Type 0) (r : Run A)
    → Delivers P r
    → ((a : A) → P a → Q a)
    → Delivers Q r
Delivers-map P Q (returned a) h k = k a h
Delivers-map P Q panicked h k = absurd h
Delivers-map P Q unfinished h k = absurd h

pub Delivers-Gives {ℓ} :
    {A : Type ℓ} (P Q : A → Type 0) (r : Run A)
    → Delivers P r
    → Gives Q r
    → Delivers (λ a. P a × Q a) r
Delivers-Gives P Q (returned a) h k = (h, k)
Delivers-Gives P Q panicked h k = absurd h
Delivers-Gives P Q unfinished h k = absurd h

pub Gives-map {ℓ} :
    {A : Type ℓ} (P Q : A → Type 0) (r : Run A) → Gives P r → ((a : A) → P a → Q a) → Gives Q r
Gives-map P Q (returned a) h k = k a h
Gives-map P Q panicked h k = tt
Gives-map P Q unfinished h k = tt

module _ {ℓ} {A B : Type ℓ} (P : A → Type 0) (Q : B → Type 0) where
  pub and_then-Gives :
      (r : Run A) (f : A → Run B)
      → Gives P r
      → ((a : A) → P a → Gives Q (f a))
      → Gives Q (and_then r f)
  and_then-Gives (returned a) f h k = k a h
  and_then-Gives panicked f h k = tt
  and_then-Gives unfinished f h k = tt

  pub and_then-Delivers :
      (r : Run A) (f : A → Run B)
      → Delivers P r
      → ((a : A) → P a → Delivers Q (f a))
      → Delivers Q (and_then r f)
  and_then-Delivers (returned a) f h k = k a h
  and_then-Delivers panicked f h k = absurd h
  and_then-Delivers unfinished f h k = absurd h

module _ {ℓ} {A : Type ℓ} (P : A → Type 0) where
  pub Gives-if :
      (b : Bool) (x y : Run A)
      → (b ≡ true → Gives P x)
      → (b ≡ false → Gives P y)
      → Gives P (if b then x else y)
  Gives-if true x y h k = h refl
  Gives-if false x y h k = k refl
