-- ===== src/Exec.antt =====
-- Methods that change a state, write to the log and may return an error. What was written before an
-- error stays written. The log holds the newest entry first.
use golang_fin.Prelude.{arith, String, List, ◌∷◌, ◌≡◌, refl, subst, ap, ◌⊎◌, inl, inr}
use golang_fin.Errors.{GoError, Result, ok, err}

pub data Level : Type 0 where
  info error fatal : Level

pub record LogEntry : Type 0 where
  pub level : Level
  pub msg : String

abbrev pub Log : Type 0
Log = List LogEntry

pub record Env (S : Type 0) : Type 0 where
  pub state : S
  pub log : Log

abbrev pub Exec : Type 0 → Type 0 → Type 0
Exec S A = Env S → Result A × Env S

module _ {S A : Type 0} where
  abbrev pub pure : A → Exec S A
  pure a e = (ok a, e)

  abbrev pub fail : GoError → Exec S A
  fail x e = (err x, e)

  abbrev pub lift : Result A → Exec S A
  lift r e = (r, e)

  -- `if err != nil { …; return err }` with a handler that writes to the log
  abbrev on_result : Result A → (GoError → Exec S A) → Exec S A
  on_result (ok a) h e = (ok a, e)
  on_result (err x) h e = h x e

  abbrev pub catch : Exec S A → (GoError → Exec S A) → Exec S A
  catch m h e = let (r, e') = m e in on_result r h e'

-- `logger.Info` and `logger.Error`
abbrev pub log_info : {S : Type 0} → String → Exec S Unit
log_info msg e = (ok tt, record e { log = record { level = info; msg = msg } ∷ e.log })

abbrev pub log_error : {S : Type 0} → String → Exec S Unit
log_error msg e = (ok tt, record e { log = record { level = error; msg = msg } ∷ e.log })

module _ {S A B : Type 0} where
  abbrev continue : Result A → (A → Exec S B) → Exec S B
  continue (ok a) f e = f a e
  continue (err x) f e = (err x, e)

  infixl 5 ◌>>=◌ ◌>>◌
  abbrev pub ◌>>=◌ : Exec S A → (A → Exec S B) → Exec S B
  ◌>>=◌ m f e = let (r, e') = m e in continue r f e'

  abbrev pub ◌>>◌ : Exec S A → Exec S B → Exec S B
  m >> n = m >>= λ _. n

-- `logger.Error(message); return …, err`
abbrev pub log_fail : {S A : Type 0} → String → GoError → Exec S A
log_fail msg x = log_error msg >> fail x

-- `logger.Fatal(message)`, which ends the program
abbrev pub log_fatal : {S A : Type 0} → String → GoError → Exec S A
log_fatal msg x e = (err x, record e { log = record { level = fatal; msg = msg } ∷ e.log })

-- A component's method, run in a state that holds the component.
module _ {S T A : Type 0} (get : S → T) (put : S → T → S) where
  abbrev pub zoom : Exec T A → Exec S A
  zoom m e =
      let (r, t) = m (record { state = get e.state; log = e.log }) in
      (r, record { state = put e.state t.state; log = t.log })

-- To split on a result and keep the equation.
pub Result-cases :
    {A : Type 0} (r : Result A) → ((a : A) × (r ≡ ok a)) ⊎ ((x : GoError) × (r ≡ err x))
Result-cases (ok a) = inl (a, refl)
Result-cases (err x) = inr (x, refl)

pub ok-inj : {A : Type 0} (a b : A) → ok a ≡ ok b → a ≡ b
ok-inj a b h = ground (arith, h)

-- What comes before a result of `m >>= f`.
pub bind-ok :
    {S A B : Type 0} (m : Exec S A) (f : A → Exec S B) (e : Env S) (b : B)
    → ((m >>= f) e).0 ≡ ok b
    → (a : A) × ((m e).0 ≡ ok a) × ((f a (m e).1).0 ≡ ok b)
bind-ok m f e b h = elim (Result-cases (m e).0) [
  | inr (x, q) ↦ ground (arith, q, h)
  | inl (a, q) ↦ (a, q, subst (λ r. (continue r f (m e).1).0 ≡ ok b) q h)
]

-- A failure of `m >>= f` is one of `m`, or of what comes after its result.
pub bind-err :
    {S A B : Type 0} (m : Exec S A) (f : A → Exec S B) (e : Env S) (x : GoError)
    → ((m >>= f) e).0 ≡ err x
    → ((m e).0 ≡ err x) ⊎ ((a : A) × ((m e).0 ≡ ok a) × ((f a (m e).1).0 ≡ err x))
bind-err m f e x h = elim (Result-cases (m e).0) [
  | inl (a, q) ↦ inr (a, q, subst (λ r. (continue r f (m e).1).0 ≡ err x) q h)
  | inr (y, q) ↦ inl (ground (arith, q, h))
]

-- After a result `m >>= f` goes on with `f`.
pub bind-goes_on :
    {S A B : Type 0} (m : Exec S A) (f : A → Exec S B) (e : Env S) (a : A)
    → (m e).0 ≡ ok a
    → (m >>= f) e ≡ f a (m e).1
bind-goes_on m f e a q = ap (λ r. continue r f (m e).1) q
