-- ===== src/Server/Steps.antt =====
-- What a request does to the server: it is answered once, and the application takes one step or none.
use golang_fin.Prelude.{
  ◌+◌, String, ◌≡◌, ◌∙◌, ap, false, [], ◌∷◌, length, length-append, arith, ◌⊎◌, inl, inr,
}
use golang_fin.Prelude.Int.{pos}
use golang_fin.Errors.{GoError, error_text, Result, ok, err}
use golang_fin.StorageData.{Context}
use golang_fin.Exec.{Exec, Env, ◌>>=◌}
use golang_fin.App.Service.{App, Stores}
use golang_fin.App.Service.Disjoint.{Op, perform}
use golang_fin.Server.{
  HttpRequest, OutputJson, Served, Payload, output_json, Writer, call_app, write, api_err_handler,
  answer,
}
use golang_fin.Server.Handlers.{call_and_report, reported, with_decoded, with_body}

-- One payload more, if the connection holds.
abbrev pub Answered : Writer → Writer → Type 0
Answered w w' =
    (w'.broken ≡ w.broken) × (w.broken ≡ false → length w'.written ≡ length w.written + 1)

module _ {S : Type 0} where
  -- An answer, and no step of the application.
  abbrev pub Fits : Env (Served S) → Env (Served S) → Type 0
  Fits e e' = (e'.state.app ≡ e.state.app) × Answered e.state.writer e'.state.writer

  pub api_err-Fits : (x : GoError) (e : Env (Served S)) → Fits e (api_err_handler x e).1
  unfolding api_err_handler
  api_err-Fits x e = (
    ground arith,
    (
      ground arith,
      λ h. ground (
        arith,
        length-append e.state.writer.written
            ((output_json (record { text = error_text x; code = pos 1 })) ∷ []),
      ),
    ),
  )

  pub write-Fits : (p : Payload) (e : Env (Served S)) → Fits e (write p e).1
  write-Fits p e = (
    ground arith,
    (ground arith, λ h. ground (arith, length-append e.state.writer.written (p ∷ []))),
  )

  pub answer-Fits : (p : Payload) (e : Env (Served S)) → Fits e (answer p e).1
  unfolding answer api_err_handler
  answer-Fits p e = (
    ground arith,
    (ground arith, λ h. ground (arith, length-append e.state.writer.written (p ∷ []))),
  )

  reported-Fits :
      {A : Type 0} (prefix : String) (good : A → OutputJson) (r : Result A)
      (make : OutputJson → Payload) (e : Env (Served S))
      → Fits e ((reported prefix good r >>= λ msg. answer (make msg)) e).1
  unfolding reported
  reported-Fits prefix good (ok a) make e = answer-Fits _ e
  reported-Fits prefix good (err x) make e = answer-Fits _ _

  -- After a call of the application nothing but the answer follows.
  called-Fits :
      {A : Type 0} (m : Exec S A) (next : Result A → Exec (Served S) Unit) (e : Env (Served S))
      → ((r : Result A) (e' : Env (Served S)) → Fits e' (next r e').1)
      → (((call_app m >>= next) e).1.state.app
          ≡ (m (record { state = e.state.app; log = e.log })).1.state)
        × Answered e.state.writer ((call_app m >>= next) e).1.state.writer
  called-Fits m next e fits =
      fits (m (record { state = e.state.app; log = e.log })).0 (call_app m e).1

module _ {S B : Type 0} (a : App S B) (ctx : Context) where
  abbrev inner : Env (Served (Stores S B)) → Env (Stores S B)
  inner e = record { state = e.state.app; log = e.log }

  -- The request is answered; no method of the application was called, or one.
  abbrev pub Outcome : Env (Served (Stores S B)) → Env (Served (Stores S B)) → Type 0
  Outcome e e' =
      ((e'.state.app ≡ e.state.app)
        ⊎ ((op : Op) × (e'.state.app ≡ (perform a ctx op (inner e)).state)))
      × Answered e.state.writer e'.state.writer

  pub refused-Outcome :
      (x : GoError) (e : Env (Served (Stores S B))) → Outcome e (api_err_handler x e).1
  refused-Outcome x e = let (same, once) = api_err-Fits x e in (inl same, once)

  pub called-Outcome :
      {A : Type 0} (op : Op) (m : Exec (Stores S B) A)
      (next : Result A → Exec (Served (Stores S B)) Unit) (e : Env (Served (Stores S B)))
      → (m (inner e)).1 ≡ perform a ctx op (inner e)
      → ((r : Result A) (e' : Env (Served (Stores S B))) → Fits e' (next r e').1)
      → Outcome e ((call_app m >>= next) e).1
  called-Outcome op m next e is_op fits =
      let (stepped, once) = called-Fits m next e fits in
      (inr (op, stepped ∙ ap (λ (o : Env (Stores S B)). o.state) is_op), once)

  pub report-Outcome :
      {A : Type 0} (op : Op) (m : Exec (Stores S B) A) (prefix : String) (good : A → OutputJson)
      (make : Result A → OutputJson → Payload) (e : Env (Served (Stores S B)))
      → (m (inner e)).1 ≡ perform a ctx op (inner e)
      → Outcome e (call_and_report m prefix good make e).1
  unfolding call_and_report
  report-Outcome op m prefix good make e is_op =
      called-Outcome op m
        (λ result. reported prefix good result >>= λ msg. answer (make result msg)) e is_op
        (λ result e'. reported-Fits prefix good result (make result) e')

  decoded-Outcome :
      {A : Type 0} (r : Result A) (next : A → Exec (Served (Stores S B)) Unit)
      (e : Env (Served (Stores S B)))
      → ((x : A) → Outcome e (next x e).1)
      → Outcome e (with_decoded r next e).1
  unfolding with_decoded
  decoded-Outcome (ok x) next e h = h x
  decoded-Outcome (err x) next e h = refused-Outcome x e

  pub body-Outcome :
      {A : Type 0} (r : HttpRequest) (decode : String → Result A)
      (next : A → Exec (Served (Stores S B)) Unit) (e : Env (Served (Stores S B)))
      → ((x : A) → Outcome e (next x e).1)
      → Outcome e (with_body r decode next e).1
  unfolding with_body
  body-Outcome r decode next e h =
      decoded-Outcome r.body _ e (λ body. decoded-Outcome (decode body) next e h)
