-- ===== src/Cli/Steps.antt =====
-- cmd/cli/cli.go: how the steps of a command go on after a result and after an error.
use golang_fin.Prelude.{String, ◌≡◌, ap, ◌∙◌}
use golang_fin.Errors.{ok, err, error_text, GoError}
use golang_fin.Exec.{Exec, Env}
use golang_fin.Cli.{reported, refuse}

module _ {N A : Type 0} (m : Exec N A) (next : A → Exec N String) (e : Env N) where
  pub reported-ok : (a : A) → (m e).0 ≡ ok a → reported m next e ≡ next a (m e).1
  unfolding reported
  reported-ok a q = rw (reported, q)

  pub reported-err :
      (x : GoError) → (m e).0 ≡ err x → reported m next e ≡ refuse (error_text x) (m e).1
  unfolding reported
  reported-err x q = rw (reported, q)

  -- The same for a step whose result and state are known
  pub reported-goes_on : (a : A) (e' : Env N) → m e ≡ (ok a, e') → reported m next e ≡ next a e'
  reported-goes_on a e' q = reported-ok a (ap (λ p. p.0) q) ∙ ap (λ p. next a p.1) q

  pub reported-refuses :
      (x : GoError) (e' : Env N) → m e ≡ (err x, e') → reported m next e ≡ refuse (error_text x) e'
  reported-refuses x e' q = reported-err x (ap (λ p. p.0) q) ∙ ap (λ p. refuse (error_text x) p.1) q
