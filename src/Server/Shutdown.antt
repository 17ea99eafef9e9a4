-- ===== src/Server/Shutdown.antt =====
-- internal/server/http/server.go: the order of a `Shutdown`, and where it ends.
use golang_fin.Prelude.{◌≡◌, arith, List, [], ◌∷◌, String, ◌⧺◌, ◌⊎◌, inl, inr}
use golang_fin.Errors.{GoError, Result, ok, err, error_text}
use golang_fin.StorageData.{Context}
use golang_fin.Exec.{Exec, Env, info, error, Result-cases}
use golang_fin.Interfaces.{Application}
use golang_fin.Std.Json.{JsonSyntax}
use golang_fin.Server.Routes.{shutdown}

-- Steps that are carried out one after another, each in the state that the one before has left, up to
-- the first that fails: its error is logged behind the text that stands with it, and returned. If
-- none fails, the end is logged.
abbrev pub EndsAfter :
    {S : Type 0} → List (String × Exec S Unit) → Env S → Result Unit × Env S → Type 0
EndsAfter [] e out = out ≡ (
  ok tt,
  record { state = e.state; log = record { level = info; msg = "AntiBF is stopped" } ∷ e.log },
)
EndsAfter ((text, m) ∷ steps) e out =
    (((m e).0 ≡ ok tt) × EndsAfter steps (m e).1 out)
    ⊎ ((x : GoError) × ((m e).0 ≡ err x)
        × (out ≡ (
          err x,
          record {
            state = (m e).1.state;
            log = record { level = error; msg = text ⧺ error_text x } ∷ (m e).1.log;
          },
        )))

module _ {S : Type 0} (syntax : JsonSyntax) (app : Application S)
    (stop_server : Context → Exec S Unit) (ctx : Context) where
  -- `Shutdown` stops the HTTP server, then closes the storage, then the bucket storage, each in the
  -- state that the step before has left. The first error ends it, is logged and returned, and the
  -- later steps are left out; without an error it ends with the message about it.
  pub shutdown-EndsAfter :
      (e : Env S)
      → EndsAfter
          (("Server failed to shutdown: ", stop_server ctx)
            ∷ ("Server failed to close storage: ", app.close_storage ctx)
            ∷ ("Server failed to close bucket storage: ", app.close_bucket_storage ctx)
            ∷ [])
          e
          (shutdown syntax app stop_server ctx e)
  unfolding shutdown
  shutdown-EndsAfter e = elim (Result-cases (stop_server ctx e).0) [
    | inr (x, q) ↦ inr (x, q, ground (arith, q))
    | inl (u, q) ↦ inl (
      q,
      elim (Result-cases (app.close_storage ctx (stop_server ctx e).1).0) [
        | inr (y, r) ↦ inr (y, r, ground (arith, q, r))
        | inl (v, r) ↦ inl (
          r,
          elim (Result-cases
              (app.close_bucket_storage ctx (app.close_storage ctx (stop_server ctx e).1).1).0) [
                | inr (z, t) ↦ inr (z, t, ground (arith, q, r, t))
                | inl (w, t) ↦ inl (t, ground (arith, q, r, t))
              ],
        )
      ],
    )
  ]
