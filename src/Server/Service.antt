-- ===== src/Server/Service.antt =====
-- The server as a whole: every request is answered once, is at most one call of the application, and
-- so keeps what the application keeps.
use golang_fin.Prelude.{
  String, ◌≡◌, refl, Bool, true, false, List, [], ◌∷◌, length, arith, ◌⊎◌, inl, inr, ap, ◌∙◌, subst,
}
use golang_fin.Std.Json.{JsonSyntax}
use golang_fin.StorageData.{StorageIpData}
use golang_fin.Exec.{Env}
use golang_fin.Interfaces.Listing.{IsListing}
use golang_fin.App.Service.{App, Stores, application}
use golang_fin.App.Service.Disjoint.{Op, perform, IsDisjoint, perform-IsDisjoint, shrunk-IsDisjoint}
use golang_fin.Server.{HttpRequest, Served}
use golang_fin.Server.Routes.{routes, open_response, log_served, handler, serve_http}
use golang_fin.Server.Requests.{handler-Outcome}

module _ {S B : Type 0} (syntax : JsonSyntax) (a : App S B) where
  module _ (broken : Bool) (path : String) (r : HttpRequest) (e : Env (Stores S B)) where
    abbrev handled : Env (Served (Stores S B))
    handled = (handler syntax (application a) (routes path) r (open_response broken e)).1

    serve_http-handled :
        ((serve_http syntax (application a) broken path r e).0.written
          ≡ handled.state.writer.written)
        × ((serve_http syntax (application a) broken path r e).1.state ≡ handled.state.app)
    unfolding serve_http log_served
    serve_http-handled = (ground arith, ground arith)

    -- A request changes the stores as one call of the application does, or not at all, whether its
    -- connection holds or not.
    pub serve_http-step :
        ((serve_http syntax (application a) broken path r e).1.state ≡ e.state)
        ⊎ ((op : Op) × ((serve_http syntax (application a) broken path r e).1.state
              ≡ (perform a r.ctx op e).state))
    serve_http-step = elim (handler-Outcome syntax a (routes path) r (open_response broken e)).0 [
      | inl same ↦ inl (serve_http-handled.1 ∙ same)
      | inr (op, stepped) ↦ inr (op, serve_http-handled.1 ∙ stepped)
    ]

  -- Every request whose connection holds gets one answer, whatever its path, method and body are.
  pub length-serve_http :
      (path : String) (r : HttpRequest) (e : Env (Stores S B))
      → length (serve_http syntax (application a) false path r e).0.written ≡ 1
  length-serve_http path r e =
      ap length (serve_http-handled false path r e).0
      ∙ (handler-Outcome syntax a (routes path) r (open_response false e)).1.1 refl

-- A request as it arrives: whether its connection is lost, its path, and the rest.
abbrev pub Arrival : Type 0
Arrival = Bool × String × HttpRequest

module _ {S B : Type 0} (syntax : JsonSyntax) (a : App S B) where
  -- The server works on requests one after another.
  unfoldable pub serve_all : List Arrival → Env (Stores S B) → Env (Stores S B)
  serve_all [] e = e
  serve_all ((broken, path, r) ∷ rs) e =
      serve_all rs (serve_http syntax (application a) broken path r e).1

  module _ (same : StorageIpData → StorageIpData → Bool) (holds : S → String → StorageIpData → Bool)
      (laws : IsListing a.storage same holds) where
    served-IsDisjoint :
        (broken : Bool) (path : String) (r : HttpRequest) (e : Env (Stores S B))
        → IsDisjoint a same holds laws e
        → IsDisjoint a same holds laws (serve_http syntax (application a) broken path r e).1
    served-IsDisjoint broken path r e h = elim (serve_http-step syntax a broken path r e) [
      | inl kept ↦
          shrunk-IsDisjoint a same holds laws e _
            (λ name d w. subst (λ (s : Stores S B). holds s.storage name d ≡ true) kept w) h
      | inr (op, stepped) ↦
          shrunk-IsDisjoint a same holds laws (perform a r.ctx op e) _
            (λ name d w. subst (λ (s : Stores S B). holds s.storage name d ≡ true) stepped w)
            (perform-IsDisjoint a same holds laws r.ctx op e h)
    ]

    -- Lists with no entry in common have none in common after any sequence of requests, whatever
    -- their paths, methods and bodies are.
    pub serve_all-IsDisjoint :
        (rs : List Arrival) (e : Env (Stores S B))
        → IsDisjoint a same holds laws e
        → IsDisjoint a same holds laws (serve_all rs e)
    unfolding serve_all
    serve_all-IsDisjoint [] e h = h
    serve_all-IsDisjoint ((broken, path, r) ∷ rs) e h =
        serve_all-IsDisjoint rs (serve_http syntax (application a) broken path r e).1
          (served-IsDisjoint broken path r e h)
