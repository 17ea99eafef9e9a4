-- ===== src/Server/Routes.antt =====
-- internal/server/http/routes.go, middle.go and server.go: the routes, the middleware around each
-- handler, and the order of a shutdown.
use golang_fin.Prelude.{
  String, code, Bool, true, false, ◌&&◌, List, [], ◌∷◌, ◌==◌, ◌=~◌, ◌⧺◌, if◌then◌else◌,
}
use golang_fin.Std.Json.{JsonSyntax}
use golang_fin.Errors.{ok, error_text}
use golang_fin.StorageData.{Context}
use golang_fin.Exec.{Exec, Env, catch, log_info, log_error, log_fail, ◌>>◌}
use golang_fin.Interfaces.{Application}
use golang_fin.Server.{HttpRequest, Served, Writer}
use golang_fin.Server.Handlers.{
  hello_world, authorization_request, clear_ip, clear_login, rest_white_list, rest_black_list,
}

pub data Handler : Type 0 where
  hello request login_reset address_reset white_list black_list : Handler

-- `strings.HasPrefix`
unfoldable pub has_prefix : String → String → Bool
has_prefix String.[] s = true
has_prefix (String.◌∷◌ c p) String.[] = false
has_prefix (String.◌∷◌ c p) (String.◌∷◌ d s) = code c == code d && has_prefix p s

-- The handler that the `ServeMux` of `routes` finds for a clean path that is not redirected: the
-- longest of the registered roots that the path lies below.
unfoldable pub routes : String → Handler
unfolding has_prefix
routes path =
    if has_prefix "/request/" path
    then request
    else if has_prefix "/clearLogin/" path
    then login_reset
    else if has_prefix "/clearIP/" path
    then address_reset
    else if has_prefix "/whitelist/" path
    then white_list
    else if has_prefix "/blacklist/" path
    then black_list
    else hello

abbrev first_header : List String → String
first_header [] = ""
first_header (value ∷ values) = value

module _ {S : Type 0} where
  -- What `loggingMiddleware` does after the handler; of the first entry, which describes the
  -- request, the text is kept.
  unfoldable pub log_served : Exec (Served S) Unit
  log_served = do log_info "http middle log"; log_error_header
    where
      log_error_header : Exec (Served S) Unit
      log_error_header e =
          let err_header = first_header e.state.writer.error_header in
          if err_header =~ ""
          then (ok tt, e)
          else log_error ("Error at middle logging: " ⧺ err_header) e

  -- `loggingMiddleware`
  unfoldable pub logging_middleware :
      (HttpRequest → Exec (Served S) Unit) → HttpRequest → Exec (Served S) Unit
  logging_middleware next r e = log_served (next r e).1

  -- A response before its handler, and the response and the state after it.
  abbrev pub open_response : Bool → Env S → Env (Served S)
  open_response broken e = record {
    state = record {
      app = e.state;
      writer = record { broken = broken; error_header = []; written = [] };
    };
    log = e.log;
  }

  abbrev pub close_response : Env (Served S) → Writer × Env S
  close_response e = (e.state.writer, record { state = e.state.app; log = e.log })

module _ {S : Type 0} (syntax : JsonSyntax) (app : Application S) where
  unfoldable pub handler : Handler → HttpRequest → Exec (Served S) Unit
  handler hello = hello_world
  handler request = authorization_request syntax app
  handler login_reset = clear_login syntax app
  handler address_reset = clear_ip syntax app
  handler white_list = rest_white_list syntax app
  handler black_list = rest_black_list syntax app

  -- A request to a path, answered with a new response.
  unfoldable pub serve_http : Bool → String → HttpRequest → Env S → Writer × Env S
  unfolding logging_middleware handler
  serve_http broken path r e =
      close_response (logging_middleware (handler (routes path)) r (open_response broken e)).1

  -- `Shutdown`; `stop_server` is `http.Server.Shutdown`, which waits for the requests that are being
  -- served, so that it changes the state as their handlers do.
  unfoldable pub shutdown : (Context → Exec S Unit) → Context → Exec S Unit
  shutdown stop_server ctx = do
    catch (stop_server ctx) (λ x. log_fail ("Server failed to shutdown: " ⧺ error_text x) x)
    catch (app.close_storage ctx)
        (λ x. log_fail ("Server failed to close storage: " ⧺ error_text x) x)
    catch (app.close_bucket_storage ctx)
        (λ x. log_fail ("Server failed to close bucket storage: " ⧺ error_text x) x)
    log_info "AntiBF is stopped"
