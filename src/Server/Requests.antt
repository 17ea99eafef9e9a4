-- ===== src/Server/Requests.antt =====
-- What each handler does with a request: one answer, and at most one method of the application.
use golang_fin.Prelude.{String, refl, Bool, true, false, inl, ◌=~◌, if◌then◌else◌}
use golang_fin.Std.Json.{JsonSyntax}
use golang_fin.Errors.{Result, ok, err, method_unsupported, bad_bucket_type_tag}
use golang_fin.StorageData.{StorageIpData, Context}
use golang_fin.Exec.{Exec, Env}
use golang_fin.App.Service.{App, Stores, check_request, application}
use golang_fin.App.Service.Disjoint.{
  check, clear_login, clear_ip, add, remove, find, get_all, perform,
}
use golang_fin.Server.{HttpRequest, HttpMethod, get, post, delete, other, Served, plain}
use golang_fin.Server.Routes.{
  Handler, hello, request, login_reset, address_reset, white_list, black_list, handler,
}
use golang_fin.Server.Decode.{InputTag, unmarshal_request, unmarshal_ip_data, unmarshal_tag}
use golang_fin.Server.Handlers as Handlers
use golang_fin.Server.Steps.{
  Outcome, Fits, write-Fits, answer-Fits, report-Outcome, refused-Outcome, called-Outcome,
  body-Outcome,
}

module _ {S B : Type 0} (syntax : JsonSyntax) (a : App S B) where
  answered-Fits :
      (r : Result (Bool × String)) (e : Env (Served (Stores S B)))
      → Fits e (Handlers.authorization_answer syntax (application a) r e).1
  unfolding Handlers.authorization_answer
  answered-Fits (ok (passed, msg)) e = answer-Fits _ e
  answered-Fits (err x) e = answer-Fits _ _

  authorization-Outcome :
      (method : HttpMethod) (r : HttpRequest) (e : Env (Served (Stores S B)))
      → Outcome a r.ctx e (Handlers.authorization_switch syntax (application a) method r e).1
  unfolding Handlers.authorization_switch perform
  authorization-Outcome get r e = body-Outcome a r.ctx r (unmarshal_request syntax) _ e (λ q.
      called-Outcome a r.ctx (check q) (check_request a r.ctx q)
        (Handlers.authorization_answer syntax (application a)) e refl answered-Fits)
  authorization-Outcome post r e = refused-Outcome a r.ctx method_unsupported e
  authorization-Outcome delete r e = refused-Outcome a r.ctx method_unsupported e
  authorization-Outcome (other name) r e = refused-Outcome a r.ctx method_unsupported e

  either-Outcome :
      (ctx : Context) (b : Bool) (m n : Exec (Served (Stores S B)) Unit)
      (e : Env (Served (Stores S B)))
      → Outcome a ctx e (m e).1
      → Outcome a ctx e (n e).1
      → Outcome a ctx e ((if b then m else n) e).1
  either-Outcome ctx true m n e p q = p
  either-Outcome ctx false m n e p q = q

  bucket-Outcome :
      (r : HttpRequest) (tag_type : String) (input : InputTag) (e : Env (Served (Stores S B)))
      → Outcome a r.ctx e (Handlers.clear_bucket syntax (application a) r tag_type input e).1
  unfolding Handlers.clear_bucket perform
  bucket-Outcome r tag_type input e =
      either-Outcome r.ctx (tag_type =~ "login") _ _ e
        (report-Outcome a r.ctx (clear_login input.tag) _ _ _ _ e refl)
        (either-Outcome r.ctx (tag_type =~ "ip") _ _ e
          (report-Outcome a r.ctx (clear_ip input.tag) _ _ _ _ e refl)
          (refused-Outcome a r.ctx bad_bucket_type_tag e))

  clear-Outcome :
      (method : HttpMethod) (r : HttpRequest) (tag_type : String) (e : Env (Served (Stores S B)))
      → Outcome a r.ctx e (Handlers.clear_switch syntax (application a) method r tag_type e).1
  unfolding Handlers.clear_switch
  clear-Outcome delete r tag_type e =
      body-Outcome a r.ctx r (unmarshal_tag syntax) _ e (λ t. bucket-Outcome r tag_type t e)
  clear-Outcome get r tag_type e = refused-Outcome a r.ctx method_unsupported e
  clear-Outcome post r tag_type e = refused-Outcome a r.ctx method_unsupported e
  clear-Outcome (other name) r tag_type e = refused-Outcome a r.ctx method_unsupported e

  list_get-Outcome :
      (r : HttpRequest) (listname : String) (d : StorageIpData) (e : Env (Served (Stores S B)))
      → Outcome a r.ctx e (Handlers.list_get syntax (application a) r listname d e).1
  unfolding Handlers.list_get perform
  list_get-Outcome r listname d e =
      either-Outcome r.ctx (d.ip =~ "ALL") _ _ e
        (report-Outcome a r.ctx (get_all listname) _ _ _ _ e refl)
        (report-Outcome a r.ctx (find listname d) _ _ _ _ e refl)

  list-Outcome :
      (method : HttpMethod) (r : HttpRequest) (listname : String) (e : Env (Served (Stores S B)))
      → Outcome a r.ctx e (Handlers.list_switch syntax (application a) method r listname e).1
  unfolding Handlers.list_switch Handlers.list_post Handlers.list_delete perform
  list-Outcome get r listname e =
      body-Outcome a r.ctx r (unmarshal_ip_data syntax) _ e (λ d. list_get-Outcome r listname d e)
  list-Outcome post r listname e =
      body-Outcome a r.ctx r (unmarshal_ip_data syntax) _ e
        (λ d. report-Outcome a r.ctx (add listname d) _ _ _ _ e refl)
  list-Outcome delete r listname e =
      body-Outcome a r.ctx r (unmarshal_ip_data syntax) _ e
        (λ d. report-Outcome a r.ctx (remove listname d) _ _ _ _ e refl)
  list-Outcome (other name) r listname e = refused-Outcome a r.ctx method_unsupported e

  hello-Outcome :
      (r : HttpRequest) (e : Env (Served (Stores S B)))
      → Outcome a r.ctx e (Handlers.hello_world r e).1
  unfolding Handlers.hello_world
  hello-Outcome r e = let (same, once) = write-Fits (plain "Hello World") e in (inl same, once)

  pub handler-Outcome :
      (h : Handler) (r : HttpRequest) (e : Env (Served (Stores S B)))
      → Outcome a r.ctx e (handler syntax (application a) h r e).1
  unfolding handler Handlers.authorization_request Handlers.clear_bucket_by_tag Handlers.list_rest
      Handlers.clear_login Handlers.clear_ip Handlers.rest_white_list Handlers.rest_black_list
  handler-Outcome hello r e = hello-Outcome r e
  handler-Outcome request r e = authorization-Outcome r.method r e
  handler-Outcome login_reset r e = clear-Outcome r.method r "login" e
  handler-Outcome address_reset r e = clear-Outcome r.method r "ip" e
  handler-Outcome white_list r e = list-Outcome r.method r "whitelist" e
  handler-Outcome black_list r e = list-Outcome r.method r "blacklist" e
