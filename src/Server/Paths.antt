-- ===== src/Server/Paths.antt =====
-- Where the paths of the server lead, and where those lead that the client of cmd/cli uses.
use golang_fin.Prelude.{String, code, ◌≡◌, refl, ap, Bool, true, ◌&&◌, ◌==◌, ◌⧺◌, if◌then◌else◌}
use text.Mathlib.TextLemmas.{cons-append, nil-append}
use golang_fin.Server.Routes.{
  Handler, hello, request, login_reset, address_reset, white_list, black_list, has_prefix, routes,
}

-- Whether a text is a prefix of another one that goes on with `s`.
below : String → String → String → Bool
below String.[] q s = true
below (String.◌∷◌ c p) String.[] s = has_prefix (String.◌∷◌ c p) s
below (String.◌∷◌ c p) (String.◌∷◌ d q) s = code c == code d && below p q s

has_prefix-append : (p q s : String) → has_prefix p (q ⧺ s) ≡ below p q s
unfolding has_prefix below
has_prefix-append String.[] q s = refl
has_prefix-append (String.◌∷◌ c p) String.[] s = ap (has_prefix (String.◌∷◌ c p)) (nil-append s)
has_prefix-append (String.◌∷◌ c p) (String.◌∷◌ d q) s =
    rw (cons-append d q s) (ap (λ (b : Bool). code c == code d && b) (has_prefix-append p q s))

roots : String → String → Handler
unfolding below
roots q s =
    if below "/request/" q s
    then request
    else if below "/clearLogin/" q s
    then login_reset
    else if below "/clearIP/" q s
    then address_reset
    else if below "/whitelist/" q s
    then white_list
    else if below "/blacklist/" q s
    then black_list
    else hello

routes-append : (q s : String) → routes (q ⧺ s) ≡ roots q s
unfolding routes roots
routes-append q s =
    rw
      (
        has_prefix-append "/request/" q s,
        has_prefix-append "/clearLogin/" q s,
        has_prefix-append "/clearIP/" q s,
        has_prefix-append "/whitelist/" q s,
        has_prefix-append "/blacklist/" q s,
      )
      refl

-- The paths below each registered root lead to its handler; those below /clearIp/, which the client
-- sends the address of a bucket to, lead to the greeting.
pub routes_below :
    (s : String)
    → (routes ("/request/" ⧺ s) ≡ request)
      × (routes ("/clearLogin/" ⧺ s) ≡ login_reset)
      × (routes ("/clearIP/" ⧺ s) ≡ address_reset)
      × (routes ("/whitelist/" ⧺ s) ≡ white_list)
      × (routes ("/blacklist/" ⧺ s) ≡ black_list)
      × (routes ("/clearIp/" ⧺ s) ≡ hello)
unfolding roots
routes_below s = (
  routes-append "/request/" s,
  routes-append "/clearLogin/" s,
  routes-append "/clearIP/" s,
  routes-append "/whitelist/" s,
  routes-append "/blacklist/" s,
  routes-append "/clearIp/" s,
)
