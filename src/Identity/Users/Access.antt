-- ===== src/Identity/Users/Access.antt =====
-- The check of a scope over whole requests.
use termin_server.Base.{true, Option, some, Text, one_of, ◌≡◌, arith}
use termin_server.Identity.{RolesToScopes, Principal, Provider}
use termin_server.Identity.Bypass.{IsDeclared, resolve-AllDeclared}
use termin_server.Identity.Users.{Context, Cookies, User, get_current_user, require_scope}
use termin_server.Preferences.{Database}

require_scope-one_of :
    (scope : Text) (user user' : User)
    → require_scope scope user ≡ some user'
    → one_of scope user.scopes ≡ true
unfolding require_scope
require_scope-one_of scope user user' h = ground arith

-- A request passes the check of a scope only where the source declares a role that holds the scope,
-- whatever the cookies, the identity provider and the database do.
pub require_scope-IsDeclared :
    (lower : Text → Text) (make_anonymous_principal : Option Text → Principal)
    (connect : Text → Option Database) (roles : RolesToScopes) (provider : Provider) (app_id : Text)
    (ctx : Option Context) (cookies : Cookies) (scope : Text) (user : User)
    → require_scope scope
        (get_current_user lower make_anonymous_principal connect roles provider app_id ctx cookies)
      ≡ some user
    → IsDeclared roles scope
unfolding get_current_user
require_scope-IsDeclared lower make connect roles provider app_id ctx cookies scope user h =
    resolve-AllDeclared lower roles make cookies.termin_role cookies.termin_user_name provider
      app_id scope (require_scope-one_of scope _ user h)
