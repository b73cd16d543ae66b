-- ===== src/Core/Request.antt =====
-- src/core/request.hpp and src/core/request.cpp. `Environment` is what the program reads of
-- fastcgi++'s record of the request; its maps are association lists.
use obmc_webapp.Prelude.{
  String, Bool, true, false, not, ◌&&◌, ◌||◌, Option, none, some, List, str_eq,
}
use obmc_webapp.Service.Session.User.{UserSession}

pub record Environment : Type 0 where
  pub others : List (String × String)
  pub cookies : List (String × String)
  -- `requestMethod == RequestMethod::GET`
  pub method_is_get : Bool
  pub authorization : String
  pub user_agent : String
  pub content_type : String
  pub request_uri : String
  pub post_buffer : String

pub record Request : Type 0 where
  pub environment : Environment
  pub user_session : Option UserSession

-- `allowedContentTypes.contains`
is_allowed : String → Bool
is_allowed type = str_eq type "application/json" || str_eq type "text/plain"

unfoldable pub validate : Request → Bool
unfolding is_allowed
validate r = not (str_eq r.environment.content_type "") && is_allowed r.environment.content_type

unfoldable pub set_session : Option UserSession → Request → Request
set_session instance' r = record r { user_session = instance' }

unfoldable pub is_session_empty : Request → Bool
is_session_empty r = elim r.user_session [ none ↦ true | some _ ↦ false ]
