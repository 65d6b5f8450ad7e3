-- ===== src/Problem.antt =====
-- internal/util/util.go: the problem details that the handlers answer with.
use Prim.Native.String.{String}
use free5gc_udr.Base.{ℕ, ◌==◌, if◌then◌else◌}

-- models.ProblemDetails, with the fields that the repository sets.
pub record ProblemDetails : Type 0 where
  pub title : String
  pub status : ℕ
  pub detail : String
  pub cause : String

unfoldable pub system_failure : String → ProblemDetails
system_failure detail = record {
  title = "System failure";
  status = 500;
  detail = detail;
  cause = "SYSTEM_FAILURE";
}

unfoldable pub malformed_req_syntax : String → ProblemDetails
malformed_req_syntax detail = record {
  title = "Malformed request syntax";
  status = 400;
  detail = detail;
  cause = "";
}

not_found_title : String → String
not_found_title cause =
    if cause == "USER_NOT_FOUND"
    then "User not found"
    else if cause == "SUBSCRIPTION_NOT_FOUND"
    then "Subscription not found"
    else if cause == "AMFSUBSCRIPTION_NOT_FOUND"
    then "AMF Subscription not found"
    else "Data not found"

unfoldable pub not_found : String → ProblemDetails
unfolding not_found_title
not_found cause = record { title = not_found_title cause; status = 404; detail = ""; cause = cause }

unfoldable pub modify_not_allowed : String → ProblemDetails
modify_not_allowed detail = record {
  title = "Modify not allowed";
  status = 403;
  detail = detail;
  cause = "MODIFY_NOT_ALLOWED";
}

unfoldable pub unspecified : String → ProblemDetails
unspecified detail = record {
  title = "Unspecified";
  status = 403;
  detail = detail;
  cause = "UNSPECIFIED";
}

-- The title that util.EmptyUeIdProblemJson names MALFORMED_REQUEST.
abbrev pub malformed_request : String
malformed_request = "Malformed request syntax"
