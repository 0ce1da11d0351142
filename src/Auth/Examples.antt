-- ===== src/Auth/Examples.antt =====
-- A verifier of one token.
use minerals.Base.{String, ◌==◌, Option, none, some, [], ◌∷◌, if◌then◌else◌, ◌≡◌, refl, trim_space}
use minerals.Uuid.{Uuid}
use minerals.Auth.{Claims, after_prefix, bearer_token, served, user_from_claims, verified, auth}

abbrev claims : Claims
claims = record { subject = "ann"; email = "ann@example.org"; roles = "admin" ∷ [] }

abbrev verify : String → Option Claims
verify tok = if tok == "t1" then some claims else none

abbrev parse : String → Option Uuid
parse s = none

served_ann : auth parse (some verify) "BEARER  t1 " ≡ served (user_from_claims parse claims)
unfolding auth bearer_token after_prefix trim_space verified
served_ann = refl
