-- ===== src/Session/Tests.antt =====
-- A user who signs in, and the theorems about the session at it.
use mozza.Prelude.{◌≡◌, refl, none, some, List, [], ◌∷◌, filter, not}
use mozza.Session.{
  Response, Fetched, refused, answered, User, first_auth, Call, login, refresh_user, handle_answer,
  handle_answers,
}
use mozza.Session.Errors.{counts, carried_by, IsOneOf, has_restore, handle_answers_lem}

abbrev ann : User
ann = record { id = "1"; email = "ann@example.org"; name = "Ann"; role = "admin" }

abbrev welcome : Response User
welcome = record { status = 200; status_text = "OK"; json = some ann; error = "" }

abbrev denied : Response User
denied = record { status = 401; status_text = "Unauthorized"; json = none; error = "" }

signed_in : (handle_answers ((login, answered welcome) ∷ []) first_auth).user ≡ some ann
unfolding handle_answer
signed_in = refl

abbrev some_answers : List (Call × Fetched User)
some_answers =
    (login, answered denied) ∷ (login, answered welcome) ∷ (refresh_user, refused "offline") ∷ []

handle_answers_lem_example :
    (handle_answers (filter counts some_answers) first_auth
      ≡ handle_answers some_answers first_auth)
    × IsOneOf (handle_answers some_answers first_auth).user (carried_by some_answers)
    × ((handle_answers some_answers first_auth).loading ≡ not (has_restore some_answers))
handle_answers_lem_example = handle_answers_lem some_answers
