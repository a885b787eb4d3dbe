-- ===== src/Session/Errors.antt =====
-- What the answers make of the session: those that are errors, and those that come late.
use mathlib.Core.Path.{subst}
use mozza.Prelude.{
  ◌≡◌, ◌⊎◌, inl, inr, refl, sym, ap, ◌∙◌, Bool, true, false, not, ◌&&◌, ◌||◌, Option, none, some,
  List, [], ◌∷◌, arith, filter, Bool-cases,
}
use mozza.Interview.Combo.{or_else}
use mozza.Session.{
  Response, Fetched, refused, answered, RequestFailure, network, api, no_json, returned, thrown,
  parsed, is_ok, request, User, Auth, first_auth, Call, restore, login, register, logout,
  refresh_user, handle_answer, handle_answers,
}

abbrev pub is_restore : Call → Bool
is_restore restore = true
is_restore _ = false

-- What an answer carries: a user, for a call that signs in. Its status is from 200 to 299, and its text is
-- JSON.
abbrev user_in : Bool → Option User → Option User
user_in true json = json
user_in false json = none

abbrev pub carried : Fetched User → Option User
carried (refused message) = none
carried (answered r) = user_in (is_ok r.status) r.json

abbrev is_there : Option User → Bool
is_there none = false
is_there (some u) = true

-- An answer that leaves a trace: it carries something, or it is that of the first call.
abbrev pub counts : Call × Fetched User → Bool
counts (call, answer) = is_restore call || is_there (carried answer)

abbrev cons_user : Option User → List User → List User
cons_user none us = us
cons_user (some u) us = u ∷ us

-- The user that an answer signs in: that to `logout` signs out, whatever it carries.
abbrev signed_in : Call → Option User → Option User
signed_in logout o = none
signed_in call o = o

-- The users that the server has answered with to a call that signs in.
abbrev pub carried_by : List (Call × Fetched User) → List User
carried_by [] = []
carried_by ((call, answer) ∷ rest) = cons_user (signed_in call (carried answer)) (carried_by rest)

abbrev pub Among : User → List User → Type 0
Among u [] = ⊥
Among u (v ∷ vs) = (u ≡ v) ⊎ Among u vs

-- Nobody is signed in, or one of the users.
abbrev pub IsOneOf : Option User → List User → Type 0
IsOneOf none us = Unit
IsOneOf (some u) us = Among u us

-- What `request` makes of an answer that carries a user, and of one that carries none.
abbrev Agrees : Fetched User → Option User → Type 0
Agrees answer none = (f : RequestFailure) × (request answer ≡ thrown f)
Agrees answer (some u) = request answer ≡ returned u

parsed-Agrees :
    (answer : Fetched User) (o : Option User) → request answer ≡ parsed o → Agrees answer o
parsed-Agrees answer none h = (no_json, h)
parsed-Agrees answer (some u) h = h

answered-Agrees :
    (r : Response User) (good : Bool)
    → is_ok r.status ≡ good
    → Agrees (answered r) (user_in good r.json)
unfolding request
answered-Agrees r true h = parsed-Agrees (answered r) r.json (rw h refl)
answered-Agrees r false h = (api r.status (or_else r.error r.status_text), rw h refl)

request-Agrees : (answer : Fetched User) → Agrees answer (carried answer)
unfolding request
request-Agrees (refused message) = (network message, refl)
request-Agrees (answered r) = answered-Agrees r (is_ok r.status) refl

-- The session after an answer: its user, and whether it is still loading.
abbrev user_next : Call → Option User → Option User → Option User
user_next restore none old = none
user_next call none old = old
user_next logout (some u) old = none
user_next call (some u) old = some u

abbrev loading_next : Call → Bool → Bool
loading_next restore old = false
loading_next call old = old

handle_answer_lem :
    (call : Call) (answer : Fetched User) (o : Option User) (a : Auth)
    → Agrees answer o
    → (handle_answer call answer a).0
      ≡ record { user = user_next call o a.user; loading = loading_next call a.loading }
unfolding handle_answer
handle_answer_lem restore answer none a (f, h) = rw (h, handle_answer) refl
handle_answer_lem login answer none a (f, h) = rw (h, handle_answer) refl
handle_answer_lem register answer none a (f, h) = rw (h, handle_answer) refl
handle_answer_lem logout answer none a (f, h) = rw (h, handle_answer) refl
handle_answer_lem refresh_user answer none a (f, h) = rw (h, handle_answer) refl
handle_answer_lem restore answer (some u) a h = rw (h, handle_answer) refl
handle_answer_lem login answer (some u) a h = rw (h, handle_answer) refl
handle_answer_lem register answer (some u) a h = rw (h, handle_answer) refl
handle_answer_lem logout answer (some u) a h = rw (h, handle_answer) refl
handle_answer_lem refresh_user answer (some u) a h = rw (h, handle_answer) refl

-- The session after an answer, in these terms.
abbrev next : Call → Option User → Auth → Auth
next call o a = record { user = user_next call o a.user; loading = loading_next call a.loading }

next_idle :
    (call : Call) (o : Option User) (a : Auth)
    → (is_restore call || is_there o) ≡ false
    → next call o a ≡ a
next_idle restore o a h = ground arith
next_idle call none a h = refl
next_idle call (some u) a h = ground arith

-- The user is that of before, or nobody, or one of some users.
abbrev HasUser : Option User → List User → Option User → Type 0
HasUser before us after = (after ≡ before) ⊎ IsOneOf after us

none-IsOneOf : (after : Option User) (us : List User) → after ≡ none → IsOneOf after us
none-IsOneOf none us e = tt
none-IsOneOf (some v) us e = cc

some-IsOneOf :
    (after : Option User) (u : User) (us : List User) → after ≡ some u → IsOneOf after (u ∷ us)
some-IsOneOf none u us e = tt
some-IsOneOf (some v) u us e = inl (cc)

IsOneOf-cons :
    (o after : Option User) (us : List User) → IsOneOf after us → IsOneOf after (cons_user o us)
IsOneOf-cons none after us h = h
IsOneOf-cons (some u) none us h = tt
IsOneOf-cons (some u) (some v) us h = inr h

-- What the first of some answers makes of it.
HasUser-next :
    (call : Call) (o before after : Option User) (us : List User)
    → HasUser (user_next call o before) us after
    → HasUser before (cons_user (signed_in call o) us) after
HasUser-next call o before after us (inr g) = inr (IsOneOf-cons (signed_in call o) after us g)
HasUser-next restore none before after us (inl e) = inr (none-IsOneOf after us e)
HasUser-next call none before after us (inl e) = inl e
HasUser-next logout (some u) before after us (inl e) = inr (none-IsOneOf after us e)
HasUser-next call (some u) before after us (inl e) = inr (some-IsOneOf after u us e)

user-handle_answers :
    (answers : List (Call × Fetched User)) (a : Auth)
    → HasUser a.user (carried_by answers) (handle_answers answers a).user
user-handle_answers [] a = inl refl
user-handle_answers ((call, answer) ∷ rest) a =
    let e = handle_answer_lem call answer (carried answer) a (request-Agrees answer) in
    HasUser-next call (carried answer) a.user
      (handle_answers rest (handle_answer call answer a).0).user (carried_by rest)
      (subst
        (λ b.
          HasUser b (carried_by rest) (handle_answers rest (handle_answer call answer a).0).user)
        (ap (λ b. b.user) e) (user-handle_answers rest (handle_answer call answer a).0))

-- Whether the first call is among those answered.
abbrev pub has_restore : List (Call × Fetched User) → Bool
has_restore [] = false
has_restore ((call, answer) ∷ rest) = is_restore call || has_restore rest

loading-loading_next :
    (call : Call) (l r : Bool) → (loading_next call l && not r) ≡ (l && not (is_restore call || r))
loading-loading_next call l r = ground arith

loading-handle_answers :
    (answers : List (Call × Fetched User)) (a : Auth)
    → (handle_answers answers a).loading ≡ (a.loading && not (has_restore answers))
loading-handle_answers [] a = ground arith
loading-handle_answers ((call, answer) ∷ rest) a =
    loading-handle_answers rest (handle_answer call answer a).0
    ∙ ap (λ b. b.loading && not (has_restore rest))
        (handle_answer_lem call answer (carried answer) a (request-Agrees answer))
    ∙ loading-loading_next call a.loading (has_restore rest)

handle_answers-filter :
    (answers : List (Call × Fetched User)) (a : Auth)
    → handle_answers (filter counts answers) a ≡ handle_answers answers a
handle_answers-filter [] a = refl
handle_answers-filter ((call, answer) ∷ rest) a = elim (Bool-cases (counts (call, answer))) [
  | inl y ↦ rw y (handle_answers-filter rest (handle_answer call answer a).0)
  | inr n ↦ rw n (
      handle_answers-filter rest a
      ∙ ap (handle_answers rest) (
          sym (
            handle_answer_lem call answer (carried answer) a (request-Agrees answer)
            ∙ next_idle call (carried answer) a n)))
]

-- However many calls are answered, in whatever order, once the page has opened: the answers that carry no
-- value, be it that the server does not answer, that the status is no success, or that the text is no JSON,
-- leave no trace in the session, those to the first call apart; whoever is signed in is a user whom an answer
-- carried to a call other than `logout`; and the session is loading until the first call is answered, with or
-- without a user.
pub handle_answers_lem :
    (answers : List (Call × Fetched User))
    → (handle_answers (filter counts answers) first_auth ≡ handle_answers answers first_auth)
      × IsOneOf (handle_answers answers first_auth).user (carried_by answers)
      × ((handle_answers answers first_auth).loading ≡ not (has_restore answers))
handle_answers_lem answers = (
  handle_answers-filter answers first_auth,
  elim (user-handle_answers answers first_auth) [
    | inl e ↦ none-IsOneOf (handle_answers answers first_auth).user (carried_by answers) e
    | inr g ↦ g
  ],
  loading-handle_answers answers first_auth,
)

request-ok :
    {T : Type 0} (r : Response T) (v : T)
    → is_ok r.status ≡ true
    → r.json ≡ some v
    → request (answered r) ≡ returned v
unfolding request
request-ok r v good read = rw (good, read) refl

answer-login :
    (answer : Fetched User) (u : User) (a : Auth)
    → request answer ≡ returned u
    → handle_answer login answer a ≡ (record a { user = some u }, none)
unfolding handle_answer
answer-login answer u a h = rw (h, handle_answer) refl

-- The first call may be answered after the user has signed in: if that answer is an error, the user is
-- shown as signed out, although signing in threw no error.
pub late_restore :
    (r : Response User) (u : User) (late : Response User) (a : Auth)
    → is_ok r.status ≡ true
    → r.json ≡ some u
    → is_ok late.status ≡ false
    → ((handle_answer login (answered r) a).1 ≡ none)
      × ((handle_answers ((login, answered r) ∷ (restore, answered late) ∷ []) a).user ≡ none)
late_restore r u late a good read bad = (
  ap (λ p. p.1) (answer-login (answered r) u a (request-ok r u good read)),
  ap (λ b. b.user)
      (handle_answer_lem restore (answered late) none (handle_answer login (answered r) a).0
        (answered-Agrees late false bad)),
)
