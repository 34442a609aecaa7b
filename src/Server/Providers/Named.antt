-- ===== src/Server/Providers/Named.antt =====
-- Whom Supabase named (server/auth_providers.go).
use meemaw.Prelude.{
  ◌≡◌, ℕ, false, List, [], ◌∷◌, ◌++◌, arith, Str, str, is_empty, trim_suffix_slash, ==_iff, Outcome,
  ok, err, panic, >>=-eq-ok, guard-eq-ok, GoError, bad_request,
}
use meemaw.Encoding.Hex.{Bytes}
use meemaw.Server.Providers.{
  Web, HttpAnswer, as_bad_request, supabase_error, read_answer, user_of, supabase,
}

module _ {A : Type 0} where
  as_bad_request-ok : (m : Outcome A) (x : A) → as_bad_request m ≡ ok x → m ≡ ok x
  unfolding as_bad_request
  as_bad_request-ok (ok y) x h = h
  as_bad_request-ok (err e) x h = cc h
  as_bad_request-ok panic x h = cc h

read_answer-ok :
    (error : ℕ → GoError) (answer : HttpAnswer) (body : Bytes)
    → read_answer error answer ≡ ok body
    → (answer.status_code ≡ 200) × (answer.read_all ≡ ok body)
unfolding read_answer
read_answer-ok error answer body h = ground (arith, ==_iff answer.status_code 200)

module _ (web : Web) where
  -- Where a user id comes from.
  pub record NamedBySupabase (url key jwt id : Str) : Type 0 where
    pub answer : HttpAnswer
    pub body : Bytes
    pub asked :
        web.get
          (trim_suffix_slash url ++ str "/auth/v1/user")
          ((str "Authorization", str "Bearer " ++ jwt) ∷ (str "apikey", key) ∷ [])
        ≡ ok answer
    pub accepted : answer.status_code ≡ 200
    pub read : answer.read_all ≡ ok body
    pub decoded : web.unmarshal_user body ≡ ok id
    pub is_uuid : (u : Unit {0}) × (web.parse_uuid id ≡ ok u)
    pub not_empty : is_empty id ≡ false

  -- Supabase gives a user id only for a token that is not empty, and it is the id that the server at
  -- the configured address answered with, with status 200, to a request with that token; the id is
  -- not empty and is a UUID.
  pub supabase-NamedBySupabase :
      (url key jwt id : Str)
      → supabase web url key jwt ≡ ok id
      → (is_empty jwt ≡ false) × NamedBySupabase url key jwt id
  unfolding supabase user_of
  supabase-NamedBySupabase url key jwt id h =
      let (token, h1) = guard-eq-ok (is_empty jwt) bad_request _ h in
      let headers : List (Str × Str) =
        (str "Authorization", str "Bearer " ++ jwt) ∷ (str "apikey", key) ∷ [] in
      let (answer, ea, h2) =
        >>=-eq-ok (web.get (trim_suffix_slash url ++ str "/auth/v1/user") headers) _ h1 in
      let (body, eb, h3) = >>=-eq-ok (read_answer supabase_error answer) _ h2 in
      let (status, read) = read_answer-ok supabase_error answer body eb in
      let (id', ei, h4) = >>=-eq-ok (as_bad_request (web.unmarshal_user body)) _ h3 in
      let (not_empty, h5) = guard-eq-ok (is_empty id') bad_request _ h4 in
      let (u, eu, h6) = >>=-eq-ok (as_bad_request (web.parse_uuid id')) _ h5 in
      let same : id' ≡ id = cc h6 in
      (
        token,
        rw (← same) (record {
          answer = answer;
          body = body;
          asked = ea;
          accepted = status;
          read = read;
          decoded = as_bad_request-ok (web.unmarshal_user body) id' ei;
          is_uuid = (u, as_bad_request-ok (web.parse_uuid id') u eu);
          not_empty = not_empty;
        }),
      )
