-- ===== src/Client/Grpc/Retry.antt =====
-- internal/client/grpcclient/client.go: the calls that `refreshInterceptor` makes.
use go_yandex_gophkeeper.Base.{
  String, List, [], ◌∷◌, ◌++◌, ◌≡◌, ◌⊎◌, ◌||◌, inl, inr, Result, ok, err, true, false, refl, arith,
  str_eq, Bool-cases, Bool,
}
use mathlib.Core.List.{append_assoc}
use go_yandex_gophkeeper.Client.Grpc.{
  Call, Client, Conn, Status, bearer, with_token, refresh_method, refresh_interceptor, first_try,
  after_first, second_try, renewed, invoke, is_unauthenticated,
}

abbrev pub first_call :
    {S Request : Type 0} → String → List String → Request → Client S Request → Call Request
first_call method headers request c = record {
  method = method;
  authorization = with_token c.cfg headers;
  request = request;
}

abbrev pub second_call : {Request : Type 0} → String → Request → String → Call Request
second_call method request token = record {
  method = method;
  authorization = bearer token ∷ [];
  request = request;
}

-- No refresh is tried: there is no refresh token, or the call is the refresh itself.
abbrev pub stays : {S Request : Type 0} → String → Client S Request → Bool
stays method c = str_eq c.cfg.refresh_token "" || str_eq method refresh_method

-- An answer after which nothing more is tried.
abbrev pub Final : {Reply : Type 0} → Bool → Result Status Reply → Type 0
Final stay (ok reply) = Unit
Final stay (err e) = (stay ≡ true) ⊎ (is_unauthenticated e.code ≡ false)

-- The client after the first answer.
abbrev asked :
    {S Request : Type 0} → String → List String → Request → Client S Request → S → Client S Request
asked method headers request c s = record c {
  server = s;
  calls = c.calls ++ first_call method headers request c ∷ [];
}

-- The refresh, for the request that carries the token.
abbrev pub refresh_call :
    {S Request : Type 0} → (String → Request) → Client S Request → Call Request
refresh_call ask c = first_call refresh_method [] (ask c.cfg.refresh_token) c

refreshes : (stay lost : Bool) → stay ≡ false → lost ≡ true → ¬ ((stay ≡ true) ⊎ (lost ≡ false))
refreshes stay lost h k = ground arith

module _ {S Request Reply : Type 0} ⦃conn : Conn S Request Reply⦄ where
  -- The course of a call whose first answer is `r1` and leaves the server in the state `s1`: the
  -- answer of the refresh, the calls that reach the server, the settings and the answer that comes
  -- back.
  pub data Course (method : String) (headers : List String) (request : Request)
      (c : Client S Request) (r1 : Result Status Reply) (s1 : S)
      : Result Status Reply × Client S Request → Type 0 where
    once :
        {p : Result Status Reply × Client S Request}
        → Final (stays method c) r1
        → p.0 ≡ r1
        → p.1.calls ≡ c.calls ++ first_call method headers request c ∷ []
        → p.1.cfg ≡ c.cfg
        → p.1.saved ≡ c.saved
        → Course method headers request c r1 s1 p
    not_refreshed :
        {p : Result Status Reply × Client S Request} (e : Status)
        → ¬ Final (stays method c) r1
        → (conn.invoke (refresh_call conn.refresh_request c) s1).0 ≡ err e
        → p.0 ≡ r1
        → p.1.calls
          ≡ c.calls
            ++ first_call method headers request c ∷ refresh_call conn.refresh_request c ∷ []
        → p.1.cfg ≡ c.cfg
        → p.1.saved ≡ c.saved
        → Course method headers request c r1 s1 p
    retried :
        {p : Result Status Reply × Client S Request} (reply : Reply)
        → ¬ Final (stays method c) r1
        → (conn.invoke (refresh_call conn.refresh_request c) s1).0 ≡ ok reply
        → p.0
          ≡ (conn.invoke
              (second_call method request (conn.access_token reply))
              (conn.invoke (refresh_call conn.refresh_request c) s1).1).0
        → p.1.calls
          ≡ c.calls
            ++ first_call method headers request c
              ∷ refresh_call conn.refresh_request c
              ∷ second_call method request (conn.access_token reply)
              ∷ []
        → p.1.cfg ≡ record c.cfg { access_token = conn.access_token reply }
        → p.1.saved ≡ p.1.cfg ∷ c.saved
        → Course method headers request c r1 s1 p

  module _ (method : String) (headers : List String) (request : Request)
      (c : Client S Request) where
    second-Course :
        (e : Status) (s : S) (r : Result Status Reply)
        → (conn.invoke (refresh_call conn.refresh_request c) s).0 ≡ r
        → ¬ ((stays method c ≡ true) ⊎ (is_unauthenticated e.code ≡ false))
        → Course method headers request c (err e) s (
            second_try method request e r (record c {
              server = (conn.invoke (refresh_call conn.refresh_request c) s).1;
              calls =
                  (c.calls ++ first_call method headers request c ∷ [])
                  ++ refresh_call conn.refresh_request c ∷ [];
            }))
    unfolding second_try renewed invoke
    second-Course e s (err e') a h = not_refreshed e' h a refl (append_assoc c.calls _ _) refl refl
    second-Course e s (ok reply) a h = retried reply h a refl (simp (append_assoc)) refl refl

    after-Course :
        (r1 : Result Status Reply) (s : S)
        → Course method headers request c r1 s
            (after_first method request r1 (asked method headers request c s))
    unfolding after_first first_try invoke
    after-Course (ok reply) s = once tt refl refl refl refl
    after-Course (err e) s = elim (Bool-cases (stays method c)) [
      | inl h ↦ rw (h, after_first) (once (inl h) refl refl refl refl)
      | inr h ↦ elim (Bool-cases (is_unauthenticated e.code)) [
        | inr k ↦ rw (h, k, after_first) (once (inr k) refl refl refl refl)
        | inl k ↦
            rw (h, k, after_first)
              (second-Course e s _ refl
                (refreshes (stays method c) (is_unauthenticated e.code) h k))
      ]
    ]

    -- A call reaches the server once, and its answer comes back, unless that answer is
    -- Unauthenticated, there is a refresh token and the call is not the refresh itself. Then one
    -- refresh is tried: if it fails the first answer comes back, and otherwise the new access token
    -- is kept and saved, the call is made once more with that token alone, and its second answer
    -- comes back.
    pub refresh_interceptor_lem :
        Course method headers request c
          (conn.invoke (first_call method headers request c) c.server).0
          (conn.invoke (first_call method headers request c) c.server).1
          (refresh_interceptor method headers request c)
    unfolding refresh_interceptor first_try invoke
    refresh_interceptor_lem = after-Course _ _
