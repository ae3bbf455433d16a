-- ===== src/Booter/Auth.antt =====
-- `OnUserConnect` and `parseJWT` of cmd/cable/booter.go, and the channels of a user in Redis, with
-- cmd/cable/cable_redis.go. Redis, the JWT library and the HTTP client are parameters; the statistics and the
-- log are left out.
use cable.Prelude.{
  ℕ, Bool, true, false, List, [], ◌∷◌, ◌++◌, Option, none, some, if◌then◌else◌, ◌==◌, ◌≡◌, ap,
  if_elim, refl,
}
use cable.Errors.{Error, Result, ok, err, panic}
use cable.GoMap.{Bytes, Bytes-discrete}
use cable.Packet.Types.{Identity, connect_accepted, connect_authfail}

-- `auth.Method`; `unknown` is any other string.
pub data Method : Type 0 where
  pass jwt static redis remote unknown : Method

pub record AuthConfig : Type 0 where
  pub method : Method
  pub secret : Bytes
  pub auth_url : Bytes
  pub auth_prefix : Bytes
  pub join_prefix : Bytes

-- The key that the key function of a JWT hands to the library: a Go string, or a slice of bytes.
pub data Key : Type 0 where
  text : Bytes → Key
  bytes : Bytes → Key

-- The libraries, over a state of the world. A call that fails returns nothing.
pub record Services (W : Type 0) : Type 0 where
  -- whether the header of a token names an HMAC method
  pub is_hmac : Bytes → Bool
  -- the claim `sub` of a token that is valid under a key, if it is a string
  pub verify : Bytes → Key → Option (Option Bytes)
  pub redis_get : Bytes → W → Option Bytes × W
  pub redis_hgetall : Bytes → W → Option (List (Bytes × Bytes)) × W
  pub redis_hset : Bytes → List (Bytes × Bytes) → W → Bool × W
  pub redis_hdel : Bytes → List Bytes → W → Bool × W
  -- the status code of a response
  pub http_get : Bytes → W → Option ℕ × W

-- `==` of strings.
unfoldable pub same : Bytes → Bytes → Bool
same a b = elim (Bytes-discrete a b) [ yes _ ↦ true | no _ ↦ false ]

unfoldable pub accept_if : Bool → ℕ
accept_if b = if b then connect_accepted else connect_authfail

unfoldable pub same_sub : Option Bytes → Bytes → Bool
same_sub none uid = false
same_sub (some sub) uid = same sub uid

unfoldable pub http_ok : ℕ
http_ok = 200

-- `?uid=` and `&pwd=`
unfoldable pub query : Bytes → Bytes → Bytes
query uid pwd = 63 ∷ 117 ∷ 105 ∷ 100 ∷ 61 ∷ [] ++ uid ++ 38 ∷ 112 ∷ 119 ∷ 100 ∷ 61 ∷ [] ++ pwd

-- `JoinKey`
unfoldable pub join_key : AuthConfig → Bytes → Bytes
join_key c uid = c.join_prefix ++ 58 ∷ [] ++ uid

module _ {W : Type 0} (s : Services W) where
  -- `parseJWT`
  unfoldable pub parse_jwt : Bytes → Bytes → Option (Option Bytes)
  parse_jwt token key = if s.is_hmac token then s.verify token (Key.text key) else none

  unfoldable pub jwt_code : Option (Option Bytes) → Bytes → ℕ
  jwt_code none uid = connect_authfail
  jwt_code (some sub) uid = accept_if (same_sub sub uid)

  unfoldable pub redis_code : Option Bytes → Bytes → ℕ
  redis_code none password = connect_authfail
  redis_code (some pwd) password = accept_if (same pwd password)

  unfoldable pub remote_code : Option ℕ → ℕ
  remote_code none = connect_authfail
  remote_code (some status) = accept_if (status == http_ok)

  -- `OnUserConnect`. The flag says whether there is a client for Redis; without one its `Get` panics.
  unfoldable pub on_user_connect : AuthConfig → Bool → Identity → W → Result ℕ × W
  on_user_connect c client id w = elim c.method [
    | pass ↦ (ok connect_accepted, w)
    | jwt ↦ (ok (jwt_code (parse_jwt id.password c.secret) id.user_id), w)
    | static ↦ (ok (accept_if (same id.password c.secret)), w)
    | redis ↦
        if client
        then (let (pwd, w') = s.redis_get (c.auth_prefix ++ id.user_id) w in
            (ok (redis_code pwd id.password), w'))
        else (panic, w)
    | remote ↦
        let (status, w') = s.http_get (c.auth_url ++ query id.user_id id.password) w in
        (ok (remote_code status), w')
    | unknown ↦ (ok connect_authfail, w)
  ]

  -- `ListChannels`, which is `GetUserChannels`.
  unfoldable pub list_channels : AuthConfig → Bool → Bytes → W → Result (List (Bytes × Bytes)) × W
  list_channels c client uid w =
      if client
      then (let (r, w') = s.redis_hgetall (join_key c uid) w in
          (elim r [ none ↦ err (Error.foreign false) | some m ↦ ok m ], w'))
      else (ok [], w)

  refused :
      (token key uid : Bytes)
      → s.verify token (Key.text key) ≡ none
      → jwt_code (parse_jwt token key) uid ≡ connect_authfail
  unfolding parse_jwt jwt_code
  refused token key uid e =
      if_elim (λ (o : Option (Option Bytes)). jwt_code o uid ≡ connect_authfail) (s.is_hmac token) _
        _ (λ _. rw (jwt_code, e) refl) (λ _. refl)

  -- Under the method `jwt` nobody is accepted, where the library verifies an HMAC token with a slice of
  -- bytes only.
  on_user_connect-jwt :
      (c : AuthConfig) (client : Bool) (id : Identity) (w : W)
      → ((token key : Bytes) → s.verify token (Key.text key) ≡ none)
      → c.method ≡ Method.jwt
      → on_user_connect c client id w ≡ (ok connect_authfail, w)
  unfolding on_user_connect
  on_user_connect-jwt c client id w law e =
      rw (on_user_connect, e)
        (ap (λ (n : ℕ). (ok n, w))
          (refused id.password c.secret id.user_id (law id.password c.secret)))
