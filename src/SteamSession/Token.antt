-- ===== src/SteamSession/Token.antt =====
-- steamsession/session.go: when a token expires.
use steamstacks.Prelude.{ℕ, zero, suc, Bool, true, false, [], ◌∷◌, Option, none, some, ltb, ◌==◌}
use steamstacks.Prelude.Ints.{ℤ, pos, negsuc}
use steamstacks.SteamCommunity.Texts.{Text}
use steamstacks.SteamSession.{Session}

-- Base64 and JSON at a token's payload: its `exp`, 0 where it is missing.
pub record TokenCodec : Type 0 where
  pub base64_decode : Text → Option Text
  pub expiry_claim : Text → Option ℤ

-- The text before the first dot, 46, and the text behind it.
unfoldable pub cut_dot : Text → Option (Text × Text)
cut_dot [] = none
cut_dot (r ∷ s) = elim (r == 46) [
  | true ↦ some ([], s)
  | false ↦ elim (cut_dot s) [ none ↦ none | some (before, after) ↦ some (r ∷ before, after) ]
]

abbrev nonzero : ℤ → Option ℤ
nonzero (pos zero) = none
nonzero (pos (suc n)) = some (pos (suc n))
nonzero (negsuc n) = some (negsuc n)

-- `jwtExpiry`: the second of three parts; none is an error.
unfoldable pub jwt_expiry : TokenCodec → Text → Option ℤ
jwt_expiry t token = elim (cut_dot token) [
  | none ↦ none
  | some (head, rest) ↦ elim (cut_dot rest) [
    | none ↦ none
    | some (payload, signature) ↦ elim (t.base64_decode payload) [
      | none ↦ none
      | some claims ↦ elim (t.expiry_claim claims) [ none ↦ none | some exp ↦ nonzero exp ]
    ]
  ]
]

abbrev before : ℕ → ℤ → Bool
before now (pos exp) = ltb now exp
before now (negsuc n) = false

-- `IsValidToken` at a time in seconds.
unfoldable pub is_valid_token : TokenCodec → ℕ → Session → Bool
is_valid_token t now s = elim s.refresh_token [
  | [] ↦ false
  | r ∷ rs ↦ elim (jwt_expiry t (r ∷ rs)) [ none ↦ false | some exp ↦ before now exp ]
]
