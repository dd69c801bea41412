-- ===== src/SteamCommunity/Http.antt =====
-- The answer to an HTTP request, as far as the package looks at it.
use steamstacks.Prelude.{ℕ, Option}
use steamstacks.SteamCommunity.Texts.{Text}

-- An answer whose body cannot be read has none.
pub record Answer : Type 0 where
  pub status : ℕ
  pub body : Option Text
