-- ===== src/SteamSession/Polled.antt =====
-- A login with a device code ends with the tokens that the poll gives.
use steamstacks.Prelude.{ℕ, zero, suc, ◌+◌, ◌<◌, ◌≡◌, true, false, List, none, some, ok, ◌∙◌, arith}
use steamstacks.SteamCommunity.Texts.{Text}
use steamstacks.SteamSession.{
  Session, Api, PollResponse, device_code, allows, start_with_credentials, submit_steam_guard_code,
  with_tokens, poll_loop, login_with_device_code,
}

module _ (api : Api) (t : Session) (k : ℕ) where
  -- The polls before the k-th fail, and the context does not end behind them.
  pub record Waits : Type 0 where
    pub fails : (n : ℕ) → n < k → api.poll_auth_session_status t.client_id t.request_id n ≡ none
    pub runs : (n : ℕ) → n < k → api.ended n ≡ false

  poll_hit :
      (fuel n : ℕ) (r : PollResponse)
      → api.poll_auth_session_status t.client_id t.request_id n ≡ some r
      → poll_loop api (suc fuel) n t ≡ with_tokens api t r
  unfolding poll_loop
  poll_hit fuel n r e = rw (poll_loop, e)

  poll_miss :
      (fuel n : ℕ)
      → api.poll_auth_session_status t.client_id t.request_id n ≡ none
      → api.ended n ≡ false
      → poll_loop api (suc fuel) n t ≡ poll_loop api fuel (suc n) t
  unfolding poll_loop
  poll_miss fuel n e f = rw (poll_loop, e, f)

  poll_loop-some :
      (d fuel n : ℕ) (r : PollResponse)
      → Waits
      → d + n ≡ k
      → d < fuel
      → api.poll_auth_session_status t.client_id t.request_id k ≡ some r
      → poll_loop api fuel n t ≡ with_tokens api t r
  poll_loop-some d zero n r h e f p = absurd (omega arith)
  poll_loop-some zero (suc fuel) n r h e f p =
      let now : n ≡ k = omega (arith, e) in poll_hit fuel n r (rw now p)
  poll_loop-some (suc d) (suc fuel) n r h e f p =
      poll_miss fuel n (h.fails n (omega arith)) (h.runs n (omega arith))
      ∙ poll_loop-some d fuel (suc n) r h (omega arith) (omega arith) p

  with_tokens_both :
      (r : PollResponse) (a b : Text)
      → r.access_token ≡ some a
      → r.refresh_token ≡ some b
      → with_tokens api t r ≡ ok (record t { access_token = a; refresh_token = b })
  unfolding with_tokens
  with_tokens_both r a b e f = rw (e, f)

  -- A login whose start succeeds and allows a device code, whose code is accepted, and of whose
  -- polls the first k fail with the context alive while the next gives both tokens, succeeds: the
  -- session is the one that was started, with those tokens. k + 1 polls are enough.
  pub login_with_device_code-ok :
      (fuel : ℕ) (username password code : Text) (s : Session) (types : List ℕ) (r : PollResponse)
      (a b : Text)
      → start_with_credentials api username password s ≡ ok (types, t)
      → allows device_code types ≡ true
      → api.update_auth_session t.client_id t.steam_id code device_code ≡ true
      → Waits
      → api.poll_auth_session_status t.client_id t.request_id k ≡ some r
      → r.access_token ≡ some a
      → r.refresh_token ≡ some b
      → k < fuel
      → login_with_device_code api fuel username password code s
        ≡ ok (record t { access_token = a; refresh_token = b })
  unfolding login_with_device_code submit_steam_guard_code
  login_with_device_code-ok fuel username password code s types r a b begins allowed accepted h p e
        f enough =
      rw (
        begins,
        allowed,
        accepted,
        poll_loop-some k fuel 0 r h (omega arith) enough p,
        with_tokens_both r a b e f,
      )
