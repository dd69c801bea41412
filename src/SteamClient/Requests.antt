-- ===== src/SteamClient/Requests.antt =====
-- What the client asks of the server, on top of the session: steamclient/friends.go,
-- steamclient/persona.go, steamclient/games.go, steamclient/auth.go and `SendGCMessage`.
pub mod Ignore
use steamstacks.Prelude.{
  ℕ, Bool, true, false, List, [], ◌∷◌, ◌++◌, map, Option, none, some, Result, ok, err, panic, stuck,
  ltb, ◌==◌, if◌then◌else◌, length,
}
use steamstacks.Prelude.Bytes.{Bytes, slice, put_le, get_le}
use steamstacks.SteamClient.Protocol.{get_default}
use steamstacks.SteamClient.Message.{Packet, or_fail}
use steamstacks.SteamClient.Gc.{GcMessage, GcError, gc_packet_body}
use steamstacks.SteamClient.Session.{CmClient, Channel, Services}
use steamstacks.SteamClient.Session.Send.{SendError, send_packet, send_non_proto_packet}
use steamstacks.SteamClient.Session.Run.{Run, commit, then_run}
use steamstacks.SteamClient.Session.Calls.{
  AwaitError, CallError, Case, expect_emsg, await_run, read_meanwhile, call_service_method,
}
use steamstacks.SteamClient.Session.Login.{keep}

-- `CMsgClientFriendMsg` and `CMsgClientChangeStatus`, with all their fields set.
pub record ClientFriendMsg : Type 0 where
  pub steamid : ℕ
  pub chat_entry_type : ℕ
  pub message : Bytes

pub record ClientChangeStatus : Type 0 where
  pub persona_state : ℕ
  pub persona_set_by_user : Bool

pub record ClientRequestFriendData : Type 0 where
  pub persona_state_requested : ℕ
  pub friends : List ℕ

pub record AccessTokenRequest : Type 0 where
  pub refresh_token : Bytes
  pub steamid : ℕ

-- Protobuf at the messages of the requests. A message with one field is that field; of
-- `CMsgClientAddFriendResponse` the package reads the result.
pub record RequestCodecs : Type 0 where
  pub add_friend : ℕ → Option Bytes
  pub add_friend_response : Bytes → Option (Option ℕ)
  pub remove_friend : ℕ → Option Bytes
  pub friend_msg : ClientFriendMsg → Option Bytes
  pub change_status : ClientChangeStatus → Option Bytes
  pub friend_data : ClientRequestFriendData → Option Bytes
  pub games_played : List ℕ → Option Bytes
  pub access_token : AccessTokenRequest → Option Bytes
  pub access_token_response : Bytes → Option (Bytes × Bytes)

pub data RequestError : Type 0 where
  marshal : RequestError
  send : SendError → RequestError
  wait : AwaitError → RequestError
  unmarshal : RequestError
  response_too_short : RequestError
  failed : ℕ → RequestError
  gc : GcError → RequestError
  service : CallError → RequestError

-- "Authentication.GenerateAccessTokenForApp#1"
abbrev pub access_token_method : Bytes
access_token_method =
    65
    ∷ (117
        ∷ (116
            ∷ (104
                ∷ (101
                    ∷ (110
                        ∷ (116
                            ∷ (105
                                ∷ (99
                                    ∷ (97
                                        ∷ (116
                                            ∷ (105
                                                ∷ (111
                                                    ∷ (110
                                                        ∷ (46
                                                            ∷ (71
                                                            ∷ (101
                                                            ∷ (110
                                                            ∷ (101
                                                            ∷ (114
                                                            ∷ (97
                                                            ∷ (116
                                                            ∷ (101
                                                            ∷ (65
                                                            ∷ (99
                                                            ∷ (99
                                                            ∷ (101
                                                            ∷ (115
                                                            ∷ (115
                                                            ∷ (84
                                                            ∷ (111
                                                            ∷ (107
                                                            ∷ (101
                                                            ∷ (110
                                                            ∷ (70
                                                            ∷ (111
                                                            ∷ (114
                                                            ∷ (65
                                                            ∷ (112 ∷ (112 ∷ (35 ∷ (49 ∷ ([])))))))))
                                                            )))))))))))))))))))))))))))))))))

-- `encodeIgnoreFriendBody`: 17 bytes.
unfoldable pub encode_ignore_friend_body : ℕ → ℕ → Bool → Bytes
encode_ignore_friend_body self friend ignore =
    put_le 8 self ++ (put_le 8 friend ++ ((if ignore then 1 else 0) ∷ []))

unfoldable pub decode_ignore_friend_response : Bytes → Result RequestError ℕ
decode_ignore_friend_response body =
    if ltb (length body) 12 then err response_too_short else ok (get_le (slice body 8 12))

abbrev check_result : Result RequestError ℕ → CmClient → Run RequestError Unit
check_result (ok result) c = keep (if result == 1 then ok tt else err (failed result)) c
check_result (err e) c = keep (err e) c
check_result panic c = keep panic c
check_result stuck c = keep stuck c

module _ (s : Services) where
  -- A request without a response: its body is marshalled and sent.
  abbrev send_body : ℕ → Option Bytes → CmClient → Run RequestError Unit
  send_body emsg body c =
      then_run (keep (or_fail body marshal) c)
        (λ b c'. commit send (send_packet s emsg none b c') c')

  unfoldable pub ignore_friend : ℕ → Bool → List Packet → Case → CmClient → Run RequestError Unit
  ignore_friend target ignore packets case c =
      let r = expect_emsg 856 c in
      then_run
        (commit send
          (send_non_proto_packet s 855 (encode_ignore_friend_body r.1.steam_id target ignore) r.1)
          r.1)
        (λ _ c1. then_run (read_meanwhile s packets c1) (λ _ c2.
          then_run (await_run wait r.0 case c2)
            (λ pkt c3. check_result (decode_ignore_friend_response pkt.body) c3)))

  -- `SendGCMessage`
  unfoldable pub send_gc_message : GcMessage → CmClient → Run RequestError Unit
  send_gc_message msg c = elim (gc_packet_body s.header s.gc msg) [
    | ok (hdr, body) ↦ commit send (send_packet s 5452 (some hdr) body c) c
    | err e ↦ keep (err (gc e)) c
    | panic ↦ keep panic c
    | stuck ↦ keep stuck c
  ]

  module _ (k : RequestCodecs) where
    unfoldable pub remove_friend : ℕ → CmClient → Run RequestError Unit
    remove_friend target c = send_body 714 (k.remove_friend target) c

    -- The message is sent with a NUL behind it, as a chat message, type 1.
    unfoldable pub send_message : ℕ → Bytes → CmClient → Run RequestError Unit
    send_message target message c =
        send_body 718
          (k.friend_msg
            (record { steamid = target; chat_entry_type = 1; message = message ++ (0 ∷ []) }))
          c

    unfoldable pub set_persona_state : ℕ → CmClient → Run RequestError Unit
    set_persona_state state c =
        send_body 716
          (k.change_status (record { persona_state = state; persona_set_by_user = true })) c

    unfoldable pub request_friend_data : List ℕ → CmClient → Run RequestError Unit
    request_friend_data friends c =
        send_body 815 (k.friend_data (record { persona_state_requested = 339; friends = friends }))
          c

    unfoldable pub set_games_played : List ℕ → CmClient → Run RequestError Unit
    set_games_played app_ids c = send_body 742 (k.games_played app_ids) c

    abbrev added : Option (Option ℕ) → CmClient → Run RequestError Unit
    added none c = keep (err unmarshal) c
    added (some result) c =
        keep (if get_default 2 result == 1 then ok tt else err (failed (get_default 2 result))) c

    -- The response that is returned with the error is left out.
    unfoldable pub add_friend : ℕ → List Packet → Case → CmClient → Run RequestError Unit
    add_friend target packets case c =
        let r = expect_emsg 792 c in
        then_run (send_body 791 (k.add_friend target) r.1) (λ _ c1.
          then_run (read_meanwhile s packets c1) (λ _ c2.
            then_run (await_run wait r.0 case c2)
              (λ pkt c3. added (k.add_friend_response pkt.body) c3)))

    abbrev with_service : {A : Type 0} → Run CallError A → Run RequestError A
    with_service r = record {
      outcome = elim r.outcome [
        | ok a ↦ ok a
        | err e ↦ err (service e)
        | panic ↦ panic
        | stuck ↦ stuck
      ];
      after = r.after;
    }

    unfoldable pub generate_access_token_for_app :
        Bytes → List Packet → Case → CmClient → Run RequestError (Bytes × Bytes)
    generate_access_token_for_app refresh_token packets case c =
        then_run
          (keep
            (or_fail
              (k.access_token (record { refresh_token = refresh_token; steamid = c.steam_id }))
              marshal)
            c)
          (λ body c1.
            then_run (with_service (call_service_method s access_token_method body packets case c1))
              (λ pkt c2. keep (or_fail (k.access_token_response pkt.body) unmarshal) c2))
