-- ===== src/Tests/Clients.antt =====
-- A client of a CM server at concrete inputs.
use steamstacks.Prelude.{
  ◌≡◌, ◌≢◌, refl, sym, bit_or, true, false, [], ◌∷◌, ◌++◌, if◌then◌else◌, none, some, ok, err,
  panic, stuck, inl, inr, arith, length, take, drop,
}
use mathlib.Core.Option.{some-injective}
use steamstacks.Prelude.Bytes.{Bytes, put_le, get_le}
use steamstacks.SteamClient.Protocol.{empty_header, get_jobid_target, get_eresult, proto_mask}
use steamstacks.SteamClient.Message.{
  Packet, packet_too_short, encode_packet, encode_proto_packet, decode_packet, decode_proto_packet,
  header_or_empty,
}
use steamstacks.SteamClient.Message.Multi.{decode_multi, multi_loop, read_sub_message}
use steamstacks.SteamClient.Session.{
  job_channel, user_handler, Callbacks, open_conn, closed_conn, open_done, CmClient, new_client,
  Services, response_of, try_send, pending, forget, answer_job,
}
use steamstacks.SteamClient.Session.Dispatch.{
  run_on_packet, handle_typed, switch_emsg, deliver, deliver_all, packets_of, handle_packet,
}
use steamstacks.SteamClient.Session.Send.{filled_header, conn_write, send_encoded, send_packet}
use steamstacks.SteamClient.Session.Send.Sent.{after_write}
use steamstacks.SteamClient.Session.Send.Identity.{send_packet-read}
use steamstacks.SteamClient.Session.Groups.{leaves, handle_packet-leaves}
use steamstacks.SteamClient.Session.Nesting.{Uncompressed, handle_packet-ne-stuck}
use steamstacks.SteamClient.Session.Run.{Run}
use steamstacks.SteamClient.Session.Calls.{
  CallError, response, expect_emsg, expect_job_id, call_service_method,
}
use steamstacks.SteamClient.Session.Calls.Correlated.{call_service_method-correlated}
use steamstacks.SteamClient.Session.Calls.Answered.{call_service_method-answered}
use steamstacks.SteamClient.Session.Calls.Listeners.{receive, expect_emsg-order}
use steamstacks.SteamClient.Session.Matched.{Fits, Matched}
use steamstacks.SteamClient.Session.Matched.Steps.{
  CmReachable, here, next, expecting_job, delivered, response_of-Fits,
}
use steamstacks.SteamClient.Session.Lifecycle.{
  TransportType, tcp, netfilter, websockets, Outside, candidates, disconnect, reconnect, read_loop,
}
use steamstacks.SteamClient.Session.Lifecycle.Once.{Up, Reported, read_loop-reports_once}
use steamstacks.SteamClient.Session.Lifecycle.Ends.{Live, Wrote, disconnect-twice}
use steamstacks.SteamClient.Session.Lifecycle.Renewed.{Reaches, reconnect-renews}
use steamstacks.SteamClient.Requests.{encode_ignore_friend_body, decode_ignore_friend_response}
use steamstacks.SteamClient.Requests.Ignore.{ignore_friend-read}
use steamstacks.Tests.Codecs.{header_codec, header_codec-RoundTrips, gc_codec}

-- Groups are their bytes, nothing is compressed, the other messages cannot be read, and the
-- transport takes all.
abbrev services : Services
services = record {
  header = header_codec;
  gc = gc_codec;
  multi = λ b. some (record { message_body = b; size_unzipped = none });
  logged_off_reason = λ b. none;
  friends_list = λ b. none;
  persona_states = λ b. none;
  friend_msg_incoming = λ b. none;
  user_notifications = λ b. none;
  item_announcements = λ b. none;
  gunzip = λ b. none;
  accepts = λ before b. true;
}

abbrev all_callbacks : Callbacks
all_callbacks = record {
  on_friend_message = true;
  on_relationship = true;
  on_persona_state = true;
  on_trade_notification = true;
  on_item_notification = true;
  on_gc_message = true;
  on_disconnect = true;
}

abbrev fresh : CmClient
fresh = new_client all_callbacks user_handler

-- Connected and logged in.
abbrev online : CmClient
online = record fresh {
  conn = open_conn;
  done = open_done;
  logged_in = true;
  steam_id = 76561197960287930;
  session_id = 3;
}

-- The response to the first job, with result 1.
abbrev answer : Packet
answer = record {
  emsg = 147;
  is_proto = true;
  header = some (record empty_header { jobid_target = some 1; eresult = some 1 });
  body = [];
}

abbrev other : Packet
other = record { emsg = 9; is_proto = true; header = none; body = 8 ∷ [] }

waiting : CmClient
waiting = (expect_job_id 1 (record fresh { next_job_id = 1 })).1

answered : CmClient
unfolding waiting expect_job_id answer_job pending try_send response_of forget
answered = run_on_packet user_handler answer (answer_job answer waiting)

answered_reachable : CmReachable services fresh answered
unfolding deliver switch_emsg handle_typed answer_job answered waiting
answered_reachable =
    next (next here (expecting_job fresh 1)) (delivered waiting answered answer refl)

on_channel : response_of (job_channel 0 1) answered.responses ≡ some answer
unfolding answered waiting expect_job_id answer_job pending try_send response_of forget
    run_on_packet
on_channel = refl

response_of-Fits_example : Fits (job_channel 0 1) answer
response_of-Fits_example =
    response_of-Fits services all_callbacks user_handler answered (job_channel 0 1) answer tt
      answered_reachable on_channel

online-Matched : Matched online
online-Matched = record { sent = tt; registered = tt; listening = tt }

abbrev called : Run CallError Packet
called =
    call_service_method services (1 ∷ []) (2 ∷ []) (other ∷ (answer ∷ (other ∷ []))) response online

called_answered : called.outcome ≡ ok answer
unfolding expect_job_id send_packet send_encoded conn_write encode_packet encode_proto_packet
    filled_header response_of
called_answered =
    call_service_method-answered services (1 ∷ []) (2 ∷ []) (other ∷ []) (other ∷ []) answer online
      _ online-Matched refl refl ((omega arith, omega arith), tt) refl refl
      (omega arith, (omega arith, tt))

call_service_method-correlated_example :
    (get_jobid_target (header_or_empty answer.header) ≡ 1)
    × (get_eresult (header_or_empty answer.header) ≡ 1)
    × (pending 1 called.after.pending_jobs ≡ none)
call_service_method-correlated_example =
    call_service_method-correlated services (1 ∷ []) (2 ∷ []) (other ∷ (answer ∷ (other ∷ [])))
      response online answer online-Matched called_answered

call_service_method-answered_example :
    (call_service_method services
      (1 ∷ [])
      (2 ∷ [])
      (other ∷ (answer ∷ (other ∷ [])))
      response
      online).outcome
    ≡ ok answer
unfolding expect_job_id send_packet send_encoded conn_write encode_packet encode_proto_packet
    filled_header response_of
call_service_method-answered_example =
    call_service_method-answered services (1 ∷ []) (2 ∷ []) (other ∷ []) (other ∷ []) answer online
      _ online-Matched refl refl ((omega arith, omega arith), tt) refl refl
      (omega arith, (omega arith, tt))

expect_emsg-order_example :
    let r1 = expect_emsg 147 fresh in
    let r2 = expect_emsg 9 r1.1 in
    (response_of r1.0 (receive answer (receive other r2.1)).responses ≡ some answer)
    × (response_of r2.0 (receive answer (receive other r2.1)).responses ≡ some other)
    × (response_of r1.0 (receive other (receive answer r2.1)).responses ≡ some answer)
    × (response_of r2.0 (receive other (receive answer r2.1)).responses ≡ none)
unfolding response_of
expect_emsg-order_example =
    expect_emsg-order 147 9 answer other fresh refl refl (omega arith) refl refl

-- A group of one packet, whose body is one byte.
abbrev small_packet : Bytes
small_packet =
    put_le 4 (bit_or 9 proto_mask)
    ++ (put_le 4 7 ++ ((0 ∷ (0 ∷ (0 ∷ (0 ∷ (0 ∷ (0 ∷ (0 ∷ []))))))) ++ (8 ∷ [])))

abbrev other_read : Packet
other_read = record { emsg = 9; is_proto = true; header = some empty_header; body = 8 ∷ [] }

abbrev group : Packet
group = record { emsg = 1; is_proto = true; header = none; body = put_le 4 16 ++ small_packet }

group-leaves : leaves services 2 group ≡ ok (other_read ∷ [])
unfolding leaves packets_of decode_multi multi_loop read_sub_message decode_packet
    decode_proto_packet get_le put_le
group-leaves = refl

handle_packet-leaves_example :
    handle_packet services 2 group online ≡ deliver_all services (other_read ∷ []) online
handle_packet-leaves_example =
    handle_packet-leaves services 2 group (other_read ∷ []) online group-leaves

uncompressed : Uncompressed services
uncompressed b m e =
    let q = some-injective (record { message_body = b; size_unzipped = none }) m e in
    rw (sym q) (omega arith, refl)

handle_packet-ne-stuck_example : handle_packet services 30 group online ≢ stuck
unfolding put_le
handle_packet-ne-stuck_example =
    handle_packet-ne-stuck services 30 group online uncompressed (omega arith)

online-Up : Up 0 online
online-Up = record {
  conn = refl;
  done = refl;
  close_once = refl;
  disconnect_once = refl;
  has_callback = refl;
  count = refl;
}

small_decoded : decode_packet header_codec small_packet ≡ ok other_read
unfolding decode_packet decode_proto_packet get_le put_le
small_decoded = refl

small_packet_leaves : leaves services 2 other_read ≡ ok (other_read ∷ [])
unfolding leaves
small_packet_leaves = refl

one_byte : decode_packet header_codec (1 ∷ []) ≡ err packet_too_short
unfolding decode_packet
one_byte = refl

read_loop-reports_once_example :
    (c' : CmClient) × (read_loop services 2 ((1 ∷ []) ∷ (small_packet ∷ [])) online ≡ ok c')
    × Reported services 0 c'
read_loop-reports_once_example =
    read_loop-reports_once services 0 2 ((1 ∷ []) ∷ (small_packet ∷ [])) online
      (
        inl (packet_too_short, one_byte),
        (inr (other_read, other_read ∷ [], small_decoded, small_packet_leaves), tt),
      )
      online-Up

online-Live : Live online
online-Live = record { has_conn = λ e. cc; closable = inr (refl, refl); closed = λ e. cc }

disconnect-twice_example :
    (c' : CmClient) × (disconnect services online ≡ ok c')
    × (c'.conn ≡ closed_conn)
    × (c'.logged_in ≡ false)
    × Wrote services online c'.written
    × (disconnect services c' ≡ panic)
    × ((t : TransportType) (o : Outside) → (reconnect t o c').outcome ≡ panic)
disconnect-twice_example = disconnect-twice services online online-Live

-- One server of each type.
abbrev two_servers : Outside
two_servers = record {
  discovered = some (
      record { addr = 1 ∷ []; server_type = websockets }
      ∷ (record { addr = 2 ∷ []; server_type = netfilter } ∷ []));
  int_n = λ n. 0;
  dials = λ t server. true;
}

reached : Reaches tcp two_servers
unfolding candidates
reached = record {
  servers =
      record { addr = 1 ∷ []; server_type = websockets }
      ∷ (record { addr = 2 ∷ []; server_type = netfilter } ∷ []);
  discovered = refl;
  server = record { addr = 2 ∷ []; server_type = netfilter };
  picked = refl;
  dials = refl;
}

reconnect-renews_example :
    let r = reconnect tcp two_servers online in
    (r.outcome ≡ ok tt)
    × (r.after.conn ≡ open_conn)
    × (r.after.done ≡ open_done)
    × (r.after.close_once ≡ false)
    × (r.after.disconnect_once ≡ false)
    × (r.after.logged_in ≡ false)
reconnect-renews_example = reconnect-renews tcp two_servers online online-Live reached

send_packet-read_example :
    let h = empty_header in
    (d : Bytes) × (send_packet services 703 none [] online ≡ ok (after_write services online d))
    × (decode_packet header_codec d
        ≡ ok (record {
          emsg = 703;
          is_proto = true;
          header = some (
              if online.logged_in
              then record h {
                steamid = some online.steam_id;
                client_sessionid = some online.session_id;
              }
              else h);
          body = [];
        }))
unfolding filled_header
send_packet-read_example =
    send_packet-read services 703 none
      (1 ∷ (76561197960287930 ∷ (1 ∷ (3 ∷ (0 ∷ (0 ∷ (0 ∷ (0 ∷ (0 ∷ []))))))))) [] online
      header_codec-RoundTrips refl (λ d. refl) (omega arith) refl (omega arith)

ignore_friend-read_example :
    let body = encode_ignore_friend_body 7 300 true in
    (length body ≡ 17)
    × (get_le (take 8 body) ≡ 7)
    × (get_le (take 8 (drop 8 body)) ≡ 300)
    × (drop 8 (drop 8 body) ≡ 1 ∷ [])
    × (decode_ignore_friend_response (put_le 8 300 ++ (put_le 4 1 ++ [])) ≡ ok 1)
ignore_friend-read_example =
    ignore_friend-read 7 300 1 true [] (omega arith) (omega arith) (omega arith)
