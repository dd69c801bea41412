-- ===== src/Tests/Confirmations.antt =====
-- A trade that is accepted by its creator among two confirmations.
use steamstacks.Prelude.{true, false, [], ◌∷◌, none, some, replicate}
use steamstacks.Prelude.Ints.{pos}
use steamstacks.SteamCommunity.Texts.{Text}
use steamstacks.SteamCommunity.Confirmation.{Confirmation, Site, answer_by_creator_id}
use steamstacks.SteamCommunity.Confirmation.Answered.{Sends, answer_by_creator_id-Sends}

abbrev trade : Text → Text → Confirmation
trade id creator_id = record {
  id = id;
  confirmation_type = pos 2;
  creator_id = creator_id;
  key = 107 ∷ id;
  title = [];
  headline = [];
  summary = [];
  timestamp = pos 0;
  icon = [];
}

abbrev community : Site
community = record {
  ready = true;
  library = record {
    hmac_sha1 = λ key m. replicate 20 171;
    sha1 = λ b. replicate 20 171;
    hex_decode = λ b. none;
    base64_decode = λ b. some b;
    base64_encode = λ b. b;
  };
  steam_id = 76561197960265729;
  time_answer = λ tag. some (record { status = 200; body = some [] });
  server_time_field = λ b. some (49 ∷ (55 ∷ []));
  fetch = λ r. some (record { status = 200; body = some [] });
  decode_list = λ b. some (record {
    success = true;
    conf = trade (49 ∷ []) (55 ∷ []) ∷ (trade (50 ∷ []) (56 ∷ []) ∷ []);
    need_auth = false;
    message = [];
  });
  decode_result = λ b. some (record { success = true; message = [] });
}

answer_by_creator_id-Sends_example :
    Sends community []
      (56 ∷ [])
      true
      (answer_by_creator_id community [] (56 ∷ []) true).outcome
      (answer_by_creator_id community [] (56 ∷ []) true).sent
answer_by_creator_id-Sends_example = answer_by_creator_id-Sends community [] (56 ∷ []) true
