-- ===== src/Tests/Codecs.antt =====
-- Codecs that have the law of the protobuf library, and primitives with those of Go's packages.
use steamstacks.Prelude.{
  ℕ, zero, suc, ◌<◌, ◌≡◌, refl, ◌∙◌, [], ◌∷◌, Option, none, some, ◌==◌, if◌then◌else◌, arith, All,
  replicate, length-replicate,
}
use steamstacks.Prelude.Bytes.{Bytes, IsByte}
use steamstacks.SteamClient.Protocol.{Codec, RoundTrips, Header}
use steamstacks.SteamClient.Gc.{GcClient}
use steamstacks.SteamClient.Crypto.{Primitives, Documented}
use steamstacks.SteamClient.Tcp.{KeyExchange}

abbrev put_option : Option ℕ → Bytes → Bytes
put_option none rest = 0 ∷ rest
put_option (some v) rest = 1 ∷ (v ∷ rest)

abbrev get_option {ℓ} : {A : Type ℓ} → Bytes → (Option ℕ → Bytes → Option A) → Option A
get_option [] k = none
get_option (flag ∷ []) k = if flag == 0 then k none [] else none
get_option (flag ∷ (v ∷ rest)) k = if flag == 0 then k none (v ∷ rest) else k (some v) rest

get_option-put_option {ℓ} :
    {A : Type ℓ} (o : Option ℕ) (rest : Bytes) (k : Option ℕ → Bytes → Option A)
    → get_option (put_option o rest) k ≡ k o rest
get_option-put_option none [] k = refl
get_option-put_option none (v ∷ rest) k = refl
get_option-put_option (some v) rest k = refl

abbrev put_name : Option Bytes → Bytes
put_name none = 0 ∷ []
put_name (some b) = 1 ∷ b

abbrev get_name : Bytes → Option (Option Bytes)
get_name [] = none
get_name (flag ∷ b) = if flag == 0 then some none else some (some b)

get_name-put_name : (o : Option Bytes) → get_name (put_name o) ≡ some o
get_name-put_name none = refl
get_name-put_name (some b) = refl

abbrev read_header : Bytes → Option Header
read_header b = get_option b (λ steamid b1. get_option b1 (λ sessionid b2.
    get_option b2 (λ appid b3. get_option b3 (λ source b4. get_option b4 (λ target b5.
      get_option b5 (λ eresult b6. elim (get_name b6) [
        | none ↦ none
        | some name ↦ some (record {
          steamid = steamid;
          client_sessionid = sessionid;
          routing_appid = appid;
          jobid_source = source;
          jobid_target = target;
          target_job_name = name;
          eresult = eresult;
        })
      ]))))))

abbrev write_header : Header → Bytes
write_header h = put_option h.steamid (
    put_option h.client_sessionid (
      put_option h.routing_appid (
        put_option h.jobid_source
          (put_option h.jobid_target (put_option h.eresult (put_name h.target_job_name))))))

abbrev pub header_codec : Codec Header
header_codec = record { marshal = λ h. some (write_header h); unmarshal = read_header }

pub header_codec-RoundTrips : RoundTrips header_codec
header_codec-RoundTrips h b e = rw (← written h b e) (
    get_option-put_option h.steamid _ _
    ∙ (get_option-put_option h.client_sessionid _ _
        ∙ (get_option-put_option h.routing_appid _ _
            ∙ (get_option-put_option h.jobid_source _ _
                ∙ (get_option-put_option h.jobid_target _ _
                    ∙ (get_option-put_option h.eresult _ _
                        ∙ rw (get_name-put_name h.target_job_name) refl))))))
  where
    written :
        (h : Header) (b : Bytes)
        → ◌≡◌ {A = Option Bytes} (some (write_header h)) (some b)
        → write_header h ≡ b
    written h b e = cc

abbrev pub gc_codec : Codec GcClient
gc_codec = record {
  marshal = λ m. some (put_option m.appid (put_option m.msgtype m.payload));
  unmarshal = λ b. get_option b (λ appid b1.
      get_option b1
        (λ msgtype b2. some (record { appid = appid; msgtype = msgtype; payload = b2 })));
}

pub gc_codec-RoundTrips : RoundTrips gc_codec
gc_codec-RoundTrips m b e =
    rw (← written) (get_option-put_option m.appid _ _ ∙ get_option-put_option m.msgtype m.payload _)
  where
    written : put_option m.appid (put_option m.msgtype m.payload) ≡ b
    written = cc

-- A cipher that leaves blocks as they are, a constant digest, and a constant random source.
abbrev pub constant_primitives : Primitives
constant_primitives = record {
  aes_encrypt = λ key b. b;
  aes_decrypt = λ key b. b;
  hmac_sha1 = λ key m. replicate 20 7;
  random = λ n. some (replicate n 5);
}

replicate-IsByte : (n v : ℕ) → v < 256 → All IsByte (replicate n v)
replicate-IsByte zero v h = tt
replicate-IsByte (suc n) v h = (h, replicate-IsByte n v h)

same :
    (n : ℕ) (b : Bytes) → ◌≡◌ {A = Option Bytes} (some (replicate n 5)) (some b) → replicate n 5 ≡ b
same n b e = cc

pub constant_primitives-Documented : Documented constant_primitives
constant_primitives-Documented = record {
  encrypt_block = λ key b h. h;
  decrypt-encrypt_block = λ key b h. refl;
  digest_bytes = λ key m. replicate-IsByte 20 7 (omega arith);
  digest_length = λ key m. refl;
  random_bytes = λ n b e. rw (← same n b e) (replicate-IsByte n 5 (omega arith));
  random_length = λ n b e. rw (← same n b e) (length-replicate n 5);
}

-- RSA that hides nothing, and a constant checksum.
abbrev pub open_exchange : KeyExchange
open_exchange = record { rsa_encrypt_oaep = λ b. some b; checksum_ieee = λ b. 9 }
