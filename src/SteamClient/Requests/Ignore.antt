-- ===== src/SteamClient/Requests/Ignore.antt =====
-- steamclient/friends.go: the bytes that `IgnoreFriend` sends and reads, and the text of a chat
-- message.
use steamstacks.Prelude.{
  ℕ, zero, suc, ◌^◌, ◌<◌, ◌≡◌, ◌≢◌, refl, sym, ap, ◌∙◌, ◌↔◌, ==_iff, Bool, true, [], ◌∷◌, ◌++◌, ok,
  le→ltb, ◌==◌, ==_ne, if◌then◌else◌, arith, length, take, drop, replicate, length-append,
}
use steamstacks.Prelude.Bytes.{Bytes, put_le, get_le, length-put_le, get_le-put_le}
use steamstacks.SteamClient.Events.{FriendMsgIncoming, friend_message, trim_right_nul}
use steamstacks.SteamClient.Message.RoundTrip.{take-put_le, drop-put_le, slice-append}
use steamstacks.SteamClient.Requests.{encode_ignore_friend_body, decode_ignore_friend_response}

-- The body of a request to ignore a friend has 17 bytes; its first eight are read as the client's
-- ID, the next eight as the friend's, both below 2 ^ 64, and the last says whether to ignore. A
-- response with a friend's ID and a result below 2 ^ 32, whatever follows, is read as the result.
pub ignore_friend-read :
    (self friend result : ℕ) (ignore : Bool) (rest : Bytes)
    → self < 2 ^ 64
    → friend < 2 ^ 64
    → result < 2 ^ 32
    → let body = encode_ignore_friend_body self friend ignore in
      (length body ≡ 17)
      × (get_le (take 8 body) ≡ self)
      × (get_le (take 8 (drop 8 body)) ≡ friend)
      × (drop 8 (drop 8 body) ≡ (if ignore then 1 else 0) ∷ [])
      × (decode_ignore_friend_response (put_le 8 friend ++ (put_le 4 result ++ rest)) ≡ ok result)
unfolding encode_ignore_friend_body decode_ignore_friend_response
ignore_friend-read self friend result ignore rest small1 small2 small3 =
    let flag : Bytes = (if ignore then 1 else 0) ∷ [] in
    let own = put_le 8 self in
    let theirs = put_le 8 friend in
    (
      omega (
        arith,
        length-append own (theirs ++ flag),
        length-append theirs flag,
        length-put_le 8 self,
        length-put_le 8 friend,
      ),
      ap get_le (take-put_le 8 self (theirs ++ flag)) ∙ get_le-put_le 8 self small1,
      ap (λ x. get_le (take 8 x)) (drop-put_le 8 self (theirs ++ flag))
          ∙ (ap get_le (take-put_le 8 friend flag) ∙ get_le-put_le 8 friend small2),
      ap (drop 8) (drop-put_le 8 self (theirs ++ flag)) ∙ drop-put_le 8 friend flag,
      rw
          (
            le→ltb (length (theirs ++ (put_le 4 result ++ rest))) 12 (
                omega (
                  arith,
                  length-append theirs (put_le 4 result ++ rest),
                  length-append (put_le 4 result) rest,
                  length-put_le 8 friend,
                  length-put_le 4 result,
                )),
            slice-append theirs (put_le 4 result) rest 8 12 (sym (length-put_le 8 friend))
                (omega (arith, length-put_le 4 result)),
          )
          (ap ok (get_le-put_le 4 result small3)),
    )

-- A byte in front of a text, given what is left of the text.
abbrev before_trimmed : ℕ → Bytes → Bytes
before_trimmed b [] = if b == 0 then [] else b ∷ []
before_trimmed b (x ∷ xs) = b ∷ (x ∷ xs)

trim_step : (b : ℕ) (bs : Bytes) → trim_right_nul (b ∷ bs) ≡ before_trimmed b (trim_right_nul bs)
unfolding trim_right_nul
trim_step b bs = go (trim_right_nul bs)
  where
    go :
        (rest : Bytes)
        → elim rest as (λ _. Bytes) [ [] ↦ if b == 0 then [] else b ∷ [] | x ∷ xs ↦ b ∷ (x ∷ xs) ]
          ≡ before_trimmed b rest
    go [] = refl
    go (x ∷ xs) = refl

zeros_trimmed : (n : ℕ) → trim_right_nul (replicate n 0) ≡ []
unfolding trim_right_nul
zeros_trimmed zero = refl
zeros_trimmed (suc n) = trim_step 0 (replicate n 0) ∙ ap (before_trimmed 0) (zeros_trimmed n)

-- Zero bytes at the end of a text that ends in another byte.
trim_right_nul-padded :
    (text : Bytes) (b n : ℕ)
    → b ≢ 0
    → trim_right_nul (text ++ (b ∷ replicate n 0)) ≡ text ++ (b ∷ [])
trim_right_nul-padded [] b n h =
    trim_step b (replicate n 0) ∙ (ap (before_trimmed b) (zeros_trimmed n) ∙ rw (==_ne b 0 h) refl)
trim_right_nul-padded (x ∷ []) b n h =
    trim_step x (b ∷ replicate n 0) ∙ ap (before_trimmed x) (trim_right_nul-padded [] b n h)
trim_right_nul-padded (x ∷ (y ∷ ys)) b n h =
    trim_step x ((y ∷ ys) ++ (b ∷ replicate n 0))
    ∙ ap (before_trimmed x) (trim_right_nul-padded (y ∷ ys) b n h)

-- The text of a message that the handler of chat messages passes on is what was sent, if this ends
-- in a byte that is not zero: the zero bytes behind it, one from `SendMessage`, are taken off. The
-- message is an echo exactly where its packet's type is 5578.
pub friend_message-text :
    (emsg : ℕ) (msg : FriendMsgIncoming) (text : Bytes) (b n : ℕ)
    → b ≢ 0
    → msg.message ≡ text ++ (b ∷ replicate n 0)
    → ((friend_message emsg msg).message ≡ text ++ (b ∷ []))
      × (((friend_message emsg msg).echo ≡ true) ↔ (emsg ≡ 5578))
unfolding friend_message
friend_message-text emsg msg text b n h e =
    (ap trim_right_nul e ∙ trim_right_nul-padded text b n h, ==_iff emsg 5578)
