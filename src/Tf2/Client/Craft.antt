-- ===== src/Tf2/Client/Craft.antt =====
-- tf2/tf2.go: the bytes of a craft request, and of a craft response whole or cut short.
use steamstacks.Prelude.{
  ℕ, zero, suc, ◌+◌, ◌*◌, ◌%◌, ◌^◌, ◌≤◌, ◌<◌, ◌≡◌, refl, sym, ap, ◌∙◌, List, [], ◌∷◌, ◌++◌, some,
  ◌⊎◌, inl, inr, le→ltb, lt→ltb, arith, All, length, length-append, drop, append_assoc, append-nil,
}
use steamstacks.Prelude.Bytes.{Bytes, IsU64, put_le, get_le, slice, length-put_le}
use steamstacks.SteamClient.Message.RoundTrip.{drop-put_le, get_slice}
use steamstacks.Tf2.Messages.{craft_ids, decode_craft_response}
use steamstacks.Tf2.Client.{put_ids, craft_body}

-- The IDs that are whole are all read, as far as the count goes.
craft_ids-put_ids :
    (ids : List ℕ) (n : ℕ) (rest : Bytes)
    → All IsU64 ids
    → length ids ≤ n
    → (n ≡ length ids) ⊎ (length rest < 8)
    → craft_ids n (put_ids ids ++ rest) ≡ ids
unfolding craft_ids put_ids
craft_ids-put_ids [] zero rest h k o = refl
craft_ids-put_ids [] (suc n) rest h k (inl q) = absurd (omega arith)
craft_ids-put_ids [] (suc n) rest h k (inr q) = rw (lt→ltb (length rest) 8 q) refl
craft_ids-put_ids (id ∷ ids) zero rest h k o = absurd (omega arith)
craft_ids-put_ids (id ∷ ids) (suc n) rest h k o =
    rw (append_assoc (put_le 8 id) (put_ids ids) rest) (
      rw
        (
          le→ltb (length (put_le 8 id ++ (put_ids ids ++ rest))) 8 (
              omega (arith, length-append (put_le 8 id) (put_ids ids ++ rest), length-put_le 8 id)),
          drop-put_le 8 id (put_ids ids ++ rest),
          craft_ids-put_ids ids n rest h.1 (omega arith) (fewer o),
          get_slice [] (put_ids ids ++ rest) 8 id 0 refl (omega (arith, h.0)),
        )
        refl)
  where
    fewer : (suc n ≡ suc (length ids)) ⊎ (length rest < 8) → (n ≡ length ids) ⊎ (length rest < 8)
    fewer (inl q) = inl (omega arith)
    fewer (inr q) = inr q

-- The header of a response, before its IDs.
module _ (recipe unknown count : ℕ) (tail : Bytes) where
  abbrev response : Bytes
  response = put_le 2 recipe ++ (put_le 4 unknown ++ (put_le 2 count ++ tail))

  length-response : length response ≡ 8 + length tail
  length-response = omega (
    arith,
    length-append (put_le 2 recipe) (put_le 4 unknown ++ (put_le 2 count ++ tail)),
    length-append (put_le 4 unknown) (put_le 2 count ++ tail),
    length-append (put_le 2 count) tail,
    length-put_le 2 recipe,
    length-put_le 4 unknown,
    length-put_le 2 count,
  )

  response_count : count < 2 ^ 16 → get_le (slice response 6 8) ≡ count
  response_count k =
      rw (sym (append_assoc (put_le 2 recipe) (put_le 4 unknown) (put_le 2 count ++ tail))) (
        get_slice (put_le 2 recipe ++ put_le 4 unknown) tail 2 count 6
          (omega (
            arith,
            length-append (put_le 2 recipe) (put_le 4 unknown),
            length-put_le 2 recipe,
            length-put_le 4 unknown,
          ))
          (omega arith))

  response_ids : drop 8 response ≡ tail
  unfolding put_le
  response_ids =
      ap (drop 6) (drop-put_le 2 recipe (put_le 4 unknown ++ (put_le 2 count ++ tail)))
      ∙ (ap (drop 2) (drop-put_le 4 unknown (put_le 2 count ++ tail)) ∙ drop-put_le 2 count tail)

-- A craft response is its header, IDs and further bytes, where recipe and count fit 16 bits and
-- the IDs 64. If there are no more IDs than the count, and either as many or fewer than eight
-- bytes behind them, then just these IDs are read: a response that was cut short gives those that
-- are whole.
pub decode_craft_response-put_ids :
    (recipe unknown count : ℕ) (ids : List ℕ) (rest : Bytes)
    → recipe < 2 ^ 16
    → count < 2 ^ 16
    → All IsU64 ids
    → length ids ≤ count
    → (count ≡ length ids) ⊎ (length rest < 8)
    → decode_craft_response
        (put_le 2 recipe ++ (put_le 4 unknown ++ (put_le 2 count ++ (put_ids ids ++ rest))))
      ≡ some (record { recipe = recipe; item_ids = ids })
unfolding decode_craft_response
decode_craft_response-put_ids recipe unknown count ids rest h k ids_fit fewer o =
    rw
      (
        le→ltb (length (response recipe unknown count tail)) 8
            (omega (arith, length-response recipe unknown count tail)),
        get_slice [] (put_le 4 unknown ++ (put_le 2 count ++ tail)) 2 recipe 0 refl (omega arith),
        response_count recipe unknown count tail k,
        response_ids recipe unknown count tail,
        craft_ids-put_ids ids count rest ids_fit fewer o,
      )
      refl
  where
    tail : Bytes
    tail = put_ids ids ++ rest

length-put_ids : (ids : List ℕ) → length (put_ids ids) ≡ 8 * length ids
unfolding put_ids
length-put_ids [] = refl
length-put_ids (id ∷ ids) =
    omega (arith, length-append (put_le 8 id) (put_ids ids), length-put_le 8 id, length-put_ids ids)

-- A craft request, with a recipe of 16 bits and IDs of 64, is 4 bytes and 8 for each item; its
-- recipe and its IDs are read back from their places, and its count is the number of the items
-- modulo 2 ^ 16.
pub craft_body-read :
    (items : List ℕ) (recipe : ℕ)
    → recipe < 2 ^ 16
    → All IsU64 items
    → (length (craft_body items recipe) ≡ 4 + 8 * length items)
      × (get_le (slice (craft_body items recipe) 0 2) ≡ recipe)
      × (get_le (slice (craft_body items recipe) 2 4) ≡ length items % 2 ^ 16)
      × (craft_ids (length items) (drop 4 (craft_body items recipe)) ≡ items)
unfolding craft_body put_le
craft_body-read items recipe h k = (
  omega (
    arith,
    length-append (put_le 2 recipe) (put_le 2 (length items % 2 ^ 16) ++ put_ids items),
    length-append (put_le 2 (length items % 2 ^ 16)) (put_ids items),
    length-put_le 2 recipe,
    length-put_le 2 (length items % 2 ^ 16),
    length-put_ids items,
  ),
  get_slice [] (put_le 2 (length items % 2 ^ 16) ++ put_ids items) 2 recipe 0 refl (omega arith),
  get_slice (put_le 2 recipe) (put_ids items) 2 (length items % 2 ^ 16) 2
      (sym (length-put_le 2 recipe)) (omega arith),
  ap (craft_ids (length items)) (
        ap (drop 2) (drop-put_le 2 recipe (put_le 2 (length items % 2 ^ 16) ++ put_ids items))
        ∙ drop-put_le 2 (length items % 2 ^ 16) (put_ids items))
      ∙ (ap (craft_ids (length items)) (sym (append-nil (put_ids items)))
          ∙ craft_ids-put_ids items (length items) [] k (omega arith) (inl refl)),
)
