-- ===== src/Tests/Classes.antt =====
-- Three keys of two classes, asked for in one request, and an object whose second entry comes first.
use steamstacks.Prelude.{◌≡◌, true, List, [], ◌∷◌, none, some, arith}
use steamstacks.SteamApi.Json.{map_by_index_key}
use steamstacks.SteamApi.Json.Reordered.{swap}
use steamstacks.SteamApi.Json.Ordered.{keyed, map_by_index_key-Reordered}
use steamstacks.SteamCommunity.Texts.{Text}
use steamstacks.Prelude.Ints.{pos}
use steamstacks.SteamApi.AssetClasses.{AssetClassKey, Api, get_asset_class_info}
use steamstacks.SteamApi.AssetClasses.Asked.{Asked, get_asset_class_info-Asked}

abbrev web : Api
web = record {
  authenticated = true;
  fetch = λ r. some (record { status = 200; eresult = 49 ∷ []; body = [] });
  decode = λ b. some ((53 ∷ (95 ∷ (48 ∷ [])), 123 ∷ []) ∷ []);
  unmarshal = λ b. some (record {
    class_id = [];
    instance_id = [];
    name = 72 ∷ [];
    market_hash_name = 72 ∷ [];
    type_name = [];
    icon_url = [];
    icon_url_large = [];
    tradable = 49 ∷ [];
    marketable = 48 ∷ [];
    commodity = [];
    tags = [];
    descriptions = [];
    actions = [];
    fraud_warnings = [];
  });
  tags = record { array = λ b. []; object = λ b. none };
  descriptions = record { array = λ b. []; object = λ b. none };
  actions = record { array = λ b. []; object = λ b. none };
  texts = record { array = λ b. []; object = λ b. none };
}

abbrev class_five : AssetClassKey
class_five = record { class_id = 53 ∷ []; instance_id = 48 ∷ [] }

abbrev class_six : AssetClassKey
class_six = record { class_id = 54 ∷ []; instance_id = [] }

get_asset_class_info-Asked_example :
    Asked web
      (pos 440)
      (class_five ∷ (class_six ∷ (class_five ∷ [])))
      (get_asset_class_info web (pos 440) (class_five ∷ (class_six ∷ (class_five ∷ []))))
get_asset_class_info-Asked_example =
    get_asset_class_info-Asked web (pos 440) (class_five ∷ (class_six ∷ (class_five ∷ [])))

abbrev two_texts : List Text
two_texts = (97 ∷ []) ∷ ((98 ∷ []) ∷ [])

map_by_index_key-Reordered_example :
    map_by_index_key (keyed ((1, 98 ∷ []) ∷ ((0, 97 ∷ []) ∷ []))) ≡ two_texts
map_by_index_key-Reordered_example =
    map_by_index_key-Reordered two_texts ((1, 98 ∷ []) ∷ ((0, 97 ∷ []) ∷ [])) (omega arith)
      (swap (0, 97 ∷ []) (1, 98 ∷ []) [])
