-- ===== src/SteamApi/Descriptions.antt =====
-- steamapi/tradeoffer_types.go: the descriptions of items, and their keys.
use steamstacks.Prelude.{suc, Bool, List, ◌∷◌, ◌++◌}
use steamstacks.Prelude.Ints.{ℤ, pos, negsuc}
use steamstacks.Prelude.Decimal.{format_uint}
use steamstacks.SteamCommunity.Texts.{Text}

pub record Tag : Type 0 where
  pub category : Text
  pub internal_name : Text
  pub localized_category_name : Text
  pub localized_tag_name : Text
  pub color : Text

pub record DescriptionLine : Type 0 where
  pub line_type : Text
  pub value : Text
  pub color : Text

pub record Action : Type 0 where
  pub link : Text
  pub name : Text

pub record AssetDescription : Type 0 where
  pub app_id : ℤ
  pub class_id : Text
  pub instance_id : Text
  pub name : Text
  pub market_hash_name : Text
  pub type_name : Text
  pub tradable : Bool
  pub marketable : Bool
  pub commodity : Bool
  pub icon_url : Text
  pub icon_url_large : Text
  pub descriptions : List DescriptionLine
  pub tags : List Tag
  pub actions : List Action
  pub fraud_warnings : List Text

abbrev pub format_int : ℤ → Text
format_int (pos n) = format_uint n
format_int (negsuc n) = 45 ∷ format_uint (suc n)

-- `AssetDescriptionKey`, with underscores, 95.
unfoldable pub asset_description_key : ℤ → Text → Text → Text
asset_description_key app_id class_id instance_id =
    format_int app_id ++ (95 ∷ (class_id ++ (95 ∷ instance_id)))
