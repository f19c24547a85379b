-- ===== src/Profile.antt =====
-- server/app/schemas.py: actions, buttons, pages and profiles, with the checks that pydantic and the
-- validators make. A value of these types is what passed the checks on the shape (fields, JSON types,
-- literals); an id that matches `StableId` is the number that names it; titles and keys are texts.
-- `valid_url` stands for `UrlAction.require_https_url`, which is not modelled.
pub mod Equality
pub mod Sample
use android_streamdeck.Base.{
  ℕ, Bool, true, false, not, ◌&&◌, ◌||◌, Option, none, some, List, [], ◌∷◌, ◌++◌, map, length, all,
  ltb, leb, ◌==◌, all_distinct, contains, if◌then◌else◌,
}
use android_streamdeck.Base.Text.{Text, is_alphanumeric}

pub data Modifier : Type 0 where
  ctrl alt shift win : Modifier

pub data MediaCommand : Type 0 where
  play_pause next previous stop volume_up volume_down mute : MediaCommand

pub data SystemInfoTarget : Type 0 where
  cpu memory gpu : SystemInfoTarget

pub data Action : Type 0 where
  hotkey : List Modifier → Text → Action
  key : Text → Action
  media : MediaCommand → Action
  text : Text → Action
  url : Text → Action
  application : ℕ → Action
  system_info : SystemInfoTarget → Action

pub record Button : Type 0 where
  pub id : ℕ
  pub row : ℕ
  pub column : ℕ
  pub title : Text
  pub icon : Option Text
  pub color : Option Text
  pub action : Action

pub record Page : Type 0 where
  pub id : ℕ
  pub title : Text
  pub order : ℕ
  pub rows : ℕ
  pub columns : ℕ
  pub buttons : List Button

pub record Profile : Type 0 where
  pub protocol_version : ℕ
  pub id : ℕ
  pub name : Text
  pub revision : ℕ
  pub active_page_id : ℕ
  pub pages : List Page

-- A modifier's place among the four, to compare them.
abbrev pub modifier_code : Modifier → ℕ
modifier_code ctrl = 0
modifier_code alt = 1
modifier_code shift = 2
modifier_code win = 3

-- `Field(min_length=a, max_length=b)`
abbrev pub has_length : ℕ → ℕ → Text → Bool
has_length a b t = leb a (length t) && leb (length t) b

-- `[A-Za-z0-9._+\-]`
abbrev pub is_key_character : ℕ → Bool
is_key_character c = is_alphanumeric c || c == b'.' || c == b'_' || c == b'+' || c == b'-'

-- The text without a newline at its end, before which `$` matches too.
abbrev pub without_newline : Text → Text
without_newline [] = []
without_newline (c ∷ []) = if c == 10 then [] else c ∷ []
without_newline (c ∷ d ∷ s) = c ∷ without_newline (d ∷ s)

-- the pattern of `KeyName`, up to `$`
abbrev pub matches_key : Text → Bool
matches_key [] = false
matches_key (c ∷ s) = is_alphanumeric c && leb (length s) 31 && all is_key_character s

-- `KeyName`
unfoldable pub valid_key_name : Text → Bool
valid_key_name t = has_length 1 32 t && matches_key (without_newline t)

-- `[0-9A-Fa-f]`
abbrev pub is_hex : ℕ → Bool
is_hex c = (leb b'0' c && leb c b'9') || (leb b'A' c && leb c b'F') || (leb b'a' c && leb c b'f')

-- the pattern of `Button.color`, up to `$`
abbrev pub matches_color : Text → Bool
matches_color [] = false
matches_color (c ∷ s) = c == b'#' && (length s == 6 || length s == 8) && all is_hex s

-- the test of `Button.color`
unfoldable pub valid_color : Text → Bool
valid_color t = matches_color (without_newline t)

abbrev pub optionally : (Text → Bool) → Option Text → Bool
optionally p none = true
optionally p (some t) = p t

-- `(button.row, button.column)` as one of the positions
abbrev pub same_place : Button → Button → Bool
same_place a b = a.row == b.row && a.column == b.column

abbrev pub takes_place : Button → List Button → Bool
takes_place b [] = false
takes_place b (c ∷ cs) = same_place b c || takes_place b cs

-- `len(positions) == len(set(positions))`
unfoldable pub distinct_places : List Button → Bool
distinct_places [] = true
distinct_places (b ∷ bs) = if takes_place b bs then false else distinct_places bs

abbrev pub button_ids : List Button → List ℕ
button_ids = map (λ b. b.id)

abbrev pub page_ids : List Page → List ℕ
page_ids = map (λ p. p.id)

abbrev pub page_orders : List Page → List ℕ
page_orders = map (λ p. p.order)

-- `button_ids` of `validate_page_relationships`
abbrev pub all_button_ids : List Page → List ℕ
all_button_ids [] = []
all_button_ids (p ∷ ps) = button_ids p.buttons ++ all_button_ids ps

abbrev pub is_empty {ℓ} : {A : Type ℓ} → List A → Bool
is_empty [] = true
is_empty (x ∷ xs) = false

module _ (valid_url : Text → Bool) where
  -- The fields of the seven action models.
  unfoldable pub valid_action : Action → Bool
  valid_action (hotkey modifiers k) =
      leb 1 (length modifiers)
      && leb (length modifiers) 4
      && all_distinct (map modifier_code modifiers)
      && valid_key_name k
  valid_action (key k) = valid_key_name k
  valid_action (media command) = true
  valid_action (text t) = has_length 1 2000 t
  valid_action (url u) = has_length 1 2048 u && valid_url u
  valid_action (application app_id) = true
  valid_action (system_info target) = true

  -- the fields of `Button`
  unfoldable pub valid_button : Button → Bool
  valid_button b =
      has_length 1 120 b.title
      && optionally (has_length 1 120) b.icon
      && optionally valid_color b.color
      && valid_action b.action

  -- `Page.validate_button_layout`
  unfoldable pub valid_button_layout : ℕ → ℕ → List Button → Bool
  valid_button_layout rows columns buttons =
      all_distinct (button_ids buttons)
      && distinct_places buttons
      && all (λ b. ltb b.row rows) buttons
      && all (λ b. ltb b.column columns) buttons

  -- `Page.model_validate`
  unfoldable pub valid_page : Page → Bool
  valid_page p =
      has_length 1 120 p.title
      && (leb 1 p.rows && leb p.rows 64)
      && (leb 1 p.columns && leb p.columns 64)
      && not (is_empty p.buttons)
      && all valid_button p.buttons
      && valid_button_layout p.rows p.columns p.buttons

  -- `Profile.validate_page_relationships`
  unfoldable pub valid_page_relationships : ℕ → List Page → Bool
  valid_page_relationships active_page_id pages =
      all_distinct (page_ids pages)
      && all_distinct (page_orders pages)
      && contains active_page_id (page_ids pages)
      && all_distinct (all_button_ids pages)

  -- `Profile.model_validate`
  unfoldable pub valid_profile : Profile → Bool
  valid_profile p =
      p.protocol_version == 1
      && has_length 1 120 p.name
      && leb 1 p.revision
      && not (is_empty p.pages)
      && all valid_page p.pages
      && valid_page_relationships p.active_page_id p.pages
