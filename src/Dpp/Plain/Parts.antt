-- ===== src/Dpp/Plain/Parts.antt =====
-- The functions of components and of embeds, by plain records.
use tintemp_plus_plus.Base.{refl, false, none, some, [], ◌∷◌, ◌++◌}
use tintemp_plus_plus.Text.{codes}
use tintemp_plus_plus.Dpp.{
  InnerEmoji, Component, ComponentClass, cot_action_row, cot_button, cos_primary, cos_link, Embed,
  EmbedClass, FooterClass,
}

abbrev blank_emoji : InnerEmoji
blank_emoji = record { name = []; id = 0; animated = false }

abbrev blank_component : {S : Type 0} → Component S
blank_component = record {
  type = cot_action_row;
  components = [];
  label = [];
  style = cos_primary;
  custom_id = [];
  url = [];
  placeholder = [];
  min_values = none;
  max_values = none;
  options = [];
  disabled = false;
  emoji = blank_emoji;
}

abbrev pub components : ComponentClass
components = record {
  component = blank_component;
  set_type = λ c k. record c { type = k };
  set_label = λ c l. record c { label = l; type = cot_button };
  set_url = λ c u. record c { url = u; style = cos_link; type = cot_button };
  set_style = λ c s. record c { style = s; type = cot_button };
  set_id = λ c i. record c { custom_id = i; type = cot_button };
  set_disabled = λ c b. record c { disabled = b };
  set_placeholder = λ c p. record c { placeholder = p };
  set_min_values = λ c n. record c { min_values = some n };
  set_max_values = λ c n. record c { max_values = some n };
  add_select_option = λ c o. record c { options = c.options ++ o ∷ [] };
  add_component = λ c s. record c { components = c.components ++ s ∷ []; type = cot_action_row };
  set_emoji =
      λ c n i a. record c { emoji = record { name = n; id = i; animated = a }; type = cot_button };
  component-components = refl;
  component-disabled = refl;
  set_type_lem = λ c k. refl;
  set_label_lem = λ c l h. refl;
  set_url_lem = λ c u h. refl;
  set_style_lem = λ c s. refl;
  set_id_lem = λ c i h. refl;
  set_disabled_lem = λ c b. refl;
  set_placeholder_lem = λ c p. refl;
  set_min_values_lem = λ c n. refl;
  set_max_values_lem = λ c n. refl;
  add_select_option_lem = λ c o. refl;
  add_component_lem = λ c s. refl;
  set_emoji_lem = λ c n i a. refl;
}

abbrev blank_embed : Embed
blank_embed = record {
  title = [];
  type = codes "rich";
  description = [];
  url = [];
  timestamp = 0;
  color = 0;
  footer = none;
  image = none;
  thumbnail = none;
  video = none;
  provider = none;
  author = none;
  fields = [];
}

abbrev pub embeds : EmbedClass
embeds = record {
  embed = blank_embed;
  set_title = λ e t. record e { title = t };
  set_description = λ e t. record e { description = t };
  set_footer = λ e f. record e { footer = some f };
  set_color = λ e n. record e { color = n };
  set_timestamp = λ e n. record e { timestamp = n };
  set_url = λ e u. record e { url = u };
  add_field = λ e n v i. record e {
    fields = e.fields ++ record { name = n; value = v; is_inline = i } ∷ [];
  };
  set_author = λ e a. record e { author = some a };
  set_author_by = λ e n u i. record e {
    author = some (record { name = n; url = u; icon_url = i; proxy_icon_url = [] });
  };
  set_provider = λ e n u. record e { provider = some (record { name = n; url = u }) };
  set_image = λ e u. record e {
    image = some (record { url = u; proxy_url = []; height = []; width = [] });
  };
  set_video = λ e u. record e {
    video = some (record { url = u; proxy_url = []; height = []; width = [] });
  };
  set_thumbnail = λ e u. record e {
    thumbnail = some (record { url = u; proxy_url = []; height = []; width = [] });
  };
  set_title_lem = λ e t. refl;
  set_description_lem = λ e t. refl;
  set_footer_lem = λ e f. refl;
  set_color_lem = λ e n. refl;
  set_timestamp_lem = λ e n. refl;
  set_url_lem = λ e u. refl;
  add_field_lem = λ e n v i h. refl;
  set_author_lem = λ e a. refl;
  set_provider_lem = λ e n u. refl;
}

abbrev pub footers : FooterClass
footers = record {
  set_text = λ f t. record f { text = t };
  set_icon = λ f t. record f { icon_url = t };
  set_proxy = λ f t. record f { proxy_url = t };
  set_text_lem = λ f t. refl;
  set_icon_lem = λ f t. refl;
  set_proxy_lem = λ f t. refl;
}
