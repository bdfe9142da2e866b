-- ===== src/Ttt/Embeds.antt =====
-- `ttt::set_origin_embed` of a message that has an embed.
use tintemp_plus_plus.Base.{◌≡◌, ◌≢◌, refl, List, [], ◌∷◌, some}
use tintemp_plus_plus.Dpp.{Embed, Message}
use tintemp_plus_plus.Ttt.{Ttt, set_front, set_origin_embed}

pub front :
    (es : List Embed) (e : Embed) → es ≢ [] → (fs : List Embed) × (set_front es e ≡ some (e ∷ fs))
unfolding set_front
front [] e some_embed = absurd (some_embed refl)
front (x ∷ xs) e some_embed = (xs, refl)

unfoldable pub embedded : (t : Ttt) (e : Embed) → t.origin.embeds ≢ [] → Ttt
embedded t e some_embed = record t {
  origin = record (t.origin) { embeds = e ∷ (front t.origin.embeds e some_embed).0 };
}

pub set_origin_embed_lem :
    (t : Ttt) (e : Embed) (some_embed : t.origin.embeds ≢ [])
    → set_origin_embed t e ≡ some (embedded t e some_embed)
unfolding set_origin_embed embedded
set_origin_embed_lem t e some_embed = rw ((front t.origin.embeds e some_embed).1, set_origin_embed)

pub embedded_lem :
    (t : Ttt) (e : Embed) (some_embed : t.origin.embeds ≢ [])
    → ((embedded t e some_embed).origin.embeds ≢ [])
      × ((embedded t e some_embed).player_1 ≡ t.player_1)
unfolding embedded
embedded_lem t e some_embed = (λ empty. cc, refl)

-- Nothing but the first message changes.
pub field-embedded {ℓ} :
    {A : Type ℓ} (f : Ttt → A) (t : Ttt) (e : Embed) (some_embed : t.origin.embeds ≢ [])
    → ((u : Ttt) (o : Message) → f (record u { origin = o }) ≡ f u)
    → f (embedded t e some_embed) ≡ f t
unfolding embedded
field-embedded f t e some_embed same = same t _
