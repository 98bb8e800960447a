-- ===== src/Slugify/Samples.antt =====
-- The slug of a title, and of one without letters, with a toy normalisation that changes nothing.
use econmesh_api.Prelude.{◌≡◌, ◌≤◌, refl, true, false, length, allb}
use econmesh_api.Text.{Text, codes, strip, lower}
use econmesh_api.Slugify.{slugify}
use econmesh_api.Slugify.Shape.{is_slug_code, starts_alnum, ends_dash, slugify_lem}

abbrev title : Text
title = codes "  Residuo -- Organico: 2a parte! "

title_run : slugify (λ s. s) 120 title ≡ codes "residuo-organico-2a-parte"
unfolding slugify strip lower
title_run = refl

cut_run : slugify (λ s. s) 8 title ≡ codes "residuo"
unfolding slugify strip lower
cut_run = refl

post_run : slugify (λ s. s) 120 (codes "?!") ≡ codes "post"
unfolding slugify strip lower
post_run = refl

slugify_lem_example :
    (allb is_slug_code (slugify (λ s. s) 8 title) ≡ true)
    × (starts_alnum (slugify (λ s. s) 8 title) ≡ true)
    × (ends_dash (slugify (λ s. s) 8 title) ≡ false)
    × (length (slugify (λ s. s) 8 title) ≤ 8)
slugify_lem_example = slugify_lem (λ s. s) 7 title
