-- ===== src/Blog/Samples.antt =====
-- A slug that two posts have already, as a name and as its second.
use econmesh_api.Prelude.{◌≡◌, refl, none, List, [], ◌∷◌, arith}
use econmesh_api.Text.{codes, strip, lower}
use econmesh_api.Service.{ok}
use econmesh_api.Slugify.{slugify}
use econmesh_api.Blog.{BlogPostDocument, slug_exists, unique_slug}
use econmesh_api.Blog.Free.{IsFree, unique_slug-IsFree}

abbrev posts : List BlogPostDocument
posts = record { id = 1; slug = codes "residuo" } ∷ record { id = 2; slug = codes "residuo-2" } ∷ []

third_run : unique_slug (λ s. s) posts none (codes "Residuo") ≡ ok (codes "residuo-3")
unfolding unique_slug slugify strip lower
third_run = refl

unique_slug-IsFree_example :
    IsFree (slug_exists posts none) (unique_slug (λ s. s) posts none (codes "Residuo"))
unique_slug-IsFree_example = unique_slug-IsFree (λ s. s) posts none (codes "Residuo") (omega arith)
