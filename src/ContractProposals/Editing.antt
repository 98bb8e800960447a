-- ===== src/ContractProposals/Editing.antt =====
-- The check of an edit of the sections of a draft: `_normalize_sections` of
-- src/modules/contract_proposals/service.py, whose answer `update` then puts in order. The supply of
-- new identifiers is passed along.
pub mod Locked
use econmesh_api.Prelude.{
  ℕ, ◌+◌, ◌≡◌, refl, sym, ap, ◌∙◌, Bool, true, false, not, ◌&&◌, ◌||◌, Option, none, some, List, [],
  ◌∷◌, ◌==◌, ==_iff, arith, if◌then◌else◌, is_empty, is_some, anyb, allb, All, length, Bool-cases,
  Option-cases, inl, inr, findb,
}
use mathlib.Core.Path.{subst}
use mathlib.Core.Option.{some-injective}
use econmesh_api.Text.{Text, eq_text, eq_text_refl}
use econmesh_api.Service.{Result, ok, err, validation}
use econmesh_api.ContractProposals.Model.{ProposalSection}

-- `ProposalSectionInput`
pub record ProposalSectionInput : Type 0 where
  pub id : Option ℕ
  pub title : Text
  pub content_html : Text
  pub sort_order : ℕ
  pub is_core : Bool
  pub is_admin_managed : Bool
  pub is_editable : Bool
  pub template_id : Option ℕ

-- `existing_by_id.get(id)`, where a later section replaces an earlier one
pub section_by_id : ℕ → List ProposalSection → Option ProposalSection
section_by_id id [] = none
section_by_id id (s ∷ ss) =
    let rest = section_by_id id ss in
    elim rest [ some t ↦ some t | none ↦ if s.id == id then some s else none ]

-- `prev`
pub previous : Option ℕ → List ProposalSection → Option ProposalSection
unfolding section_by_id
previous none existing = none
previous (some id) existing = section_by_id id existing

-- `locked_ids` are those of these sections
abbrev pub is_locked : ProposalSection → Bool
is_locked s = s.is_core || (s.is_admin_managed && not s.is_editable)

abbrev pub has_section_id : ℕ → ProposalSectionInput → Bool
has_section_id id item = elim item.id [ none ↦ false | some i ↦ i == id ]

-- `missing_locked`
abbrev pub is_missing_locked : List ProposalSectionInput → ProposalSection → Bool
is_missing_locked items s = is_locked s && not (anyb (has_section_id s.id) items)

-- `item.sort_order if item.sort_order else idx`
abbrev pub order_or : ℕ → ℕ → ℕ
order_or order idx = if order == 0 then idx else order

-- a section that the edit may not change
pub kept_section : ProposalSection → ProposalSectionInput → ℕ → ProposalSection
kept_section prev item idx =
    if prev.is_core
    then record prev {
      is_core = true;
      is_admin_managed = false;
      is_editable = false;
      template_id = none;
    }
    else record prev {
      sort_order = order_or item.sort_order idx;
      is_admin_managed = true;
      is_editable = false;
    }

-- a section that it may change
pub edited_section : Option ProposalSection → ProposalSectionInput → (idx id : ℕ) → ProposalSection
edited_section none item idx id = record {
  id = id;
  title = item.title;
  content_html = item.content_html;
  sort_order = order_or item.sort_order idx;
  is_core = item.is_core;
  is_admin_managed = item.is_admin_managed;
  is_editable = if item.is_admin_managed then item.is_editable else true;
  template_id = item.template_id;
}
edited_section (some prev) item idx id =
    let is_admin = item.is_admin_managed || prev.is_admin_managed in
    record {
      id = id;
      title = item.title;
      content_html = item.content_html;
      sort_order = order_or item.sort_order idx;
      is_core = prev.is_core;
      is_admin_managed = is_admin;
      is_editable =
          if is_admin
          then (if prev.is_admin_managed then prev.is_editable else item.is_editable)
          else true;
      template_id = prev.template_id;
    }

-- whether the section is one that the edit may not change
pub locked_previous : Option ProposalSection → Option ProposalSection
locked_previous none = none
locked_previous (some s) = if is_locked s then some s else none

-- `item.id or new_uuid()` takes the next identifier when there is none
pub id_or_new : Option ℕ → ℕ → ℕ × ℕ
id_or_new none fresh = (fresh, fresh + 1)
id_or_new (some id) fresh = (id, fresh)

-- one round of the loop, with the supply of identifiers that it leaves
pub chosen :
    (locked prev : Option ProposalSection)
    → ProposalSectionInput
    → (idx fresh : ℕ) → ProposalSection × ℕ
unfolding kept_section edited_section id_or_new
chosen (some s) prev item idx fresh = (kept_section s item idx, fresh)
chosen none prev item idx fresh =
    let (id, left) = id_or_new item.id fresh in (edited_section prev item idx id, left)

pub section_for :
    List ProposalSection → ProposalSectionInput → (idx fresh : ℕ) → ProposalSection × ℕ
unfolding previous locked_previous chosen
section_for existing item idx fresh =
    let prev = previous item.id existing in chosen (locked_previous prev) prev item idx fresh

pub normalized :
    List ProposalSection → (idx fresh : ℕ) → List ProposalSectionInput → List ProposalSection
unfolding section_for
normalized existing idx fresh [] = []
normalized existing idx fresh (item ∷ items) =
    let (s, left) = section_for existing item idx fresh in
    s ∷ normalized existing (idx + 1) left items

unfoldable pub normalize_sections :
    List ProposalSectionInput → List ProposalSection → (fresh : ℕ) → Result (List ProposalSection)
unfolding normalized
normalize_sections items existing fresh =
    if is_empty items
    then err (validation "A minuta precisa de ao menos uma seção.")
    else if anyb (is_missing_locked items) existing
    then err
        (validation "Seções automáticas ou administrativas bloqueadas não podem ser removidas.")
    else ok (normalized existing 0 fresh items)
