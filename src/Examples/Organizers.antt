-- ===== src/Examples/Organizers.antt =====
-- Votes of three agents, and a selection of the organizer from their receipts (src/organize.mjs).
use bimo.Base.{map, arith, ◌*◌, ◌<◌, String, Bool, true, List, [], ◌∷◌, ok, ◌≡◌, ◌↔◌, refl, decimal}
use bimo.Js.{arr, from_list, Value, nat, str, object}
use bimo.Contract.Fields.{assert_plain_object, assert_text}
use bimo.Workflow.Receipt.{sort}
use bimo.Organizer.Catalog.{
  assert_only_fields, Entry, Vote, normalize_catalog, normalize_entries, normalize_entry,
  normalize_option_names, given_option_names, matching_texts, catalog_entry_for_agent, vote_for,
  receipt_for_agent,
}
use bimo.Organizer.Vote.{count_votes, sort_by, choose_template}
use bimo.Organizer.Vote.Majority.{votes_for, choose_template-majority}
use bimo.Organizer.Catalog.Found.{CatalogAccepted, normalize_catalog-CatalogAccepted}
use bimo.Organizer.Run.{votes_from, Selection, select}
use bimo.Organizer.Run.Selected.{Supported, select-Supported}

abbrev precedes : String → String → Bool
precedes s t = true

abbrev ballots : List String
ballots = "site" ∷ "pod" ∷ "site" ∷ []

-- two of three agents decide
decided : choose_template precedes ballots 3 ≡ ok "site"
unfolding choose_template count_votes sort_by
decided = refl

choose_template-majority_example :
    (choose_template precedes ballots 3 ≡ ok "site") ↔ (3 < 2 * votes_for "site" ballots)
choose_template-majority_example =
    choose_template-majority precedes ballots 3 refl (omega arith) (omega arith) "site"

abbrev site_digest : String
site_digest = "a1a1a1a1a1a1a1a1a1a1a1a1a1a1a1a1a1a1a1a1a1a1a1a1a1a1a1a1a1a1a1a1"

abbrev pod_digest : String
pod_digest = "b2b2b2b2b2b2b2b2b2b2b2b2b2b2b2b2b2b2b2b2b2b2b2b2b2b2b2b2b2b2b2b2"

abbrev catalog : List Entry
catalog =
    record {
      template = "pod";
      template_digest = pod_digest;
      accepted_options = [];
      kind = "engineering-pod";
      roles = "planner" ∷ [];
      bound = nat 3;
    }
    ∷ record {
      template = "site";
      template_digest = site_digest;
      accepted_options = [];
      kind = "workflow";
      roles = "writer" ∷ [];
      bound = nat 9;
    }
    ∷ []

-- the catalog that an agent is sent is accepted, and is the one that it was made from
normalizes : normalize_catalog (arr (from_list (map catalog_entry_for_agent catalog))) ≡ ok catalog
unfolding normalize_catalog normalize_entries normalize_entry normalize_option_names
    given_option_names matching_texts catalog_entry_for_agent assert_only_fields assert_plain_object
    sort decimal
normalizes = refl

normalize_catalog-CatalogAccepted_example : CatalogAccepted catalog
normalize_catalog-CatalogAccepted_example =
    normalize_catalog-CatalogAccepted (arr (from_list (map catalog_entry_for_agent catalog)))
      catalog normalizes

abbrev receipt : String → String → Value
receipt template digest = object (
    ("version", nat 1)
    ∷ ("template", str template)
    ∷ ("templateDigest", str digest)
    ∷ ("reason", str "it fits")
    ∷ [])

-- the second answer is wrapped, as a run of an agent returns it
abbrev answers : List Value
answers =
    receipt "site" site_digest
    ∷ object (("receipt", receipt "pod" pod_digest) ∷ [])
    ∷ receipt "site" site_digest
    ∷ []

abbrev vote : String → String → Vote
vote template digest = record { template = template; template_digest = digest; reason = "it fits" }

abbrev chosen : Selection
chosen = record {
  entry = record {
    template = "site";
    template_digest = site_digest;
    accepted_options = [];
    kind = "workflow";
    roles = "writer" ∷ [];
    bound = nat 9;
  };
  votes = vote "site" site_digest ∷ vote "pod" pod_digest ∷ vote "site" site_digest ∷ [];
}

selects : select precedes catalog 3 answers ≡ ok chosen
unfolding select votes_from receipt_for_agent assert_only_fields vote_for choose_template
    count_votes sort_by assert_plain_object assert_text sort decimal
selects = refl

select-Supported_example : Supported catalog 3 answers chosen
select-Supported_example =
    select-Supported precedes catalog 3 answers chosen refl (omega arith) (omega arith) selects
