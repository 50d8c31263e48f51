-- ===== src/Organizer/Catalog/Found.antt =====
-- What a catalog that `normalizeCatalog` (src/organize.mjs) accepts holds: its entries are found by name.
use bimo.Base.{
  ok-injective, arith, ℕ, suc, ◌≤◌, String, true, false, List, [], ◌∷◌, find, length, All, leb,
  mem_text, text_eq, eq_iff, some, ok, check-then, >>=-eq-ok, ◌≡◌, refl, ap, subst, ◌∙◌, ◌&&◌,
}
use bimo.Js.{Value, is_array, elements}
use bimo.Organizer.Catalog.{Entry, normalize_entry, normalize_entries, normalize_catalog, named}
use bimo.Organizer.Catalog.Accepted.{EntryAccepted, normalize_entry-EntryAccepted}

text_eq-swap : (s t : String) → text_eq s t ≡ false → text_eq t s ≡ false
text_eq-swap s t h = ground (arith, h, eq_iff s t, eq_iff t s)

-- the entries come from names other than those given, and each is found by its own name
Distinct : List String → List Entry → Type 0
Distinct names entries =
    All EntryAccepted entries
    × All (λ e. mem_text e.template names ≡ false) entries
    × All (λ e. find (named e.template) entries ≡ some e) entries

unseen :
    (s t : String) (ss : List String)
    → mem_text s (t ∷ ss) ≡ false
    → (text_eq t s ≡ false) × (mem_text s ss ≡ false)
unseen s t ss h = ground (arith, h, text_eq-swap s t)

pub find-here :
    (t : String) (d : Entry) (rest : List Entry)
    → text_eq d.template t ≡ true
    → find (named t) (d ∷ rest) ≡ some d
find-here t d rest h = ground (arith, h)

find-first : (d : Entry) (rest : List Entry) → find (named d.template) (d ∷ rest) ≡ some d
find-first d rest = find-here d.template d rest ((eq_iff d.template d.template).1 refl)

pub find-skip :
    (t : String) (d : Entry) (rest : List Entry)
    → text_eq d.template t ≡ false
    → find (named t) (d ∷ rest) ≡ find (named t) rest
find-skip t d rest h = ground (arith, h)

drop_name :
    (t : String) (names : List String) (entries : List Entry)
    → All (λ e. mem_text e.template (t ∷ names) ≡ false) entries
    → All (λ e. mem_text e.template names ≡ false) entries
drop_name t names [] h = tt
drop_name t names (e ∷ entries) (p, ps) =
    ((unseen e.template t names p).1, drop_name t names entries ps)

find-behind :
    (d : Entry) (names : List String) (entries more : List Entry)
    → All (λ e. mem_text e.template (d.template ∷ names) ≡ false) more
    → All (λ e. find (named e.template) entries ≡ some e) more
    → All (λ e. find (named e.template) (d ∷ entries) ≡ some e) more
find-behind d names entries [] ps qs = tt
find-behind d names entries (e ∷ more) (p, ps) (q, qs) = (
  find-skip e.template d entries (unseen e.template d.template names p).0 ∙ q,
  find-behind d names entries more ps qs,
)

normalize_entries-Distinct :
    (names : List String) (i : ℕ) (vs : List Value) (entries : List Entry)
    → normalize_entries names i vs ≡ ok entries
    → Distinct names entries × (length entries ≡ length vs)
unfolding normalize_entries Distinct
normalize_entries-Distinct names i [] entries h =
    subst (λ es. Distinct names es × (length es ≡ 0)) (ok-injective h) ((tt, tt, tt), refl)
normalize_entries-Distinct names i (v ∷ vs) entries h =
    let (e, first, h1) = >>=-eq-ok (normalize_entry names i v) _ h in
    let (rest, later, same) = >>=-eq-ok (normalize_entries (e.template ∷ names) (suc i) vs) _ h1 in
    let (accepted, fresh) = normalize_entry-EntryAccepted names i v e first in
    let ((all_accepted, all_fresh, all_found), counted) =
      normalize_entries-Distinct (e.template ∷ names) (suc i) vs rest later in
    subst (λ es. Distinct names es × (length es ≡ suc (length vs))) (ok-injective same)
      (
        (
          (accepted, all_accepted),
          (fresh, drop_name e.template names rest all_fresh),
          (find-first e rest, find-behind e names rest rest all_fresh all_found),
        ),
        ap suc counted,
      )

-- what a catalog promises
pub record CatalogAccepted (entries : List Entry) : Type 0 where
  pub size : (1 ≤ length entries) × (length entries ≤ 64)
  pub entries_accepted : All EntryAccepted entries
  -- an entry is found by its name, so no two entries have the same name
  pub entries_found : All (λ e. find (named e.template) entries ≡ some e) entries

-- A catalog that is accepted has 1 to 64 entries, each of which is found by its own name, and an entry
-- has a name, a kind, a digest, a bound from 1 to 100, 1 to 64 different roles and at most 32
-- different options, all in their formats.
pub normalize_catalog-CatalogAccepted :
    (catalog : Value) (entries : List Entry)
    → normalize_catalog catalog ≡ ok entries
    → CatalogAccepted entries
unfolding normalize_catalog Distinct
normalize_catalog-CatalogAccepted catalog entries h =
    let (sized, h1) =
      check-then
        (is_array catalog
          && leb 1 (length (elements catalog))
          && leb (length (elements catalog)) 64)
        _ _ h in
    let ((accepted, _, found), counted) =
      normalize_entries-Distinct [] 0 (elements catalog) entries h1 in
    record {
      size = ground (arith, sized, counted);
      entries_accepted = accepted;
      entries_found = found;
    }
