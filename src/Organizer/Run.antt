-- ===== src/Organizer/Run.antt =====
-- `validateOrganizerInput` and the part of `runOrganizerCore` of src/organize.mjs after the agents have
-- answered; their calls, the time limits and the prompt are outside.
pub mod Selected
use bimo.Base.{
  ℕ, suc, String, Bool, true, false, not, List, [], ◌∷◌, map, find, length, len, leb, ◌<>◌, decimal,
  Option, none, some, Result, ok, err, check, ◌>>◌, ◌>>=◌, ◌&&◌, if◌then◌else◌, some_code,
  is_unsafe_control,
}
use bimo.Js.{
  Value, nat, str, arr, texts, from_list, object, get, has_own, is_string, is_plain_object,
  in_range, nat_of, text_of,
}
use bimo.Contract.Fields.{Checked, is_blank}
use bimo.Organizer.Catalog.{Entry, Vote, named, normalize_catalog, receipt_for_agent}
use bimo.Organizer.Vote.{choose_template}

-- `validatePrompt`
unfoldable pub validate_prompt : Value → Checked
validate_prompt prompt = do
  check (is_string prompt && not (is_blank (text_of prompt))) "prompt must be a non-empty string"
  check (leb (len (text_of prompt)) 65536) "prompt must be no larger than 65536 UTF-8 bytes"
  check (not (some_code is_unsafe_control (text_of prompt)))
      "prompt contains unsafe control characters"

-- `validateOrganizerInput`: the normalized catalog
unfoldable pub validate_organizer_input : Value → Value → Value → Result (List Entry)
validate_organizer_input prompt agents catalog = do
  validate_prompt prompt
  check (in_range agents 1 3) "agents must be an integer from 1 to 3"
  normalize_catalog catalog

abbrev pub receipt_in : Value → Value
receipt_in raw = if is_plain_object raw && has_own raw "receipt" then get raw "receipt" else raw

abbrev pub for_agent : ℕ → Result Vote → Result Vote
for_agent i (ok vote) = ok vote
for_agent i (err e) = err ("agent " <> decimal (suc i) <> " returned an invalid receipt: " <> e)

-- `rawReceipts.map(...)`, from the index given
unfoldable pub votes_from : List Entry → ℕ → List Value → Result (List Vote)
votes_from catalog i [] = ok []
votes_from catalog i (raw ∷ rest) = do
  vote ← for_agent i (receipt_for_agent (receipt_in raw) catalog)
  votes ← votes_from catalog (suc i) rest
  ok (vote ∷ votes)

abbrev pub template_of : Vote → String
template_of v = v.template

pub record Selection : Type 0 where
  pub entry : Entry
  pub votes : List Vote

-- the entry of the chosen template
abbrev pub selection : List Vote → Option Entry → Result Selection
selection votes none = err "Cannot read properties of undefined"
selection votes (some entry) = ok (record { entry = entry; votes = votes })

-- the selection of the template, given the answers of the agents
unfoldable pub select : (String → String → Bool) → List Entry → ℕ → List Value → Result Selection
select precedes catalog agents answers = do
  votes ← votes_from catalog 0 answers
  chosen ← choose_template precedes (map template_of votes) agents
  selection votes (find (named chosen) catalog)

abbrev vote_value : Vote → Value
vote_value v = object (
    ("template", str v.template)
    ∷ ("templateDigest", str v.template_digest)
    ∷ ("reason", str v.reason)
    ∷ [])

-- what `runOrganizerCore` returns
unfoldable pub organizer_result : (String → String) → Value → Value → Selection → Value
organizer_result sha256 prompt agents s = object (
    ("version", nat 1)
    ∷ ("status", str "planned")
    ∷ ("promptSha256", str (sha256 (text_of prompt)))
    ∷ ("template", str s.entry.template)
    ∷ ("templateDigest", str s.entry.template_digest)
    ∷ ("agents", agents)
    ∷ ("votes", arr (from_list (map vote_value s.votes)))
    ∷ (
      "handoff",
      object (
          ("template", str s.entry.template)
          ∷ ("templateDigest", str s.entry.template_digest)
          ∷ ("acceptedOptions", arr (texts s.entry.accepted_options))
          ∷ []),
    )
    ∷ [])
