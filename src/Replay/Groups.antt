-- ===== src/Replay/Groups.antt =====
-- The sessions of a journal in packages/journal-replay/src/index.ts: the records grouped by their
-- sessionId, and the orders the inspection puts them in.
use cashblocks.Prelude.{
  Bool, true, false, Option, none, some, List, [], ◌∷◌, ◌++◌, String, str_eq, if◌then◌else◌,
}
use cashblocks.Prelude.Text.{lookup, insert}
use cashblocks.Replay.Types.{JournalRecord}

-- `event.sessionId`, where it is not empty.
abbrev pub scope_of : Option String → Option String
scope_of none = none
scope_of (some id) = if str_eq id "" then none else some id

abbrev pub records_of : Option (List JournalRecord) → List JournalRecord
records_of none = []
records_of (some records) = records

abbrev pub group_under :
    Option String
    → JournalRecord
    → List (String × List JournalRecord)
    → List (String × List JournalRecord)
group_under none r groups = groups
group_under (some id) r groups = insert id (records_of (lookup id groups) ++ (r ∷ [])) groups

unfoldable pub group :
    List JournalRecord → List (String × List JournalRecord) → List (String × List JournalRecord)
unfolding insert lookup
group [] groups = groups
group (r ∷ rs) groups = group rs (group_under (scope_of r.event.draft.session_id) r groups)

abbrev pub is_unscoped : JournalRecord → Bool
is_unscoped r = elim (scope_of r.event.draft.session_id) [ none ↦ true | some id ↦ false ]
