-- ===== src/Replay/Partition.antt =====
-- How `inspectJournalText` of packages/journal-replay/src/index.ts shares the records of a journal out among
-- its sessions.
use mathlib.Core.Option.{some-injective}
use cashblocks.Prelude.{
  ◌≡◌, refl, sym, ap, ◌∙◌, subst, Bool, true, false, Option, none, some, List, [], ◌∷◌, ◌++◌,
  append_assoc, String, str_eq, eq_iff, arith, if_rule, if◌then◌else◌, filter, All,
}
use cashblocks.Prelude.Text.{lookup, insert, lookup-insert}
use cashblocks.Replay.Types.{JournalRecord}
use cashblocks.Replay.Groups.{scope_of, records_of, group_under, group}

-- The records of a session, in the order of the journal.
abbrev pub is_scope : String → Option String → Bool
is_scope id none = false
is_scope id (some scope) = str_eq scope id

abbrev pub is_in : String → JournalRecord → Bool
is_in id r = is_scope id (scope_of r.event.draft.session_id)

abbrev pub records_with : String → List JournalRecord → List JournalRecord
records_with id records = filter (is_in id) records

abbrev pub Groups : Type 0
Groups = List (String × List JournalRecord)

pub named : (j id : String) → str_eq j id ≡ true → j ≡ id
named j id e = ground (arith, eq_iff j id)

-- What a group becomes by more records.
abbrev pub extend : Option (List JournalRecord) → List JournalRecord → Option (List JournalRecord)
extend found [] = found
extend found (r ∷ rs) = some (records_of found ++ (r ∷ rs))

extend_twice :
    (found : Option (List JournalRecord)) (r : JournalRecord) (rs : List JournalRecord)
    → extend (some (records_of found ++ (r ∷ []))) rs ≡ extend found (r ∷ rs)
extend_twice found r [] = refl
extend_twice found r (s ∷ rs) = ap some (append_assoc (records_of found) (r ∷ []) (s ∷ rs))

chosen :
    (b : Bool) (here found : Option (List JournalRecord)) (r : JournalRecord)
    (rs : List JournalRecord)
    → (b ≡ true → here ≡ found)
    → extend (if b then some (records_of here ++ (r ∷ [])) else found) rs
      ≡ extend found (if b then r ∷ rs else rs)
chosen true here found r rs same =
    ap (λ g. extend (some (records_of g ++ (r ∷ []))) rs) (same refl) ∙ extend_twice found r rs
chosen false here found r rs same = refl

lookup-group_under :
    (id : String) (scope : Option String) (r : JournalRecord) (rs : List JournalRecord)
    (groups : Groups)
    → extend (lookup id (group_under scope r groups)) rs
      ≡ extend (lookup id groups) (if is_scope id scope then r ∷ rs else rs)
lookup-group_under id none r rs groups = refl
lookup-group_under id (some j) r rs groups =
    let written = lookup-insert j id (records_of (lookup j groups) ++ (r ∷ [])) groups in
    ap (λ found. extend found rs) written
    ∙ chosen (str_eq j id) (lookup j groups) (lookup id groups) r rs
        (λ e. ap (λ k. lookup k groups) (named j id e))

-- A session's group is what it was, with the session's records behind it.
pub lookup-group :
    (id : String) (records : List JournalRecord) (groups : Groups)
    → lookup id (group records groups) ≡ extend (lookup id groups) (records_with id records)
unfolding group
lookup-group id [] groups = refl
lookup-group id (r ∷ rs) groups =
    let scope = scope_of r.event.draft.session_id in
    lookup-group id rs (group_under scope r groups)
    ∙ lookup-group_under id scope r (records_with id rs) groups

-- No key twice.
abbrev pub IsDistinct : Groups → Type 0
IsDistinct [] = Unit
IsDistinct ((id, records) ∷ groups) = (lookup id groups ≡ none) × IsDistinct groups

insert-IsDistinct :
    (id : String) (records : List JournalRecord) (groups : Groups)
    → IsDistinct groups
    → IsDistinct (insert id records groups)
unfolding insert lookup
insert-IsDistinct id records [] h = (refl, tt)
insert-IsDistinct id records ((j, v) ∷ groups) h =
    if_rule IsDistinct (str_eq j id) ((id, records) ∷ groups) ((j, v) ∷ insert id records groups)
      (λ e. (subst (λ k. lookup k groups ≡ none) (named j id e) h.0, h.1))
      (λ e. (
        lookup-insert id j records groups
            ∙ absent (str_eq id j) (lookup j groups) (λ f. clash (named id j f) e) h.0,
        insert-IsDistinct id records groups h.1,
      ))
  where
    clash : {id j : String} → id ≡ j → str_eq j id ≡ false → ⊥
    clash {id} {j} same e = ground (arith, eq_iff j id)

    absent :
        (b : Bool) (found : Option (List JournalRecord))
        → (b ≡ true → ⊥)
        → found ≡ none
        → (if b then some records else found) ≡ none
    absent true found never h = absurd (never refl)
    absent false found never h = h

pub group-IsDistinct :
    (records : List JournalRecord) (groups : Groups)
    → IsDistinct groups
    → IsDistinct (group records groups)
unfolding group
group-IsDistinct [] groups h = h
group-IsDistinct (r ∷ rs) groups h =
    group-IsDistinct rs _ (under (scope_of r.event.draft.session_id) r groups h)
  where
    under :
        (scope : Option String) (r : JournalRecord) (groups : Groups)
        → IsDistinct groups
        → IsDistinct (group_under scope r groups)
    under none r groups h = h
    under (some id) r groups h = insert-IsDistinct id _ groups h

-- What the groups are found to hold is what they hold.
entries_hold :
    (groups : Groups) (held : String → Option (List JournalRecord))
    → IsDistinct groups
    → ((id : String) (v : List JournalRecord) → lookup id groups ≡ some v → held id ≡ some v)
    → All (λ e. held e.0 ≡ some e.1) groups
unfolding lookup
entries_hold [] held h agrees = tt
entries_hold ((j, v) ∷ groups) held h agrees = (
  agrees j v (first (str_eq j j) (λ e. clash e)),
  entries_hold groups held h.1 (λ id w found. agrees id w (later id w found)),
)
  where
    clash : str_eq j j ≡ false → ⊥
    clash e = ground (arith, eq_iff j j)

    first : (b : Bool) → (b ≡ false → ⊥) → (if b then some v else lookup j groups) ≡ some v
    first true never = refl
    first false never = absurd (never refl)

    behind :
        (b : Bool) (found : Option (List JournalRecord)) (w : List JournalRecord)
        → (b ≡ true → found ≡ none)
        → found ≡ some w
        → (if b then some v else found) ≡ some w
    behind true found w none_there there = let gone = none_there refl in cc
    behind false found w none_there there = there

    later :
        (id : String) (w : List JournalRecord)
        → lookup id groups ≡ some w
        → (if str_eq j id then some v else lookup id groups) ≡ some w
    later id w found =
        behind (str_eq j id) (lookup id groups) w
          (λ e. subst (λ k. lookup k groups ≡ none) (named j id e) h.0) found

extend-none : (rs v : List JournalRecord) → extend none rs ≡ some v → v ≡ rs
extend-none [] v h = cc
extend-none (r ∷ rs) v h = sym (some-injective (r ∷ rs) v h)

-- Each group holds the records of its session, in the order of the journal.
abbrev pub HoldsRecords : List JournalRecord → Groups → Type 0
HoldsRecords records groups = All (λ e. e.1 ≡ records_with e.0 records) groups

map_all :
    {A : Type 0} (P Q : A → Type 0) (xs : List A) → ((a : A) → P a → Q a) → All P xs → All Q xs
map_all P Q [] f h = tt
map_all P Q (x ∷ xs) f h = (f x h.0, map_all P Q xs f h.1)

pub group-HoldsRecords : (records : List JournalRecord) → HoldsRecords records (group records [])
unfolding lookup
group-HoldsRecords records =
    map_all (λ e. extend none (records_with e.0 records) ≡ some e.1)
      (λ e. e.1 ≡ records_with e.0 records) (group records [])
      (λ e h. extend-none (records_with e.0 records) e.1 h)
      (entries_hold (group records []) (λ id. extend none (records_with id records))
        (group-IsDistinct records [] tt) (λ id v found. sym (lookup-group id records []) ∙ found))
