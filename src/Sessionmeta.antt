-- ===== src/Sessionmeta.antt =====
-- internal/sessionmeta/store.go: what the user decided about each session, kept in a file. A time is
-- the number of nanoseconds since Go's zero time (`IsZero` is 0), a Go map an association list, a Go
-- `int64` an integer, and the file what it decodes to. A write of the file fails or succeeds as the
-- file system says: `writable` is whether encoding, creating the folder, writing the temporary file
-- and renaming it succeed, and nothing changes on disk where one of them fails.
mod Laws
mod Reload
mod Examples
use sr_code.Prelude.{
  ℕ, zero, suc, ◌+◌, String, Bool, true, false, not, ◌&&◌, ◌||◌, Option, none, some, List, [], ◌∷◌,
  map, leb, nat_eq, ◌==◌, nat_has_eq, string_has_eq, if◌then◌else◌,
}
use sr_code.Prelude.Dict.{lookup, insert, remove}
use sr_code.Prelude.Int.{ℤ, pos, negsuc}
use mathlib.Core.Option

pub data ArchiveDecision : Type 0 where
  archived : ArchiveDecision
  shown : ArchiveDecision
  other : String → ArchiveDecision

is_archived : Option ArchiveDecision → Bool
is_archived (some archived) = true
is_archived _ = false

is_shown : Option ArchiveDecision → Bool
is_shown (some shown) = true
is_shown _ = false

-- What `json.Unmarshal` finds in the file.
pub record FileFormat : Type 0 where
  pub archived_map : List (String × ArchiveDecision)
  pub pinned_list : List String
  pub titles_map : List (String × String)
  pub windows_map : List (String × ℤ)

pub record Store : Type 0 where
  pub path : String
  pub auto_after : ℕ
  pub decisions : List (String × ArchiveDecision)
  pub pinned : List (String × Bool)
  pub titles : List (String × String)
  pub windows : List (String × ℤ)

-- The store beside the content of its file; `none` where there is no file that can be read.
pub record World : Type 0 where
  pub store : Store
  pub disk : Option FileFormat

pub is_positive : ℤ → Bool
is_positive (pos zero) = false
is_positive (pos (suc n)) = true
is_positive (negsuc n) = false

-- A negative duration counts as none.
clamp_auto_after : ℤ → ℕ
clamp_auto_after (pos n) = n
clamp_auto_after (negsuc n) = 0

pub is_known : ArchiveDecision → Bool
is_known (other s) = false
is_known _ = true

-- The four loops of `load`.
load_decisions :
    List (String × ArchiveDecision)
    → List (String × ArchiveDecision)
    → List (String × ArchiveDecision)
unfolding insert is_known
load_decisions [] m = m
load_decisions ((k, v) ∷ rest) m = load_decisions rest (if is_known v then insert k v m else m)

load_pinned : List String → List (String × Bool) → List (String × Bool)
unfolding insert
load_pinned [] m = m
load_pinned (id ∷ rest) m = load_pinned rest (insert id true m)

load_titles : List (String × String) → List (String × String) → List (String × String)
unfolding insert
load_titles [] m = m
load_titles ((id, t) ∷ rest) m = load_titles rest (insert id t m)

load_windows : List (String × ℤ) → List (String × ℤ) → List (String × ℤ)
unfolding insert is_positive
load_windows [] m = m
load_windows ((id, w) ∷ rest) m = load_windows rest (if is_positive w then insert id w m else m)

load : Option FileFormat → Store → Store
unfolding load_decisions load_pinned load_titles load_windows
load none s = s
load (some f) s = if s.path == "" then s else record s {
  decisions = load_decisions f.archived_map s.decisions;
  pinned = load_pinned f.pinned_list s.pinned;
  titles = load_titles f.titles_map s.titles;
  windows = load_windows f.windows_map s.windows;
}

-- `New`
unfoldable pub new : String → ℤ → Option FileFormat → Store
unfolding load clamp_auto_after
new path auto_after disk = load disk (record {
  path = path;
  auto_after = clamp_auto_after auto_after;
  decisions = [];
  pinned = [];
  titles = [];
  windows = [];
})

file_format : Store → FileFormat
file_format s = record {
  archived_map = s.decisions;
  pinned_list = map (λ p. p.0) s.pinned;
  titles_map = s.titles;
  windows_map = s.windows;
}

-- The store `s` as it stands, and the file rewritten from it.
persist : Bool → Store → Option FileFormat → World
unfolding file_format
persist writable s disk = record {
  store = s;
  disk = if s.path == "" then disk else if writable then some (file_format s) else disk;
}

int_eq : ℤ → ℤ → Bool
int_eq (pos a) (pos b) = nat_eq a b
int_eq (negsuc a) (negsuc b) = nat_eq a b
int_eq _ _ = false

-- Go's zero value stands for a missing key.
unfoldable pub context_window : String → Store → ℤ
unfolding lookup
context_window id s = Option.get_or (lookup id s.windows) (pos 0)

unfoldable pub is_pinned : String → Store → Bool
unfolding lookup
is_pinned id s = Option.get_or (lookup id s.pinned) false

unfoldable pub custom_title : String → Store → String
unfolding lookup
custom_title id s = Option.get_or (lookup id s.titles) ""

-- `now.Sub(lastEventAt) <= s.autoAfter`, over the integers
within : ℕ → ℕ → ℕ → Bool
within auto_after last_event_at now = leb now (last_event_at + auto_after)

unfoldable pub is_archived_at : String → ℕ → ℕ → Store → Bool
unfolding lookup is_archived within
is_archived_at id last_event_at now s = elim (lookup id s.decisions) [
  | some d ↦ is_archived (some d)
  | none ↦
      if nat_eq s.auto_after 0 || nat_eq last_event_at 0
      then false
      else not (within s.auto_after last_event_at now)
]

unfoldable pub save_context_window : Bool → String → ℤ → World → World
unfolding is_positive int_eq context_window persist insert
save_context_window writable id window w =
    if id == "" || not (is_positive window)
    then w
    else if int_eq (context_window id w.store) window
    then w
    else persist writable (record w.store { windows = insert id window w.store.windows }) w.disk

unfoldable pub archive : Bool → String → World → World
unfolding is_archived persist insert lookup
archive writable id w =
    if is_archived (lookup id w.store.decisions)
    then w
    else persist writable (record w.store { decisions = insert id archived w.store.decisions })
        w.disk

has {ℓ} : {V : Type ℓ} → String → List (String × V) → Bool
unfolding lookup
has id m = elim (lookup id m) [ none ↦ false | some v ↦ true ]

unfoldable pub unarchive : Bool → String → ℕ → ℕ → World → World
unfolding is_shown persist insert remove has within
unarchive writable id last_event_at now w =
    if nat_eq w.store.auto_after 0
      || (not (nat_eq last_event_at 0) && within w.store.auto_after last_event_at now)
    then (if has id w.store.decisions
        then persist writable (record w.store { decisions = remove id w.store.decisions }) w.disk
        else w)
    else if is_shown (lookup id w.store.decisions)
    then w
    else persist writable (record w.store { decisions = insert id shown w.store.decisions }) w.disk

unfoldable pub pin : Bool → String → World → World
unfolding is_pinned persist insert
pin writable id w =
    if is_pinned id w.store
    then w
    else persist writable (record w.store { pinned = insert id true w.store.pinned }) w.disk

unfoldable pub unpin : Bool → String → World → World
unfolding is_pinned persist remove
unpin writable id w =
    if is_pinned id w.store
    then persist writable (record w.store { pinned = remove id w.store.pinned }) w.disk
    else w

unfoldable pub rename : Bool → String → String → World → World
unfolding persist insert remove
rename writable id title w =
    persist writable
      (record w.store {
        titles = if title == "" then remove id w.store.titles else insert id title w.store.titles;
      })
      w.disk

-- Drops all that is known of the session.
unfoldable pub forget : Bool → String → World → World
unfolding is_pinned persist remove has
forget writable id w =
    if not (has id w.store.decisions)
      && not (is_pinned id w.store)
      && not (has id w.store.titles)
      && not (has id w.store.windows)
    then w
    else persist writable
        (record w.store {
          decisions = remove id w.store.decisions;
          pinned = remove id w.store.pinned;
          titles = remove id w.store.titles;
          windows = remove id w.store.windows;
        })
        w.disk
