-- ===== src/Matrix/Drafts.antt =====
-- lib/matrix/drafts.ts: the drafts in memory as an association list with a key once, and the removal of
-- the drafts that earlier versions kept in the browser's storage, whose entries are in its order.
pub mod Changes
use sub_etha.Prelude.{
  ◌≡◌, refl, Text, codes, text_eq, text_eq_iff, is_empty, Bool, true, false, not, List, [], ◌∷◌,
  ◌++◌, if◌then◌else◌, filter_by, starts_with, arith,
}

abbrev pub Drafts : Type 0
Drafts = List (Text × Text)

-- `drafts.get(key) ?? ""`
unfoldable pub read_memory_draft : Drafts → Text → Text
unfolding text_eq
read_memory_draft [] room = []
read_memory_draft ((k, body) ∷ drafts) room =
    let rest = read_memory_draft drafts room in if text_eq k room then body else rest

unfoldable pub remove_memory_draft : Drafts → Text → Drafts
unfolding text_eq
remove_memory_draft drafts room = filter_by (λ d. not (text_eq d.0 room)) drafts

unfoldable pub write_memory_draft : Drafts → (room body : Text) → Drafts
unfolding remove_memory_draft
write_memory_draft drafts room body =
    if is_empty body
    then remove_memory_draft drafts room
    else (room, body) ∷ remove_memory_draft drafts room

abbrev pub clear_memory_drafts : Drafts → Drafts
clear_memory_drafts drafts = []

abbrev pub draft_key_prefix : Text
draft_key_prefix = codes "sub-etha-draft:"

abbrev pub legacy_draft_storage_key : Text → Text
legacy_draft_storage_key room = draft_key_prefix ++ room

-- The keys that are collected, and the entries that are left when they are removed.
unfoldable pub legacy_keys : List (Text × Text) → List Text
unfolding starts_with
legacy_keys [] = []
legacy_keys ((key, value) ∷ entries) =
    let rest = legacy_keys entries in if starts_with key draft_key_prefix then key ∷ rest else rest

abbrev pub remove_item : List (Text × Text) → Text → List (Text × Text)
remove_item entries key = filter_by (λ e. not (text_eq e.0 key)) entries

unfoldable pub remove_items : List (Text × Text) → List Text → List (Text × Text)
unfolding text_eq
remove_items entries [] = entries
remove_items entries (key ∷ keys) = remove_items (remove_item entries key) keys

unfoldable pub clear_legacy_persisted_drafts : List (Text × Text) → List (Text × Text)
unfolding legacy_keys remove_items
clear_legacy_persisted_drafts entries = remove_items entries (legacy_keys entries)

pub read-remove :
    (drafts : Drafts) (room other : Text)
    → read_memory_draft (remove_memory_draft drafts room) other
      ≡ (if text_eq room other then [] else read_memory_draft drafts other)
unfolding read_memory_draft remove_memory_draft
read-remove [] room other = ground arith
read-remove ((k, body) ∷ drafts) room other = ground (
  arith,
  read-remove drafts room other,
  text_eq_iff k room,
  text_eq_iff k other,
  text_eq_iff room other,
)

read-behind :
    (same : Bool) (body rest before : Text)
    → rest ≡ (if same then [] else before)
    → (if same then body else rest) ≡ (if same then body else before)
read-behind true body rest before h = refl
read-behind false body rest before h = h

-- One write.
pub read-write_memory_draft :
    (drafts : Drafts) (room body other : Text)
    → read_memory_draft (write_memory_draft drafts room body) other
      ≡ (if text_eq room other then body else read_memory_draft drafts other)
unfolding write_memory_draft read_memory_draft
read-write_memory_draft drafts room [] other = read-remove drafts room other
read-write_memory_draft drafts room (c ∷ body) other =
    read-behind (text_eq room other) (c ∷ body) _ _ (read-remove drafts room other)
