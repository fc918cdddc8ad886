-- ===== src/Matrix/Drafts/Changes.antt =====
-- Any sequence of writes, removals and clearings of the drafts of lib/matrix/drafts.ts.
use sub_etha.Prelude.{
  ◌≡◌, refl, ap, ◌∙◌, Text, text_eq, text_eq_comm, is_empty, Bool, false, not, List, [], ◌∷◌, any,
  if◌then◌else◌, arith, Keyed, Keyed-filter_by, any-filter_by_le, if_intro,
}
use sub_etha.Matrix.Drafts.{
  Drafts, read_memory_draft, write_memory_draft, remove_memory_draft, clear_memory_drafts,
  read-write_memory_draft, read-remove,
}

pub data Change : Type 0 where
  write : (room body : Text) → Change
  remove : (room : Text) → Change
  clear : Change

unfoldable pub change : Change → Drafts → Drafts
change (write room body) drafts = write_memory_draft drafts room body
change (remove room) drafts = remove_memory_draft drafts room
change clear drafts = clear_memory_drafts drafts

unfoldable pub change_all : List Change → Drafts → Drafts
change_all [] drafts = drafts
change_all (c ∷ cs) drafts = change_all cs (change c drafts)

-- The text of a room after changes, from the one before.
unfoldable pub last_body : List Change → (room before : Text) → Text
unfolding text_eq
last_body [] room before = before
last_body (write other body ∷ cs) room before =
    last_body cs room (if text_eq other room then body else before)
last_body (remove other ∷ cs) room before =
    last_body cs room (if text_eq other room then [] else before)
last_body (clear ∷ cs) room before = last_body cs room []

abbrev pub same_room : Text × Text → Text × Text → Bool
same_room d e = text_eq d.0 e.0

-- A room has one entry at most, and no entry is empty.
abbrev pub IsKept : Drafts → Type 0
IsKept drafts = Keyed same_room drafts × (any (λ d. is_empty d.1) drafts ≡ false)

remove_memory_draft-IsKept :
    (drafts : Drafts) (room : Text) → IsKept drafts → IsKept (remove_memory_draft drafts room)
unfolding remove_memory_draft
remove_memory_draft-IsKept drafts room (keyed, full) = (
  Keyed-filter_by same_room (λ d. not (text_eq d.0 room)) drafts keyed,
  any-filter_by_le (λ d. is_empty d.1) (λ d. not (text_eq d.0 room)) drafts full,
)

removed :
    (drafts : Drafts) (room body : Text)
    → any (same_room (room, body)) (remove_memory_draft drafts room) ≡ false
unfolding remove_memory_draft
removed [] room body = refl
removed (d ∷ drafts) room body = ground (arith, removed drafts room body, text_eq_comm room d.0)

change-IsKept : (c : Change) (drafts : Drafts) → IsKept drafts → IsKept (change c drafts)
unfolding change write_memory_draft
change-IsKept (write room body) drafts h =
    let left = remove_memory_draft-IsKept drafts room h in
    if_intro IsKept (is_empty body) _ _ (λ _. left)
      (λ full. ((removed drafts room body, left.0), ground (arith, left.1)))
change-IsKept (remove room) drafts h = remove_memory_draft-IsKept drafts room h
change-IsKept clear drafts h = (tt, refl)

read-change :
    (c : Change) (drafts : Drafts) (room : Text)
    → read_memory_draft (change c drafts) room
      ≡ last_body (c ∷ []) room (read_memory_draft drafts room)
unfolding change last_body read_memory_draft
read-change (write other body) drafts room = read-write_memory_draft drafts other body room
read-change (remove other) drafts room = read-remove drafts other room
read-change clear drafts room = refl

last_body-cons :
    (c : Change) (cs : List Change) (room before : Text)
    → last_body cs room (last_body (c ∷ []) room before) ≡ last_body (c ∷ cs) room before
unfolding last_body
last_body-cons (write other body) cs room before = refl
last_body-cons (remove other) cs room before = refl
last_body-cons clear cs room before = refl

-- Where no room has two entries and no entry an empty text: after any sequence of writes, removals and
-- clearings the same holds, and a room's draft is the text that was last written for it, or the empty one
-- if it was removed or cleared since then, or what it was before where none of these was done.
pub read-change_all :
    (cs : List Change) (drafts : Drafts) (room : Text)
    → IsKept drafts
    → IsKept (change_all cs drafts)
      × (read_memory_draft (change_all cs drafts) room
          ≡ last_body cs room (read_memory_draft drafts room))
unfolding change_all last_body
read-change_all [] drafts room h = (h, refl)
read-change_all (c ∷ cs) drafts room h =
    let (kept, same) = read-change_all cs (change c drafts) room (change-IsKept c drafts h) in
    (
      kept,
      same
          ∙ ap (last_body cs room) (read-change c drafts room)
          ∙ last_body-cons c cs room (read_memory_draft drafts room),
    )
