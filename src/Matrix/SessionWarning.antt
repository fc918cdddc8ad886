-- ===== src/Matrix/SessionWarning.antt =====
-- `createRemoteSessionWarningStore` of lib/matrix/remote-session-warning.ts. A set of kinds is the Boolean
-- of each. What the browser's storage does at a call is a parameter of the call: whether it can be
-- read and written, and how many of the three removals of `clear` it takes before it throws.
use sub_etha.Prelude.{
  ℕ, ◌≡◌, Bool, true, false, ◌&&◌, ◌||◌, List, [], ◌∷◌, Option, none, some, if◌then◌else◌, ltb,
  arith,
}

pub data WarningKind : Type 0 where
  logout pending refresh : WarningKind

pub record Kinds : Type 0 where
  pub has_logout : Bool
  pub has_pending : Bool
  pub has_refresh : Bool

abbrev pub contains : Kinds → WarningKind → Bool
contains s logout = s.has_logout
contains s pending = s.has_pending
contains s refresh = s.has_refresh

abbrev pub put : Kinds → WarningKind → Bool → Kinds
put s logout b = record s { has_logout = b }
put s pending b = record s { has_pending = b }
put s refresh b = record s { has_refresh = b }

pub record Access : Type 0 where
  pub readable : Bool
  pub writable : Bool
  pub removals : ℕ

pub record WarningStore : Type 0 where
  pub memory : Kinds
  pub durable : Kinds  -- the keys that the storage holds with "1"

unfoldable pub has : Access → WarningStore → WarningKind → Bool
has access s kind = contains s.memory kind || (access.readable && contains s.durable kind)

unfoldable pub persist : Access → WarningStore → WarningKind → WarningStore
persist access s kind =
    if access.writable
    then record { memory = put s.memory kind false; durable = put s.durable kind true }
    else record s { memory = put s.memory kind true }

-- The most serious warning first.
unfoldable pub read : Access → WarningStore → Option WarningKind
unfolding has
read access s =
    if has access s refresh
    then some refresh
    else if has access s pending
    then some pending
    else if has access s logout
    then some logout
    else none

abbrev none_of : Kinds
none_of = record { has_logout = false; has_pending = false; has_refresh = false }

unfoldable pub clear : Access → WarningStore → WarningStore
clear access s = record {
  memory = none_of;
  durable = record {
    has_logout = if ltb 0 access.removals then false else s.durable.has_logout;
    has_pending = if ltb 1 access.removals then false else s.durable.has_pending;
    has_refresh = if ltb 2 access.removals then false else s.durable.has_refresh;
  };
}

-- Several calls of `persist`, each with what the storage does at it.
unfoldable pub persist_all : WarningStore → List (Access × WarningKind) → WarningStore
unfolding persist
persist_all s [] = s
persist_all s ((access, kind) ∷ calls) = persist_all (persist access s kind) calls

abbrev pub is_kept : WarningStore → WarningKind → Bool
is_kept s kind = contains s.memory kind || contains s.durable kind

persist_keeps :
    (access : Access) (s : WarningStore) (kind other : WarningKind)
    → is_kept s kind ≡ true
    → is_kept (persist access s other) kind ≡ true
unfolding persist
persist_keeps access s logout logout h = ground arith
persist_keeps access s logout pending h = ground arith
persist_keeps access s logout refresh h = ground arith
persist_keeps access s pending logout h = ground arith
persist_keeps access s pending pending h = ground arith
persist_keeps access s pending refresh h = ground arith
persist_keeps access s refresh logout h = ground arith
persist_keeps access s refresh pending h = ground arith
persist_keeps access s refresh refresh h = ground arith

persist_kept :
    (access : Access) (s : WarningStore) (kind : WarningKind)
    → is_kept (persist access s kind) kind ≡ true
unfolding persist
persist_kept access s logout = ground arith
persist_kept access s pending = ground arith
persist_kept access s refresh = ground arith

persist_all_keeps :
    (s : WarningStore) (kind : WarningKind) (calls : List (Access × WarningKind))
    → is_kept s kind ≡ true
    → is_kept (persist_all s calls) kind ≡ true
unfolding persist_all
persist_all_keeps s kind [] h = h
persist_all_keeps s kind ((access, other) ∷ calls) h =
    persist_all_keeps (persist access s other) kind calls (persist_keeps access s kind other h)

has_kept :
    (access : Access) (s : WarningStore) (kind : WarningKind)
    → access.readable ≡ true
    → is_kept s kind ≡ true
    → has access s kind ≡ true
unfolding has
has_kept access s kind h k = ground arith

-- A warning that is persisted, whether the storage takes it or not, is there after any further warnings,
-- whatever the storage does at them, where the storage can then be read.
pub has-persist :
    (access later : Access) (s : WarningStore) (kind : WarningKind)
    (calls : List (Access × WarningKind))
    → later.readable ≡ true
    → has later (persist_all (persist access s kind) calls) kind ≡ true
has-persist access later s kind calls readable =
    has_kept later _ kind readable (persist_all_keeps _ kind calls (persist_kept access s kind))

-- With a storage that takes all removals, nothing is left to show, whatever can be read afterwards.
pub read-clear :
    (access later : Access) (s : WarningStore)
    → ltb 2 access.removals ≡ true
    → read later (clear access s) ≡ none
unfolding read clear has
read-clear access later s h = ground arith
