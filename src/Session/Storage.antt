-- ===== src/Session/Storage.antt =====
-- include/session/SessionStorage.h and src/session/SessionStorage.cpp: the storage interface of the
-- session manager, and the storage in memory. The clock is read by the caller of the model and
-- passed as `now`, in milliseconds; the mutex makes each call one step. Pointers are not null.
use jingjie_ar.Int.{◌≤ℤ◌, ℤ}
use jingjie_ar.Text.{is_empty, Bytes}
use jingjie_ar.Prelude.{
  ◌≡◌, Bool, true, false, Option, none, some, List, arith, if◌then◌else◌, ◌==◌, ==_iff, nat_eq,
  list_eq, lookup, insert, erase, has_key, lookup-insert, lookup-erase,
}
use jingjie_ar.Session.Value.{Session, expired}

-- The virtual functions, over a state.
pub record Storage (S : Type 0) : Type 0 where
  pub save : Session → S → Bool × S
  pub load : ℤ → Bytes → S → Option Session × S
  pub remove : Bytes → S → Bool × S

-- MemorySessionStorage: sessions by their id.
abbrev pub Memory : Type 0
Memory = List (Bytes × Session)

unfoldable pub memory_save : Session → Memory → Bool × Memory
memory_save s m = if is_empty s.id then (false, m) else (true, insert s.id s m)

-- An expired session is erased when it is asked for.
unfoldable pub memory_load : ℤ → Bytes → Memory → Option Session × Memory
memory_load now id m = elim (lookup id m) [
  | none ↦ (none, m)
  | some s ↦ if expired now s then (none, erase id m) else (some s, m)
]

unfoldable pub memory_remove : Bytes → Memory → Bool × Memory
memory_remove id m = (has_key id m, erase id m)

abbrev pub memory_storage : Storage Memory
memory_storage = record { save = memory_save; load = memory_load; remove = memory_remove }

-- What a reader gets for an id at a time.
abbrev pub found : ℤ → Bytes → Memory → Option Session
found now id m = (memory_load now id m).0

live : ℤ → Option Session → Option Session
live now none = none
live now (some s) = if expired now s then none else some s

found-live : (now : ℤ) (id : Bytes) (m : Memory) → found now id m ≡ live now (lookup id m)
unfolding memory_load live
found-live now id m = ground arith

-- After a save the id reads as the saved session for as long as that has not expired, and every
-- other id reads as before. A session with no id is refused and changes nothing.
pub found-memory_save :
    (now : ℤ) (j : Bytes) (s : Session) (m : Memory)
    → found now j (memory_save s m).1 ≡ (
        if is_empty s.id
        then found now j m
        else if s.id == j
        then (if expired now s then none else some s)
        else found now j m)
unfolding memory_save live
found-memory_save now j s m =
    ground (arith, found-live now j m, found-live now j (insert s.id s m), lookup-insert s.id j s m)

-- A load, with the erasure of an expired session that it may make, changes no answer at that time
-- or later, for any id.
pub found-memory_load :
    (now later : ℤ) (id j : Bytes) (m : Memory)
    → now ≤ℤ later
    → found later j (memory_load now id m).1 ≡ found later j m
unfolding memory_load live expired
found-memory_load now later id j m h =
    ground (
      arith,
      found-live later j m,
      found-live later j (erase id m),
      lookup-erase id j m,
      ==_iff id j,
    )

-- After a removal the id reads as absent at every time, and every other id as before.
pub found-memory_remove :
    (now : ℤ) (id j : Bytes) (m : Memory)
    → found now j (memory_remove id m).1 ≡ (if id == j then none else found now j m)
unfolding memory_remove live
found-memory_remove now id j m =
    ground (arith, found-live now j m, found-live now j (erase id m), lookup-erase id j m)
