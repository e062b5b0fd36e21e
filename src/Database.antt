-- ===== src/Database.antt =====
-- What the sources of src/db ask of the C interface of MySQL, a library that is not part of the
-- repository: the statements they prepare, the parameters bound to them and what is read back.
pub mod ArtworkDao
pub mod SceneDao
pub mod SessionDao
use jingjie_ar.Prelude.{
  ℕ, zero, suc, ◌+◌, ◌-◌, ◌*◌, ◌/◌, ◌%◌, ◌^◌, ◌≤◌, ◌<◌, min, max, ◌≡◌, refl, sym, ap, ap₂, ◌∙◌,
  subst, ◌≢◌, ◌↔◌, ◌⊎◌, inl, inr, Bool, true, false, not, ◌&&◌, ◌||◌, Option, none, some, List, [],
  ◌∷◌, ◌++◌, map, reverse, append-nil, append_assoc, reverse-cons, arith, ltb, leb, if◌then◌else◌,
  ltb→lt, lt→ltb, leb→le, nat_beq_iff, tests, Bool-cases, if_ind, Option-cases, some_inj, Eq, ◌==◌,
  ==_iff, ==_refl, nat_eq, list_eq, lookup, insert, erase, has_key, lookup-insert,
  lookup-insert_self, lookup-erase, has_key-insert, IsMap, insert-IsMap, insert_new, AreApart,
  AreApart-insert, AreApart-nil, length, get_elem?, set, get_or, take, drop, replicate,
  length-append, length-take, length-drop, length-replicate, length-map, take-append-drop,
  drop_of_length-le, take_of_length-le, drop_nil, take_nil, drop-drop, drop-take, take-take_le,
  drop-append_le, take-append_le, take-append_ge, drop-append_ge, take-append_length,
  drop-append_length,
}
use jingjie_ar.Text.{Bytes}
use jingjie_ar.Int.{ℤ}

-- A parameter or a column: a text is what the buffer of the column holds before its terminator.
pub data Value : Type 0 where
  number : ℕ → Value
  signed : ℤ → Value
  text : Bytes → Value

-- What mysql_stmt_execute did: `failed` with the error's number, or `done` with the affected rows,
-- the insert id, the rows that mysql_stmt_fetch reads and whether they end without an error.
pub data Answer : Type 0 where
  failed : ℕ → Answer
  done : ℕ → ℕ → List (List Value) → Bool → Answer

-- A server, with the pool of workers and of connections before it, over its state. `prepares` is
-- whether the pool takes the task and lends it a connection on which the statement is prepared.
pub record MySql (D : Type 0) : Type 0 where
  pub prepares : Bytes → D → Bool
  pub binds : Bytes → List Value → D → Bool
  pub execute : Bytes → List Value → D → Answer × D

abbrev pub succeeded : Answer → Bool
succeeded (failed e) = false
succeeded (done n id rows e) = true

abbrev pub insert_id : Answer → ℕ
insert_id (failed e) = 0
insert_id (done n id rows e) = id

abbrev pub affected_rows : Answer → ℕ
affected_rows (failed e) = 0
affected_rows (done n id rows e) = n

abbrev pub rows_of : Answer → List (List Value)
rows_of (failed e) = []
rows_of (done n id rows e) = rows

abbrev pub ends_well : Answer → Bool
ends_well (failed e) = false
ends_well (done n id rows e) = e

module _ {D : Type 0} (sql : MySql D) where
  -- A statement that is prepared and executed whether or not its parameters were bound.
  unfoldable pub statement : Bytes → List Value → D → Answer × D
  statement words ps d = if sql.prepares words d then sql.execute words ps d else (failed 0, d)

  -- A statement that is executed only if its parameters were bound.
  unfoldable pub bound_statement : Bytes → List Value → D → Answer × D
  bound_statement words ps d =
      if sql.prepares words d && sql.binds words ps d then sql.execute words ps d else (failed 0, d)
