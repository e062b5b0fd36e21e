-- ===== src/Session/Value.antt =====
-- include/session/Session.h and src/session/Session.cpp: the session value.
use jingjie_ar.Http.Request.{Fields}
use jingjie_ar.Text.{Bytes}
use jingjie_ar.Prelude.{Bool, not, none, some, [], nat_eq, list_eq, lookup, insert, erase, has_key}
use jingjie_ar.Int.{ℤ, pos, ◌+ℤ◌, ◌*ℤ◌, ltb_ℤ}

pub record Session : Type 0 where
  pub id : Bytes
  pub values : Fields
  pub expires_at : ℤ
  pub ttl_seconds : ℤ

-- The default constructor.
abbrev pub no_session : Session
no_session = record { id = []; values = []; expires_at = pos 0; ttl_seconds = pos 0 }

abbrev pub make_session : Bytes → ℤ → ℤ → Session
make_session id expires ttl = record {
  id = id;
  values = [];
  expires_at = expires;
  ttl_seconds = ttl;
}

unfoldable pub set_value : Bytes → Bytes → Session → Session
set_value k v s = record s { values = insert k v s.values }

unfoldable pub value : Bytes → Session → Bytes
value k s = elim (lookup k s.values) [ none ↦ [] | some v ↦ v ]

-- The session without the key, and whether it had it.
unfoldable pub remove : Bytes → Session → Session × Bool
remove k s = (record s { values = erase k s.values }, has_key k s.values)

unfoldable pub clear : Session → Session
clear s = record s { values = [] }

unfoldable pub refresh : ℤ → Session → Session
refresh now s = record s { expires_at = now +ℤ s.ttl_seconds *ℤ pos 1000 }

-- expiresAt_ <= nowMs
unfoldable pub expired : ℤ → Session → Bool
expired now s = not (ltb_ℤ now s.expires_at)
