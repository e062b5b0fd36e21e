-- ===== src/Session/Manager.antt =====
-- include/session/SessionManager.h and src/session/SessionManager.cpp, over any storage. A manager
-- without a storage (a null pointer) is `none`. The clock is read once in each call, as `now`.
pub mod Sliding
use jingjie_ar.Int.{pos, ◌*ℤ◌, ◌+ℤ◌, ℤ}
use jingjie_ar.Session.Value.{make_session, refresh, no_session, Session}
use jingjie_ar.Http.Request.{query_parameters, cookie, get_header, Request}
use jingjie_ar.Text.{is_empty, bytes, Bytes}
use jingjie_ar.Session.Storage.{Storage}
use jingjie_ar.Prelude.{
  ℕ, zero, suc, ◌+◌, ◌-◌, ◌*◌, ◌/◌, ◌%◌, ◌^◌, ◌≤◌, ◌<◌, min, max, ◌≡◌, refl, sym, ap, ap₂, ◌∙◌,
  subst, ◌≢◌, ◌↔◌, ◌⊎◌, inl, inr, Bool, true, false, not, ◌&&◌, ◌||◌, Option, none, some, List, [],
  ◌∷◌, ◌++◌, map, reverse, append-nil, append_assoc, arith, ltb, leb, if◌then◌else◌, ltb→lt, lt→ltb,
  leb→le, tests, Bool-cases, Option-cases, some_inj, Eq, ◌==◌, ==_iff, ==_refl, nat_eq, list_eq,
  lookup, insert, erase, has_key, lookup-insert, lookup-insert_self, lookup-erase, has_key-insert,
  IsMap, insert-IsMap, insert_new, AreApart, AreApart-insert, AreApart-nil, length, get_elem?, set,
  get_or, take, drop, replicate, length-append, length-take, length-drop, length-replicate,
  length-map, take-append-drop, drop_of_length-le, take_of_length-le, drop_nil, take_nil, drop-drop,
  drop-take, take-take_le, drop-append_le, take-append_le, take-append_ge, drop-append_ge,
  take-append_length, drop-append_length,
}

-- The name of the session query parameter, cookie and authorization scheme.
abbrev pub bearer_prefix : Bytes
bearer_prefix = bytes "Bearer "

module _ {S : Type 0} (storage : Storage S) where
  open storage use {save, load, remove}

  -- SessionManager::create, with the identifier that secureId gave.
  unfoldable pub create : ℤ → ℤ → Bytes → Option S → Session × Option S
  create ttl now id none = (no_session, none)
  create ttl now id (some s) =
      if is_empty id
      then (no_session, some s)
      else let session = make_session id (now +ℤ ttl *ℤ pos 1000) ttl in
        let (saved, s') = save session s in (if saved then session else no_session, some s')

  unfoldable pub save_session : Session → Option S → Bool × Option S
  save_session session none = (false, none)
  save_session session (some s) = let (saved, s') = save session s in (saved, some s')

  unfoldable pub load_session : ℤ → Bytes → Option S → Option Session × Option S
  load_session now id none = (none, none)
  load_session now id (some s) = let (session, s') = load now id s in (session, some s')

  -- What `refresh` does with the answer of its load.
  unfoldable pub save_refreshed : ℤ → Option Session → S → Option Session × Option S
  save_refreshed now none s = (none, some s)
  save_refreshed now (some session) s =
      let (saved, s') = save (refresh now session) s in
      (if saved then some (refresh now session) else none, some s')

  unfoldable pub refresh_session : ℤ → Bytes → Option S → Option Session × Option S
  unfolding save_refreshed
  refresh_session now id none = (none, none)
  refresh_session now id (some s) =
      let (session, s') = load now id s in save_refreshed now session s'

  unfoldable pub destroy : Bytes → Option S → Bool × Option S
  destroy id none = (false, none)
  destroy id (some s) = let (removed, s') = remove id s in (removed, some s')

  -- The Boolean that `validate` hands to its completion.
  unfoldable pub validate : ℤ → Bytes → Option S → Bool × Option S
  unfolding load_session
  validate now token s =
      if is_empty token
      then (false, s)
      else let (session, s') = load_session now token s in
        (elim session [ none ↦ false | some _ ↦ true ], s')

-- The token of a request: a Bearer authorization, else the session cookie, else the query.
unfoldable pub extract_token : Request → Bytes
extract_token r =
    let authorization = get_header (bytes "Authorization") r in
    let session_id = cookie (bytes "sessionId") r in
    if take 7 authorization == bearer_prefix && ltb 7 (length authorization)
    then drop 7 authorization
    else if not (is_empty session_id)
    then session_id
    else elim (lookup (bytes "token") (query_parameters r).0) [ none ↦ [] | some token ↦ token ]
