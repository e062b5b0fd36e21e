-- ===== src/Services/Sessions.antt =====
-- The service of the collaboration sessions: WebApps/ARServer/include/services/SessionService.h and
-- WebApps/ARServer/src/services/SessionService.cpp. A callback is the result of the operation, over
-- a world W in which databases, caches and worker threads live; a null pointer is `none`.
pub mod Stores
pub mod Cache
pub mod Cached
pub mod Revival
mod Tests
pub mod Tombstone
pub mod InRedis
use jingjie_ar.Prelude.{
  ℕ, zero, suc, ◌+◌, ◌-◌, ◌*◌, ◌/◌, ◌%◌, ◌^◌, ◌≤◌, ◌<◌, min, max, ◌≡◌, refl, sym, ap, ap₂, ◌∙◌,
  subst, ◌≢◌, ◌↔◌, ◌⊎◌, inl, inr, Bool, true, false, not, ◌&&◌, ◌||◌, Option, none, some, List, [],
  ◌∷◌, ◌++◌, map, reverse, append-nil, append_assoc, reverse-cons, arith, ltb, leb, if◌then◌else◌,
  ltb→lt, lt→ltb, leb→le, nat_beq_iff, tests, Bool-cases, if_ind, Option-cases, some_inj, Eq, ◌==◌,
  ==_iff, ==_refl, nat_eq, list_eq, lookup, insert, erase, has_key, lookup-insert,
  lookup-insert_self, lookup-erase, has_key-insert, IsMap, insert-IsMap, insert_new, AreApart,
  AreApart-insert, AreApart-nil, length, get_elem?, set, get_or, take, drop, replicate,
  length-append, length-take, length-drop, length-replicate, length-map, take-append-drop,
  drop_of_length-le, take_of_length-le, drop_nil, take_nil, drop-drop, drop-take, take-take_le,
  drop-append_le, take-append_le, take-append_ge, drop-append_ge, take-append_length,
  drop-append_length,
}
use jingjie_ar.Caches.SessionCache.{DbSession}
use jingjie_ar.Text.{Bytes, is_empty}
use jingjie_ar.Int.{ℤ, pos, negsuc}

-- SessionStore
pub record SessionStore (W : Type 0) : Type 0 where
  pub find : Bytes → W → Option DbSession × W
  pub enter : ℕ → Bytes → W → Bool × W
  pub exit : ℕ → W → Bool × W
  pub revoke : Bytes → W → Bool × W
  pub invalidate : Bytes → W → W

pub data EnterResult : Type 0 where
  enter_ok : EnterResult
  enter_session_not_found : EnterResult
  enter_unavailable : EnterResult

pub data LogoutResult : Type 0 where
  logout_ok : LogoutResult
  logout_unavailable : LogoutResult

-- The comparison of a status with a literal.
abbrev pub is_status : ℕ → ℤ → Bool
is_status n (pos m) = m == n
is_status n (negsuc m) = false

abbrev pub enter_result : Bool → EnterResult
enter_result true = enter_ok
enter_result false = enter_unavailable

abbrev pub logout_result : Bool → LogoutResult
logout_result true = logout_ok
logout_result false = logout_unavailable

abbrev pub is_enter_ok : EnterResult → Bool
is_enter_ok enter_ok = true
is_enter_ok enter_session_not_found = false
is_enter_ok enter_unavailable = false

abbrev pub is_logout_ok : LogoutResult → Bool
is_logout_ok logout_ok = true
is_logout_ok logout_unavailable = false

module _ {W : Type 0} where
  -- SessionService::get
  unfoldable pub get : Option (SessionStore W) → Bytes → W → Option DbSession × W
  get none token w = (none, w)
  get (some store) token w = if is_empty token then (none, w) else store.find token w

  -- The cached copy of a session is dropped after a change of its row.
  abbrev pub invalidated : SessionStore W → Bytes → Bool × W → W
  invalidated store token (true, w) = store.invalidate token w
  invalidated store token (false, w) = w

  -- The callback that enterDetailed gives to get.
  unfoldable pub enter_found :
      Option (SessionStore W) → Bytes → Bytes → Option DbSession → W → EnterResult × W
  enter_found store token scene none w = (enter_session_not_found, w)
  enter_found none token scene (some s) w = (enter_unavailable, w)
  enter_found (some store) token scene (some s) w =
      let out : Bool × W = store.enter s.id scene w in
      if is_empty scene
      then (enter_unavailable, w)
      else (enter_result out.0, invalidated store token out)

  -- SessionService::enterDetailed
  unfoldable pub enter_detailed : Option (SessionStore W) → Bytes → Bytes → W → EnterResult × W
  enter_detailed store token scene w =
      let found : Option DbSession × W = get store token w in
      enter_found store token scene found.0 found.1

  -- SessionService::enter
  unfoldable pub enter : Option (SessionStore W) → Bytes → Bytes → W → Bool × W
  enter store token scene w =
      let out : EnterResult × W = enter_detailed store token scene w in (is_enter_ok out.0, out.1)

  -- The callback that exit gives to get.
  unfoldable pub exit_found : Option (SessionStore W) → Bytes → Option DbSession → W → Bool × W
  exit_found store token none w = (false, w)
  exit_found none token (some s) w = (false, w)
  exit_found (some store) token (some s) w =
      let out : Bool × W = store.exit s.id w in
      if is_status 0 s.status then (false, w) else (out.0, invalidated store token out)

  -- SessionService::exit
  unfoldable pub exit : Option (SessionStore W) → Bytes → W → Bool × W
  exit store token w =
      let found : Option DbSession × W = get store token w in exit_found store token found.0 found.1

  -- SessionService::logout
  unfoldable pub logout : Option (SessionStore W) → Bytes → W → LogoutResult × W
  logout none token w = (logout_unavailable, w)
  logout (some store) token w =
      let out : Bool × W = store.revoke token w in
      if is_empty token then (logout_unavailable, w) else (logout_result out.0, out.1)
