-- ===== src/Services/Scene.antt =====
-- Likes and comments of scenes: SceneInteractionService of
-- WebApps/ARServer/src/services/SceneInteractionService.cpp with the ids of
-- WebApps/ARServer/src/catalog/SceneCatalog.cpp, over a world W in which the sessions and the database
-- live. A callback is the result; a null pointer is `none`.
pub mod Field
pub mod Handlers
pub mod Reading
pub mod Writes
mod Tests
use jingjie_ar.Prelude.{
  ℕ, zero, suc, ◌+◌, ◌-◌, ◌*◌, ◌/◌, ◌%◌, ◌^◌, ◌≤◌, ◌<◌, min, max, ◌≡◌, refl, sym, ap, ap₂, ◌∙◌,
  subst, ◌≢◌, ◌↔◌, ◌⊎◌, inl, inr, Bool, true, false, not, ◌&&◌, ◌||◌, Option, none, some, List, [],
  ◌∷◌, ◌++◌, map, reverse, append-nil, append_assoc, reverse-cons, arith, ltb, leb, if◌then◌else◌,
  ltb→lt, lt→ltb, leb→le, nat_beq_iff, tests, Bool-cases, if_ind, Option-cases, some_inj, Eq, ◌==◌,
  ==_iff, ==_refl, nat_eq, list_eq, lookup, insert, erase, has_key, lookup-insert,
  lookup-insert_self, lookup-erase, has_key-insert, IsMap, insert-IsMap, insert_new, AreApart,
  AreApart-insert, AreApart-nil, length, get_elem?, set, get_or, take, drop, replicate,
  length-append, length-take, length-drop, length-replicate, length-map, take-append-drop,
  drop_of_length-le, take_of_length-le, drop_nil, take_nil, drop-drop, drop-take, take-take_le,
  drop-append_le, take-append_le, take-append_ge, drop-append_ge, take-append_length,
  drop-append_length,
}
use jingjie_ar.Services.Artwork.{Status, ok, unauthorized, bad_request, not_found, unavailable}
use jingjie_ar.Services.Sessions.{SessionStore, get, is_status}
use jingjie_ar.Database.SceneDao.{
  SceneLikeOutcome, scene_like, scene_unlike, scene_summary, create_scene_comment,
  list_scene_comments,
}
use jingjie_ar.Database.ArtworkDao.{ArtworkComment, CommentsOutcome}
use jingjie_ar.Database.{MySql}
use jingjie_ar.Caches.SessionCache.{DbSession}
use jingjie_ar.Text.{Bytes, bytes, is_empty}

pub record SceneInteractionResult : Type 0 where
  pub status : Status
  pub like_count : ℕ
  pub liked : Bool
  pub comments : List ArtworkComment
  pub next_before : ℕ

-- SceneInteractionService::result
abbrev pub scene_result : Status → SceneInteractionResult
scene_result s = record {
  status = s;
  like_count = 0;
  liked = false;
  comments = [];
  next_before = 0;
}

-- The ids of SceneCatalog::all.
abbrev pub scene_ids : List Bytes
scene_ids =
    bytes "docklands"
    ∷ bytes "golden-bay"
    ∷ bytes "graaff-reinet-cathedral"
    ∷ bytes "illovo-beach"
    ∷ bytes "little-paris"
    ∷ bytes "san-giuseppe-bridge"
    ∷ bytes "venetian-crossroads"
    ∷ bytes "vignaioli"
    ∷ []

-- The loop of SceneCatalog::find: whether an id is found.
unfoldable pub find_scene : Bytes → List Bytes → Bool
find_scene id [] = false
find_scene id (x ∷ xs) = let rest = find_scene id xs in if x == id then true else rest

-- SceneInteractionService: sessions_ with the store behind it, and dao_.
pub record SceneInteractionService (W : Type 0) : Type 0 where
  pub sessions : Option (Option (SessionStore W))
  pub dao : Option (MySql W)

module _ {W : Type 0} (service : SceneInteractionService W) where
  abbrev pub Outcome : Type 0
  Outcome = SceneInteractionResult × W

  -- SceneInteractionService::sceneExists
  unfoldable pub scene_exists : Bytes → Bool
  scene_exists scene = find_scene scene scene_ids

  -- The callback that authenticate gives to get.
  unfoldable pub scene_session : (ℕ → W → Outcome) → Option DbSession → W → Outcome
  scene_session success none w = (scene_result unauthorized, w)
  scene_session success (some s) w =
      let done : Outcome = success s.user_id w in
      if is_status 0 s.status then (scene_result unauthorized, w) else done

  abbrev pub scene_authenticate_with :
      Option (Option (SessionStore W)) → Bytes → (ℕ → W → Outcome) → W → Outcome
  scene_authenticate_with none token success w =
      (scene_result (if is_empty token then unauthorized else unavailable), w)
  scene_authenticate_with (some store) token success w =
      let found : Option DbSession × W = get store token w in
      let done : Outcome = scene_session success found.0 found.1 in
      if is_empty token then (scene_result unauthorized, w) else done

  -- SceneInteractionService::authenticate
  unfoldable pub scene_authenticate : Bytes → (ℕ → W → Outcome) → W → Outcome
  scene_authenticate token success w = scene_authenticate_with service.sessions token success w

  -- What a null dao_ gives.
  abbrev pub with_dao : Option (MySql W) → (MySql W → W → Outcome) → W → Outcome
  with_dao none call w = (scene_result unavailable, w)
  with_dao (some dao) call w = call dao w

  -- The callbacks of the DAO.
  abbrev pub scene_answered : Bool → SceneInteractionResult → W → Outcome
  scene_answered good value w = if good then (value, w) else (scene_result unavailable, w)

  abbrev pub scene_counted : Bool → SceneLikeOutcome × W → Outcome
  scene_counted liked (o, w) =
      scene_answered o.ok (record (scene_result ok) { like_count = o.count; liked = liked }) w

  abbrev pub scene_summed : (Bool × ℕ) × W → Outcome
  scene_summed ((good, n), w) = scene_answered good (record (scene_result ok) { like_count = n }) w

  abbrev pub scene_listed : CommentsOutcome × W → Outcome
  scene_listed (o, w) =
      scene_answered o.ok
        (record (scene_result ok) { comments = o.comments; next_before = o.next_before }) w

  abbrev pub scene_commented : (Bool × ℕ) × W → Outcome
  scene_commented ((good, id), w) =
      scene_answered (good && not (id == 0)) (record (scene_result ok) { next_before = id }) w

  -- SceneInteractionService::detail
  unfoldable pub detail_scene : Bytes → W → Outcome
  detail_scene scene w =
      let done : Outcome =
        with_dao service.dao (λ dao v. scene_summed (scene_summary dao scene v)) w in
      if scene_exists scene then done else (scene_result not_found, w)

  -- SceneInteractionService::like
  unfoldable pub like_scene : Bytes → Bytes → W → Outcome
  like_scene token scene w =
      let done : Outcome =
        scene_authenticate token
          (λ user v.
            with_dao service.dao (λ dao u. scene_counted true (scene_like dao scene user u)) v)
          w in
      if scene_exists scene then done else (scene_result not_found, w)

  -- SceneInteractionService::unlike
  unfoldable pub unlike_scene : Bytes → Bytes → W → Outcome
  unlike_scene token scene w =
      let done : Outcome =
        scene_authenticate token
          (λ user v.
            with_dao service.dao (λ dao u. scene_counted false (scene_unlike dao scene user u)) v)
          w in
      if scene_exists scene then done else (scene_result not_found, w)

  -- SceneInteractionService::listComments
  unfoldable pub comments_of_scene : Bytes → ℕ → ℕ → W → Outcome
  comments_of_scene scene before_id limit w =
      let bounded : ℕ = if limit == 0 then 20 else min limit 20 in
      let done : Outcome =
        with_dao service.dao
          (λ dao v. scene_listed (list_scene_comments dao scene before_id bounded v)) w in
      if scene_exists scene then done else (scene_result not_found, w)

  -- SceneInteractionService::comment
  unfoldable pub comment_scene : Bytes → Bytes → Bytes → W → Outcome
  comment_scene token scene content w =
      let done : Outcome =
        scene_authenticate token
          (λ user v.
            with_dao service.dao
              (λ dao u. scene_commented (create_scene_comment dao scene user content u)) v)
          w in
      if scene_exists scene
      then if is_empty content || ltb 300 (length content)
        then (scene_result bad_request, w)
        else done
      else (scene_result not_found, w)
