-- ===== src/Services/Scene/Writes.antt =====
-- When SceneInteractionService of WebApps/ARServer/src/services/SceneInteractionService.cpp reaches the
-- database.
use jingjie_ar.Services.Artwork.{is_ok}
use jingjie_ar.Prelude.{
  ℕ, ◌≡◌, refl, ◌⊎◌, inl, inr, Bool, false, not, ◌&&◌, ◌||◌, Option, none, some, arith, ltb,
  Bool-cases, if_ind, nat_eq, list_eq, length,
}
use jingjie_ar.Services.Scene.{
  SceneInteractionResult, SceneInteractionService, scene_exists, scene_session, scene_authenticate,
  like_scene, unlike_scene, comment_scene, find_scene, scene_ids,
}
use jingjie_ar.Services.Sessions.{SessionStore, get, is_status}
use jingjie_ar.Database.{MySql}
use jingjie_ar.Caches.SessionCache.{DbSession}
use jingjie_ar.Text.{Bytes, is_empty}

-- The test of this service, under which every session whose status is not 0 is open.
abbrev pub is_open : Option DbSession → Bool
is_open none = false
is_open (some s) = not (is_status 0 s.status)

module _ {W : Type 0} (store : Option (SessionStore W)) (dao : Option (MySql W)) where
  abbrev pub service : SceneInteractionService W
  service = record { sessions = some store; dao = dao }

  -- Not a success, and nothing was done but for the search for the session.
  abbrev pub IsUntouched : Bytes → W → SceneInteractionResult × W → Type 0
  IsUntouched token w out =
      (is_ok out.0.status ≡ false) × ((out.1 ≡ w) ⊎ (out.1 ≡ (get store token w).1))

  scene_session-IsUntouched :
      (token : Bytes) (success : ℕ → W → SceneInteractionResult × W) (o : Option DbSession)
      (w v : W)
      → v ≡ (get store token w).1
      → is_open o ≡ false
      → IsUntouched token w (scene_session service success o v)
  unfolding scene_session
  scene_session-IsUntouched token success none w v at h = (refl, inr at)
  scene_session-IsUntouched token success (some s) w v at h =
      if_ind (λ (x : SceneInteractionResult × W). IsUntouched token w x) (is_status 0 s.status)
        (λ a. (refl, inr at)) (λ a. ground (arith, a, h))

  scene_authenticate-IsUntouched :
      (token : Bytes) (success : ℕ → W → SceneInteractionResult × W) (w : W)
      → is_open (get store token w).0 ≡ false
      → IsUntouched token w (scene_authenticate service token success w)
  unfolding scene_authenticate
  scene_authenticate-IsUntouched token success w h =
      if_ind (λ (x : SceneInteractionResult × W). IsUntouched token w x) (is_empty token)
        (λ e. (refl, inl refl))
        (λ e.
          scene_session-IsUntouched token success (get store token w).0 w (get store token w).1 refl
            h)

  -- For an id that is no scene of the catalogue, or a token without an open session, like, unlike and
  -- comment do not succeed and reach no database but for the session, whatever the content.
  pub comment_scene-IsUntouched :
      (token scene content : Bytes) (w : W)
      → (find_scene scene scene_ids && is_open (get store token w).0) ≡ false
      → IsUntouched token w (like_scene service token scene w)
        × IsUntouched token w (unlike_scene service token scene w)
        × IsUntouched token w (comment_scene service token scene content w)
  unfolding like_scene unlike_scene comment_scene scene_exists
  comment_scene-IsUntouched token scene content w h =
      elim (Bool-cases (find_scene scene scene_ids)) [
        | inl e ↦ (
          rw e (scene_authenticate-IsUntouched token _ w (ground (arith, e, h))),
          rw e (scene_authenticate-IsUntouched token _ w (ground (arith, e, h))),
          rw e (
              if_ind (λ (x : SceneInteractionResult × W). IsUntouched token w x)
                (is_empty content || ltb 300 (length content)) (λ a. (refl, inl refl))
                (λ a. scene_authenticate-IsUntouched token _ w (ground (arith, e, h)))),
        )
        | inr e ↦ (rw e (refl, inl refl), rw e (refl, inl refl), rw e (refl, inl refl))
      ]
