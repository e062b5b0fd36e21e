-- ===== src/Services/Artwork/Writes.antt =====
-- When ArtworkInteractionService of WebApps/ARServer/src/services/ArtworkInteractionService.cpp
-- reaches the database.
use jingjie_ar.Prelude.{
  ℕ, ◌≡◌, refl, ◌⊎◌, inl, inr, Bool, false, ◌&&◌, Option, none, some, arith, if◌then◌else◌,
  Bool-cases, if_ind, nat_eq, list_eq,
}
use jingjie_ar.Services.Artwork.{
  is_ok, bad_request, ArtworkInteractionResult, result, ArtworkInteractionService, artwork_exists,
  with_session, authenticate, valid_content, like_artwork, unlike_artwork, comment_request,
}
use jingjie_ar.Services.Sessions.{SessionStore, get, is_status}
use jingjie_ar.Database.{MySql}
use jingjie_ar.Caches.SessionCache.{DbSession}
use jingjie_ar.Text.{Bytes, is_empty}

abbrev pub active_session : Option DbSession → Bool
active_session none = false
active_session (some s) = is_status 1 s.status

module _ {W : Type 0} (known : Bytes → Bool) (store : Option (SessionStore W))
    (dao : Option (MySql W)) (valid : W → Bool) where
  abbrev pub service : ArtworkInteractionService W
  service = record { catalog = some known; sessions = some store; dao = dao; valid = valid }

  -- Not a success, and nothing was done but for the search for the session.
  abbrev pub IsUntouched : Bytes → W → ArtworkInteractionResult × W → Type 0
  IsUntouched token w out =
      (is_ok out.0.status ≡ false) × ((out.1 ≡ w) ⊎ (out.1 ≡ (get store token w).1))

  with_session-IsUntouched :
      (token : Bytes) (success : ℕ → W → ArtworkInteractionResult × W) (o : Option DbSession)
      (w v : W)
      → v ≡ (get store token w).1
      → (active_session o ≡ false) ⊎ ((n : ℕ) → IsUntouched token w (success n v))
      → IsUntouched token w (with_session service success o v)
  unfolding with_session
  with_session-IsUntouched token success none w v at h =
      if_ind (λ (x : ArtworkInteractionResult × W). IsUntouched token w x) (valid v)
        (λ e. (refl, inr at)) (λ e. (refl, inr at))
  with_session-IsUntouched token success (some s) w v at h =
      if_ind (λ (x : ArtworkInteractionResult × W). IsUntouched token w x) (valid v)
        (λ e.
          if_ind (λ (x : ArtworkInteractionResult × W). IsUntouched token w x)
            (is_status 1 s.status)
            (λ a. elim h [ inl n ↦ ground (arith, a, n) | inr f ↦ f s.user_id ])
            (λ a. (refl, inr at)))
        (λ e. (refl, inr at))

  authenticate-IsUntouched :
      (token : Bytes) (success : ℕ → W → ArtworkInteractionResult × W) (w : W)
      → (active_session (get store token w).0 ≡ false)
        ⊎ ((n : ℕ) → IsUntouched token w (success n (get store token w).1))
      → IsUntouched token w (authenticate service token success w)
  unfolding authenticate
  authenticate-IsUntouched token success w h =
      if_ind (λ (x : ArtworkInteractionResult × W). IsUntouched token w x) (is_empty token)
        (λ e. (refl, inl refl))
        (λ e.
          with_session-IsUntouched token success (get store token w).0 w (get store token w).1 refl
            h)

  -- For an artwork that is not in the catalogue, or a token without an active session, like and
  -- unlike do not succeed and reach no database but for the session.
  pub like_artwork-IsUntouched :
      (token artwork : Bytes) (w : W)
      → (known artwork && active_session (get store token w).0) ≡ false
      → IsUntouched token w (like_artwork service token artwork w)
        × IsUntouched token w (unlike_artwork service token artwork w)
  unfolding like_artwork unlike_artwork artwork_exists
  like_artwork-IsUntouched token artwork w h = elim (Bool-cases (known artwork)) [
    | inl e ↦ (
      rw e (authenticate-IsUntouched token _ w (inl (ground (arith, e, h)))),
      rw e (authenticate-IsUntouched token _ w (inl (ground (arith, e, h)))),
    )
    | inr e ↦ (rw e (refl, inl refl), rw e (refl, inl refl))
  ]

  comment_refused :
      (token content : Bytes) (content_valid : Bool) (w : W)
      → (created : ArtworkInteractionResult × W) → valid_content content_valid content ≡ false
      → IsUntouched token w (
          if valid_content content_valid content
          then created
          else (result bad_request, (get store token w).1))
  comment_refused token content content_valid w created h = rw h (refl, inr refl)

  -- A comment on an artwork that is not in the catalogue, with a token that has no active session, or
  -- with a content that is not 1 to 1000 bytes of UTF-8 with a visible character, does not succeed and
  -- reaches no database but for the session.
  pub comment_request-IsUntouched :
      (token artwork content : Bytes) (content_valid : Bool) (w : W)
      → (known artwork
          && active_session (get store token w).0
          && valid_content content_valid content)
        ≡ false
      → IsUntouched token w (comment_request service token artwork content content_valid w)
  unfolding comment_request artwork_exists
  comment_request-IsUntouched token artwork content content_valid w h =
      elim (Bool-cases (known artwork)) [
        | inl e ↦ rw e (
            authenticate-IsUntouched token _ w
              (elim (Bool-cases (active_session (get store token w).0)) [
                | inl a ↦
                    inr (λ n.
                      comment_refused token content content_valid w _ (ground (arith, e, a, h)))
                | inr a ↦ inl a
              ]))
        | inr e ↦ rw e (refl, inl refl)
      ]
