-- ===== src/Services/Artwork.antt =====
-- Likes and comments of artworks: ArtworkInteractionService of
-- WebApps/ARServer/include/services/ArtworkInteractionService.h and
-- WebApps/ARServer/src/services/ArtworkInteractionService.cpp, over a world W in which the sessions
-- and the database live. A callback is the result; none of them is null.
pub mod Writes
mod Tests
pub mod Answers
pub mod Handlers
use jingjie_ar.Prelude.{
  ℕ, zero, suc, ◌+◌, ◌-◌, ◌*◌, ◌/◌, ◌%◌, ◌^◌, ◌≤◌, ◌<◌, min, max, ◌≡◌, refl, sym, ap, ap₂, ◌∙◌,
  subst, ◌≢◌, ◌↔◌, ◌⊎◌, inl, inr, Bool, true, false, not, ◌&&◌, ◌||◌, Option, none, some, List, [],
  ◌∷◌, ◌++◌, map, reverse, append-nil, append_assoc, reverse-cons, arith, ltb, leb, if◌then◌else◌,
  ltb→lt, lt→ltb, leb→le, nat_beq_iff, tests, Bool-cases, if_ind, Option-cases, some_inj, Eq, ◌==◌,
  ==_iff, ==_refl, nat_eq, list_eq, lookup, insert, erase, has_key, lookup-insert,
  lookup-insert_self, lookup-erase, has_key-insert, IsMap, insert-IsMap, insert_new, AreApart,
  AreApart-insert, AreApart-nil, length, get_elem?, set, get_or, take, drop, replicate,
  length-append, length-take, length-drop, length-replicate, length-map, take-append-drop,
  drop_of_length-le, take_of_length-le, drop_nil, take_nil, drop-drop, drop-take, take-take_le,
  drop-append_le, take-append_le, take-append_ge, drop-append_ge, take-append_length,
  drop-append_length,
}
use jingjie_ar.Services.Utf8.{valid_non_blank_utf8}
use jingjie_ar.Services.Sessions.{SessionStore, get, is_status}
use jingjie_ar.Database.ArtworkDao.{
  ArtworkComment, LikeOutcome, SummaryOutcome, CommentsOutcome, like, unlike, summary,
  create_comment, list_comments,
}
use jingjie_ar.Database.{MySql}
use jingjie_ar.Caches.SessionCache.{DbSession}
use jingjie_ar.Text.{Bytes, is_empty}

pub data Status : Type 0 where
  ok : Status
  unauthorized : Status
  bad_request : Status
  not_found : Status
  unavailable : Status

abbrev pub is_ok : Status → Bool
is_ok ok = true
is_ok unauthorized = false
is_ok bad_request = false
is_ok not_found = false
is_ok unavailable = false

pub record ArtworkInteractionResult : Type 0 where
  pub status : Status
  pub like_count : ℕ
  pub comment_count : ℕ
  pub liked : Bool
  pub comments : List ArtworkComment
  pub next_before : ℕ
  pub comment_id : ℕ

-- ArtworkInteractionService::result
abbrev pub result : Status → ArtworkInteractionResult
result s = record {
  status = s;
  like_count = 0;
  comment_count = 0;
  liked = false;
  comments = [];
  next_before = 0;
  comment_id = 0;
}

-- The service: whether the catalogue has an artwork, the store behind its sessions (`none` where
-- sessions_ is null), its DAO (`none` where it is null), and whether the service is not destroyed yet.
pub record ArtworkInteractionService (W : Type 0) : Type 0 where
  pub catalog : Option (Bytes → Bool)
  pub sessions : Option (Option (SessionStore W))
  pub dao : Option (MySql W)
  pub valid : W → Bool

abbrev in_catalog : Option (Bytes → Bool) → Bytes → Bool
in_catalog none artwork = false
in_catalog (some known) artwork = known artwork

-- The checks of commentRequest on the content.
abbrev pub valid_content : Bool → Bytes → Bool
valid_content content_valid content =
    content_valid
    && not (is_empty content)
    && leb (length content) 1000
    && valid_non_blank_utf8 content

module _ {W : Type 0} (service : ArtworkInteractionService W) where
  abbrev pub Outcome : Type 0
  Outcome = ArtworkInteractionResult × W

  -- ArtworkInteractionService::artworkExists
  unfoldable pub artwork_exists : Bytes → Bool
  artwork_exists artwork = in_catalog service.catalog artwork

  -- The callback that authenticate gives to get.
  unfoldable pub with_session : (ℕ → W → Outcome) → Option DbSession → W → Outcome
  with_session success none w =
      if service.valid w then (result unauthorized, w) else (result unavailable, w)
  with_session success (some s) w =
      let done : Outcome = success s.user_id w in
      if service.valid w
      then if is_status 1 s.status then done else (result unauthorized, w)
      else (result unavailable, w)

  abbrev pub authenticate_with :
      Option (Option (SessionStore W)) → Bytes → (ℕ → W → Outcome) → W → Outcome
  authenticate_with none token success w = (result unavailable, w)
  authenticate_with (some store) token success w =
      let found : Option DbSession × W = get store token w in with_session success found.0 found.1

  -- ArtworkInteractionService::authenticate
  unfoldable pub authenticate : Bytes → (ℕ → W → Outcome) → W → Outcome
  authenticate token success w =
      let done : Outcome = authenticate_with service.sessions token success w in
      if is_empty token then (result unauthorized, w) else done

  abbrev pub with_lease : Option (MySql W) → (MySql W → W → Outcome) → W → Outcome
  with_lease none call w = (result unavailable, w)
  with_lease (some dao) call w =
      let done : Outcome = call dao w in if service.valid w then done else (result unavailable, w)

  -- DaoCallLease: the DAO is called while the service is not destroyed.
  unfoldable pub leased : (MySql W → W → Outcome) → W → Outcome
  leased call w = with_lease service.dao call w

  -- The callbacks of the DAO.
  abbrev pub answered : Bool → ArtworkInteractionResult → W → Outcome
  answered good value w = if service.valid w && good then (value, w) else (result unavailable, w)

  abbrev counted : LikeOutcome × W → Outcome
  counted (o, w) = answered o.ok (record (result ok) { like_count = o.count; liked = o.liked }) w

  abbrev summed : SummaryOutcome × W → Outcome
  summed (o, w) =
      answered o.ok
        (record (result ok) {
          like_count = o.like_count;
          comment_count = o.comment_count;
          liked = o.liked;
        })
        w

  abbrev listed : CommentsOutcome × W → Outcome
  listed (o, w) =
      answered o.ok (record (result ok) { comments = o.comments; next_before = o.next_before }) w

  abbrev commented : (Bool × ℕ) × W → Outcome
  commented ((good, id), w) =
      answered (good && not (id == 0)) (record (result ok) { comment_id = id }) w

  -- ArtworkInteractionService::loadSummary
  unfoldable pub load_summary : Bytes → ℕ → W → Outcome
  load_summary artwork user w = leased (λ dao v. summed (summary dao artwork user v)) w

  -- ArtworkInteractionService::detail
  unfoldable pub detail : Bytes → Bytes → W → Outcome
  detail token artwork w =
      let public : Outcome = load_summary artwork 0 w in
      let own : Outcome =
        authenticate token (λ user v. leased (λ dao u. summed (summary dao artwork user u)) v) w in
      if artwork_exists artwork
      then if is_empty token then public else own
      else (result not_found, w)

  -- ArtworkInteractionService::like
  unfoldable pub like_artwork : Bytes → Bytes → W → Outcome
  like_artwork token artwork w =
      let done : Outcome =
        authenticate token (λ user v. leased (λ dao u. counted (like dao artwork user u)) v) w in
      if artwork_exists artwork then done else (result not_found, w)

  -- ArtworkInteractionService::unlike
  unfoldable pub unlike_artwork : Bytes → Bytes → W → Outcome
  unlike_artwork token artwork w =
      let done : Outcome =
        authenticate token (λ user v. leased (λ dao u. counted (unlike dao artwork user u)) v) w in
      if artwork_exists artwork then done else (result not_found, w)

  -- ArtworkInteractionService::listComments
  unfoldable pub list_artwork_comments : Bytes → ℕ → ℕ → W → Outcome
  list_artwork_comments artwork before_id limit w =
      let bounded : ℕ = if limit == 0 || ltb 20 limit then 20 else limit in
      let done : Outcome =
        leased (λ dao v. listed (list_comments dao artwork before_id bounded v)) w in
      if artwork_exists artwork then done else (result not_found, w)

  -- ArtworkInteractionService::commentRequest
  unfoldable pub comment_request : Bytes → Bytes → Bytes → Bool → W → Outcome
  comment_request token artwork content content_valid w =
      let done : Outcome =
        authenticate token
          (λ user v.
            let created : Outcome =
              leased (λ dao u. commented (create_comment dao artwork user content u)) v in
            if valid_content content_valid content then created else (result bad_request, v))
          w in
      if artwork_exists artwork then done else (result not_found, w)

  -- ArtworkInteractionService::comment
  unfoldable pub comment : Bytes → Bytes → Bytes → W → Outcome
  comment token artwork content w = comment_request token artwork content true w
