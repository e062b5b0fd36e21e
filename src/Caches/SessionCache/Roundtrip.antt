-- ===== src/Caches/SessionCache/Roundtrip.antt =====
-- The text format of src/cache/SessionCache.cpp, written and read.
use jingjie_ar.Numbers.{
  stoi-show_int, stoull-decimal, digits_within-IsDigits, IsDigits, IsInt, show_int,
}
use jingjie_ar.Int.{negsuc, pos, ℤ}
use jingjie_ar.Caches.SessionCache.{of_fields, session_of, serialize, DbSession, deserialize}
use jingjie_ar.Http.Response.{decimal}
use jingjie_ar.Text.{is_empty, Bytes, segments}
use jingjie_ar.Prelude.{
  suc, ◌^◌, ◌<◌, ◌≡◌, refl, ap, ◌∙◌, false, some, [], ◌∷◌, ◌++◌, arith, ◌==◌, nat_eq, list_eq,
}

-- No byte of the text is the separator.
abbrev pub NoBar : Bytes → Type 0
NoBar [] = Unit {0}
NoBar (c ∷ cs) = ((c == b'|') ≡ false) × NoBar cs

-- A field that a separator ends is the first that getline yields.
segments-field :
    (a rest : Bytes) → NoBar a → segments b'|' (a ++ b'|' ∷ rest) ≡ a ∷ segments b'|' rest
unfolding segments
segments-field [] rest v = refl
segments-field (c ∷ cs) rest (h, v) = rw (h, segments-field cs rest v) refl

-- The last field is yielded if it is not empty.
segments-last : (a : Bytes) → NoBar a → is_empty a ≡ false → segments b'|' a ≡ a ∷ []
unfolding segments
segments-last [] v h = ground (arith, h)
segments-last (c ∷ []) (h, v) e = rw (h) refl
segments-last (c ∷ d ∷ cs) (h, v) e = rw (h, segments-last (d ∷ cs) v refl) refl

NoBar-digits : (s : Bytes) → IsDigits s → NoBar s
NoBar-digits [] d = tt
NoBar-digits (c ∷ cs) (d, ds) = (ground (arith, d), NoBar-digits cs ds)

NoBar-show_int : (z : ℤ) → NoBar (show_int z)
NoBar-show_int (pos n) = NoBar-digits (decimal n) (digits_within-IsDigits 20 n)
NoBar-show_int (negsuc n) =
    (refl, NoBar-digits (decimal (suc n)) (digits_within-IsDigits 20 (suc n)))

-- What a session must be to be read back: numbers in the range of their types, texts without the
-- separator, and a time of update.
pub record IsStorable (s : DbSession) : Type 0 where
  pub id : s.id < 2 ^ 64
  pub user_id : s.user_id < 2 ^ 64
  pub status : IsInt s.status
  pub token : NoBar s.session_token
  pub scene : NoBar s.scene_id
  pub created : NoBar s.created_at
  pub updated : NoBar s.updated_at
  pub is_updated : is_empty s.updated_at ≡ false

segments-serialize :
    (s : DbSession)
    → IsStorable s
    → segments b'|' (serialize s)
      ≡ decimal s.id
        ∷ s.session_token
        ∷ decimal s.user_id
        ∷ s.scene_id
        ∷ show_int s.status
        ∷ s.created_at
        ∷ s.updated_at
        ∷ []
unfolding serialize
segments-serialize s v =
    rw
      (
        segments-field (decimal s.id) _ (NoBar-digits _ (digits_within-IsDigits 20 s.id)),
        segments-field s.session_token _ v.token,
        segments-field (decimal s.user_id) _ (NoBar-digits _ (digits_within-IsDigits 20 s.user_id)),
        segments-field s.scene_id _ v.scene,
        segments-field (show_int s.status) _ (NoBar-show_int s.status),
        segments-field s.created_at _ v.created,
        segments-last s.updated_at v.updated v.is_updated,
      )
      refl

-- deserialize reads back what serialize has written of a session whose numbers are in range, whose
-- texts have no `|`, and whose time of update is not empty.
pub deserialize-serialize : (s : DbSession) → IsStorable s → deserialize (serialize s) ≡ some s
unfolding deserialize session_of of_fields
deserialize-serialize s v =
    ap of_fields (segments-serialize s v)
    ∙ rw
        (
          stoull-decimal s.id v.id,
          stoull-decimal s.user_id v.user_id,
          stoi-show_int s.status v.status,
        )
        refl
