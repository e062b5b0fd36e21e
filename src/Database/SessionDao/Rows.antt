-- ===== src/Database/SessionDao/Rows.antt =====
-- Lemmas on the rows of the table `sessions` behind src/db/SessionDAO.cpp.
use jingjie_ar.Database.SessionDao.Table.{
  entered, ended, SessionRow, find_row, active, ended_id, revoked, Changes,
}
use jingjie_ar.Database.{Answer}
use jingjie_ar.Prelude.{
  ℕ, ◌≡◌, refl, sym, ap, ◌∙◌, ◌≢◌, inl, inr, Bool, true, false, not, ◌&&◌, Option, none, some, List,
  [], ◌∷◌, map, arith, if◌then◌else◌, Bool-cases, if_ind, some_inj, ◌==◌, nat_eq, list_eq,
}
use jingjie_ar.Text.{Bytes}

-- Whether the row of a token is there and not active.
abbrev pub inactive : Option SessionRow → Bool
inactive none = false
inactive (some r) = not (active r.status)

abbrev pub is_there : Option SessionRow → Bool
is_there none = false
is_there (some r) = true

-- A change of rows that keeps their tokens and activates none.
pub record Calms (f : SessionRow → SessionRow) : Type 0 where
  pub token : (r : SessionRow) → (f r).token ≡ r.token
  pub calm : (r : SessionRow) → active r.status ≡ false → active (f r).status ≡ false

pub Calms-ended_id : (id : ℕ) → Calms (ended_id id)
Calms-ended_id id = record {
  token = λ r. if_ind (λ (x : SessionRow). x.token ≡ r.token) (r.id == id) (λ e. refl) (λ e. refl);
  calm =
      λ r h. if_ind (λ (x : SessionRow). active x.status ≡ false) (r.id == id) (λ e. refl) (λ e. h);
}

pub Calms-revoked : (t : Bytes) → Calms (revoked t)
Calms-revoked t = record {
  token = λ r.
      if_ind (λ (x : SessionRow). x.token ≡ r.token) (r.token == t && active r.status) (λ e. refl)
        (λ e. refl);
  calm = λ r h.
      if_ind (λ (x : SessionRow). active x.status ≡ false) (r.token == t && active r.status)
        (λ e. refl) (λ e. h);
}

pub inactive_head :
    (t : Bytes) (r : SessionRow) (rs : List SessionRow)
    → (r.token == t) ≡ true
    → inactive (find_row t (r ∷ rs)) ≡ true
    → active r.status ≡ false
inactive_head t r rs e = rw e (λ h. ground (arith, h))

pub inactive_tail :
    (t : Bytes) (r : SessionRow) (rs : List SessionRow)
    → (r.token == t) ≡ false
    → inactive (find_row t (r ∷ rs)) ≡ true
    → inactive (find_row t rs) ≡ true
inactive_tail t r rs e = rw e (λ h. h)

pub inactive-map :
    (f : SessionRow → SessionRow) (c : Calms f) (t : Bytes) (rs : List SessionRow)
    → inactive (find_row t rs) ≡ true
    → inactive (find_row t (map f rs)) ≡ true
inactive-map f c t [] h = h
inactive-map f c t (r ∷ rs) g = elim (Bool-cases (r.token == t)) [
  | inl e ↦ rw (c.token r, e) (ap not (c.calm r (inactive_head t r rs e g)))
  | inr e ↦ rw (c.token r, e) (inactive-map f c t rs (inactive_tail t r rs e g))
]

pub inactive_own : (r : SessionRow) → active (if active r.status then ended r else r).status ≡ false
inactive_own r =
    if_ind (λ (x : SessionRow). active x.status ≡ false) (active r.status) (λ e. refl) (λ e. e)

-- The statement of a revocation closes the row of the token.
pub inactive-revoked :
    (t : Bytes) (rs : List SessionRow)
    → is_there (find_row t rs) ≡ true
    → inactive (find_row t (map (revoked t) rs)) ≡ true
inactive-revoked t [] h = ground (arith, h)
inactive-revoked t (r ∷ rs) g = elim (Bool-cases (r.token == t)) [
  | inl e ↦ rw ((Calms-revoked t).token r, e) (ap not (inactive_own r))
  | inr e ↦ rw ((Calms-revoked t).token r, e) (inactive-revoked t rs (ground (arith, e, g)))
]

pub inactive_there : (o : Option SessionRow) → inactive o ≡ true → o ≢ none
inactive_there none h e = ground (arith, h)
inactive_there (some r) h e = ground (arith, e)

pub inactive-some :
    (o : Option SessionRow) (r : SessionRow)
    → inactive o ≡ true
    → o ≡ some r
    → active r.status ≡ false
inactive-some o r h e = ground (arith, sym (ap inactive e) ∙ h)

pub inactive-Changes :
    (answer : Answer) (f : SessionRow → SessionRow) (c : Calms f) (t : Bytes)
    (before after : List SessionRow)
    → Changes answer before (map f before) after
    → inactive (find_row t before) ≡ true
    → inactive (find_row t after) ≡ true
inactive-Changes answer f c t before after change h = elim change.0 [
  | inl e ↦ rw e h
  | inr e ↦ rw e (inactive-map f c t before h)
]

entered_token : (id : ℕ) (scene : Bytes) (r : SessionRow) → (entered id scene r).token ≡ r.token
entered_token id scene r =
    if_ind (λ (x : SessionRow). x.token ≡ r.token) (r.id == id) (λ e. refl) (λ e. refl)

head_row :
    (t : Bytes) (x : SessionRow) (rs : List SessionRow) (r : SessionRow)
    → (x.token == t) ≡ true
    → find_row t (x ∷ rs) ≡ some r
    → x ≡ r
head_row t x rs r e = rw e some_inj

tail_row :
    (t : Bytes) (x : SessionRow) (rs : List SessionRow) (r : SessionRow)
    → (x.token == t) ≡ false
    → find_row t (x ∷ rs) ≡ some r
    → find_row t rs ≡ some r
tail_row t x rs r e = rw e (λ h. h)

-- The row of a token after a scene was entered.
pub find_row-entered :
    (id : ℕ) (scene t : Bytes) (rs : List SessionRow) (r : SessionRow)
    → find_row t rs ≡ some r
    → find_row t (map (entered id scene) rs) ≡ some (entered id scene r)
find_row-entered id scene t [] r h = ground (arith, h)
find_row-entered id scene t (x ∷ rs) r h = elim (Bool-cases (x.token == t)) [
  | inl e ↦
      rw (entered_token id scene x, e) (ap (λ y. some (entered id scene y)) (head_row t x rs r e h))
  | inr e ↦
      rw (entered_token id scene x, e) (find_row-entered id scene t rs r (tail_row t x rs r e h))
]
