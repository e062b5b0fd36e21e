-- ===== src/Visitor/Bootstrap.antt =====
-- VisitorSessionService::bootstrap over any store that keeps its contract:
-- WebApps/ARServer/src/services/VisitorSessionService.cpp.
use jingjie_ar.Visitor.{
  bootstrap_ttl, valid_request_id, visitor_ttl, ok, valid, BootstrapResult, finish, bootstrap,
  claim_candidate, VisitorStore,
}
use jingjie_ar.Session.Token.{valid_token_syntax}
use jingjie_ar.Visitor.Store.{IsVisitorStore}
use jingjie_ar.Text.{Bytes}
use jingjie_ar.Prelude.{
  ◌≡◌, refl, sym, ◌∙◌, subst, Bool, true, Option, none, some, arith, if◌then◌else◌, if_ind,
  some_inj, nat_eq, list_eq,
}

module _ {S : Type 0} (store : VisitorStore S) (held : Bytes → S → Bool)
    (claimed : Bytes → S → Option Bytes) (law : IsVisitorStore store held claimed) where
  -- What bootstrap promises with the status ok: a token that stands and that the request has, and
  -- the one it had before if it had one.
  pub record IsGranted (id : Bytes) (s : S) (p : BootstrapResult × S) : Type 0 where
    pub syntax : valid_token_syntax p.0.token ≡ true
    pub stands : held p.0.token p.1 ≡ true
    pub kept : claimed id p.1 ≡ some p.0.token
    pub first : (u : Bytes) → claimed id s ≡ some u → p.0.token ≡ u

  -- A result with the status ok is a grant.
  abbrev Grants : Bytes → S → BootstrapResult × S → Type 0
  Grants id s p = p.0.status ≡ ok → IsGranted id s p

  finish-Grants :
      (id : Bytes) (s : S) (p : Option Bytes × S)
      → ((t : Bytes) → p.0 ≡ some t → claimed id p.1 ≡ some t)
      → ((t u : Bytes) → p.0 ≡ some t → claimed id s ≡ some u → t ≡ u)
      → Grants id s (finish store p)
  unfolding finish
  finish-Grants id s (none, s') stands first = λ h. ground (arith, h)
  finish-Grants id s (some t, s') stands first =
      if_ind (Grants id s) (valid_token_syntax t)
        (λ syntax.
          if_ind (Grants id s) (store.save t visitor_ttl s').0
            (λ saved h. record {
              syntax = syntax;
              stands = law.save_holds t visitor_ttl s' saved;
              kept = law.save_keeps_claims t visitor_ttl id s' saved ∙ stands t refl;
              first = λ u before. first t u refl before;
            })
            (λ refused h. ground (arith, h)))
        (λ malformed h. ground (arith, h))

  claim_candidate-Grants :
      (id c : Bytes) (s s0 : S)
      → ((u : Bytes) → claimed id s0 ≡ some u → claimed id s ≡ some u)
      → Grants id s0 (claim_candidate store id c s)
  unfolding claim_candidate
  claim_candidate-Grants id c s s0 same =
      if_ind (Grants id s0) (valid_token_syntax c)
        (λ syntax.
          if_ind (Grants id s0) (store.save c visitor_ttl s).0
            (λ saved.
              let s' = (store.save c visitor_ttl s).1 in
              finish-Grants id s0 (store.claim id c bootstrap_ttl s')
                (λ t h. law.claim_stands id c bootstrap_ttl t s' h)
                (λ t u h before.
                  law.claim_first id c bootstrap_ttl t u s' h
                    (law.save_keeps_claims c visitor_ttl id s saved ∙ same u before)))
            (λ refused h. ground (arith, h)))
        (λ malformed h. ground (arith, h))

  valid-keeps_claims : (t id : Bytes) (s : S) → claimed id (valid (some store) t s).1 ≡ claimed id s
  unfolding valid
  valid-keeps_claims t id s =
      if_ind (λ (p : Bool × S). claimed id p.1 ≡ claimed id s) (valid_token_syntax t)
        (λ syntax. law.exists_keeps_claims t id s) (λ malformed. refl)

  -- Over a store that keeps its contract: when bootstrap answers ok, its token has the syntax of
  -- tokens, stands in the store and is claimed for the request, and it is the token that the
  -- request had claimed before, if any.
  pub bootstrap-IsGranted :
      (generated existing id : Bytes) (s : S)
      → (bootstrap (some store) generated existing id s).0.status ≡ ok
      → IsGranted id s (bootstrap (some store) generated existing id s)
  unfolding bootstrap
  bootstrap-IsGranted generated existing id s =
      if_ind (Grants id s) (valid_request_id id)
        (λ named.
          claim_candidate-Grants id
            (if (valid (some store) existing s).0 then existing else generated)
            (valid (some store) existing s).1 s
            (λ u before. valid-keeps_claims existing id s ∙ before))
        (λ unnamed h. ground (arith, h))

  -- Two bootstraps of one request that both answer ok give the same token, whatever tokens they
  -- bring or generate and whatever happens between them, as long as the claim stays.
  pub bootstrap-repeats :
      (g1 e1 g2 e2 id : Bytes) (s1 s2 : S)
      → (bootstrap (some store) g1 e1 id s1).0.status ≡ ok
      → claimed id s2 ≡ claimed id (bootstrap (some store) g1 e1 id s1).1
      → (bootstrap (some store) g2 e2 id s2).0.status ≡ ok
      → (bootstrap (some store) g2 e2 id s2).0.token ≡ (bootstrap (some store) g1 e1 id s1).0.token
  bootstrap-repeats g1 e1 g2 e2 id s1 s2 ok1 stays ok2 =
      let once = bootstrap-IsGranted g1 e1 id s1 ok1 in
      let again = bootstrap-IsGranted g2 e2 id s2 ok2 in
      again.first (bootstrap (some store) g1 e1 id s1).0.token (stays ∙ once.kept)

module _ {S : Type 0} (store : VisitorStore S) where
  -- Every token of the right syntax is saved.
  abbrev pub Saves : Type 0
  Saves = (t : Bytes) (r : S) → valid_token_syntax t ≡ true → (store.save t visitor_ttl r).0 ≡ true

  -- Every claim of such a token resolves to such a token.
  abbrev pub Resolves : Type 0
  Resolves =
      (id c : Bytes) (r : S)
      → valid_token_syntax c ≡ true
      → (t : Bytes) × ((store.claim id c bootstrap_ttl r).0 ≡ some t)
        × (valid_token_syntax t ≡ true)

  finish_ok :
      (t : Bytes) (p : Option Bytes × S)
      → Saves
      → p.0 ≡ some t
      → valid_token_syntax t ≡ true
      → (finish store p).0.status ≡ ok
  unfolding finish
  finish_ok t (none, s) saves h syntax = ground (arith, h)
  finish_ok t (some u, s) saves h syntax =
      let same : valid_token_syntax u ≡ true =
        subst (λ x. valid_token_syntax x ≡ true) (sym (some_inj h)) syntax in
      rw (same, saves u s same) refl

  claim_candidate_ok :
      (id c : Bytes) (s : S)
      → Saves
      → Resolves
      → valid_token_syntax c ≡ true
      → (claim_candidate store id c s).0.status ≡ ok
  unfolding claim_candidate
  claim_candidate_ok id c s saves resolves syntax =
      let s' = (store.save c visitor_ttl s).1 in
      let (t, gives, valid) = resolves id c s' syntax in
      rw (syntax, saves c s syntax)
        (finish_ok t (store.claim id c bootstrap_ttl s') saves gives valid)

  valid_only : (t : Bytes) (s : S) → (valid (some store) t s).0 ≡ true → valid_token_syntax t ≡ true
  unfolding valid
  valid_only t s =
      if_ind (λ (p : Bool × S). p.0 ≡ true → valid_token_syntax t ≡ true) (valid_token_syntax t)
        (λ syntax h. syntax) (λ malformed h. ground (arith, h))

  -- If the store saves every token of the right syntax and resolves every claim of one to such a
  -- token, bootstrap answers ok to every request id of the right syntax, whatever token the visitor
  -- brings, when the generator gives a token of the right syntax.
  pub bootstrap_ok :
      (generated existing id : Bytes) (s : S)
      → Saves
      → Resolves
      → valid_request_id id ≡ true
      → valid_token_syntax generated ≡ true
      → (bootstrap (some store) generated existing id s).0.status ≡ ok
  unfolding bootstrap
  bootstrap_ok generated existing id s saves resolves named syntax = rw (named) (
      claim_candidate_ok id _ (valid (some store) existing s).1 saves resolves (
        if_ind (λ x. valid_token_syntax x ≡ true) (valid (some store) existing s).0
          (λ e. valid_only existing s e) (λ e. syntax)))
