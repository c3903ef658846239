-- ===== src/Oauth/Once.antt =====
-- States and page selections in backend/src/auth/pg-oauth-account.repository.ts are consumed once.
use social_promotion_automat.Base.{
  ℕ, ◌≤◌, String, Bool, true, false, none, some, List, [], ◌∷◌, ◌≡◌, refl, sym, subst, arith, inl,
  inr, find, update, Option-cases,
}
use social_promotion_automat.Oauth.{
  StateRow, PageSelectionRecord, OauthDb, is_consumable, consumed_row, consume_state, is_selectable,
  consumed_selection, is_page, consume_facebook_page_selection,
}

module _ {A : Type 0} (p q : A → Bool) (f : A → A) (gone : (x : A) → p x ≡ true → q (f x) ≡ false)
    (stays : (x : A) → p x ≡ false → q x ≡ false) where
  find_gone : (xs : List A) → find q (update p f xs) ≡ none
  unfolding find update
  find_gone [] = refl
  find_gone (x ∷ xs) = ground (arith, gone x, stays x, find_gone xs)

  update_gone : (g : A → A) (xs : List A) → update q g (update p f xs) ≡ update p f xs
  unfolding update
  update_gone g [] = refl
  update_gone g (x ∷ xs) = ground (arith, gone x, stays x, update_gone g xs)

-- What a consumption has written.
abbrev pub consumed_states : String → ℕ → OauthDb → List StateRow
consumed_states hash now s = update (is_consumable hash now) (consumed_row now) s.states

states_gone :
    (hash : String) (now now' : ℕ) (s s' : OauthDb)
    → now ≤ now'
    → s'.states ≡ consumed_states hash now s
    → consume_state hash now' s' ≡ (none, s')
unfolding consume_state
states_gone hash now now' s s' h e =
    let nothing : find (is_consumable hash now') s'.states ≡ none = rw e (
      find_gone (is_consumable hash now) (is_consumable hash now') (consumed_row now)
        (λ x a. ground arith) (λ x a. ground arith) s.states) in
    let same : update (is_consumable hash now') (consumed_row now') s'.states ≡ s'.states = rw e (
      update_gone (is_consumable hash now) (is_consumable hash now') (consumed_row now)
        (λ x a. ground arith) (λ x a. ground arith) (consumed_row now') s.states) in
    rw (nothing, consume_state) (rw (same, consume_state) refl)

-- A state is consumed at most once: a later consumption of the same hash finds nothing and writes nothing, even
-- if other tables have changed in between.
pub consume_state_once :
    (hash : String) (now now' : ℕ) (s s' : OauthDb)
    → now ≤ now'
    → s'.states ≡ (consume_state hash now s).1.states
    → consume_state hash now' s' ≡ (none, s')
unfolding consume_state
consume_state_once hash now now' s s' h e = states_gone hash now now' s s' h e

selections_taken :
    (hash user_id page_id : String) (now : ℕ) (s : OauthDb) (r : PageSelectionRecord)
    → (consume_facebook_page_selection hash user_id page_id now s).0 ≡ some r
    → (consume_facebook_page_selection hash user_id page_id now s).1 ≡ record s {
      selections = update (is_selectable hash user_id now) (consumed_selection now) s.selections;
    }
unfolding consume_facebook_page_selection
selections_taken hash user_id page_id now s r done =
    elim (Option-cases (find (is_selectable hash user_id now) s.selections)) [
      | inl lost ↦ absurd (ground arith)
      | inr (selection, e) ↦ elim (Option-cases (find (is_page hash page_id) s.pages)) [
        | inl no_page ↦ absurd (ground arith)
        | inr (page, found) ↦
            rw (e, consume_facebook_page_selection)
              (rw (found, consume_facebook_page_selection) refl)
      ]
    ]

selection_gone :
    (hash user_id page_id : String) (now now' : ℕ) (s : OauthDb)
    → now ≤ now'
    → let s' = record s {
      selections = update (is_selectable hash user_id now) (consumed_selection now) s.selections;
    } in
      consume_facebook_page_selection hash user_id page_id now' s' ≡ (none, s')
unfolding consume_facebook_page_selection
selection_gone hash user_id page_id now now' s h =
    let nothing : find (is_selectable hash user_id now')
          (update (is_selectable hash user_id now) (consumed_selection now) s.selections)
        ≡ none =
      find_gone (is_selectable hash user_id now) (is_selectable hash user_id now')
        (consumed_selection now) (λ x a. ground arith) (λ x a. ground arith) s.selections in
    rw (nothing, consume_facebook_page_selection) refl

-- A page selection that was consumed cannot be consumed again by its user, for any page.
pub consume_selection_once :
    (hash user_id page_id page_id' : String) (now now' : ℕ) (s : OauthDb) (r : PageSelectionRecord)
    → (consume_facebook_page_selection hash user_id page_id now s).0 ≡ some r
    → now ≤ now'
    → let s' = (consume_facebook_page_selection hash user_id page_id now s).1 in
      consume_facebook_page_selection hash user_id page_id' now' s' ≡ (none, s')
consume_selection_once hash user_id page_id page_id' now now' s r done h =
    subst (λ s'. consume_facebook_page_selection hash user_id page_id' now' s' ≡ (none, s'))
      (sym (selections_taken hash user_id page_id now s r done))
      (selection_gone hash user_id page_id' now now' s h)

-- A choice of a page that is not offered changes nothing: the selection can still be used.
pub consume_selection_rolls_back :
    (hash user_id page_id : String) (now : ℕ) (s : OauthDb)
    → (consume_facebook_page_selection hash user_id page_id now s).0 ≡ none
    → (consume_facebook_page_selection hash user_id page_id now s).1 ≡ s
unfolding consume_facebook_page_selection
consume_selection_rolls_back hash user_id page_id now s h = ground arith
