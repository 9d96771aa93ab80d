-- ===== src/Provisioner/Listing/Pages.antt =====
-- A listing that follows the cursors of the service to the last page.
use apprun_dedicated_provisi.Base.{
  ℕ, suc, zero, ◌≤◌, Bool, true, false, List, ◌++◌, ◌≡◌, refl, ap, ◌∙◌, arith,
}
use mathlib.Core.List.{append_assoc}
use apprun_dedicated_provisi.Api.{Opt}
use apprun_dedicated_provisi.Platform.{Platform, Action, Env, Page, ok, pure, ◌>>=◌, continue}
use apprun_dedicated_provisi.Provisioner.Listing.{follow}

module _ {P : Platform} {A C : Type 0} (fetch : Opt C → Action P (Page A C))
    (more : Opt C → Bool) where
  -- From a cursor on the service answers with so many pages, of which the last has no next cursor:
  -- these items, and the environment that they leave.
  pub data Pages : Opt C → Env P → List A → Env P → ℕ → Type 0 where
    last :
        {cursor : Opt C} {env env' : Env P} (page : Page A C)
        → fetch cursor env ≡ (ok page, env')
        → more page.next_cursor ≡ false
        → Pages cursor env page.items env' 1
    before :
        {cursor : Opt C} {env env' end : Env P} {items : List A} {n : ℕ} (page : Page A C)
        → fetch cursor env ≡ (ok page, env')
        → more page.next_cursor ≡ true
        → Pages page.next_cursor env' items end n
        → Pages cursor env (page.items ++ items) end (suc n)

  -- The loop of the listings returns the items of all pages, in their order, and none twice, as soon
  -- as there is fuel for as many rounds as the service has pages.
  pub follow-Pages :
      (f : ℕ) (cursor : Opt C) (all : List A) (env end : Env P) (items : List A) (n : ℕ)
      → Pages cursor env items end n
      → n ≤ f
      → follow f fetch more cursor all env ≡ (ok (all ++ items), end)
  unfolding follow ◌>>=◌ continue pure
  follow-Pages zero cursor all env end items n (last page fetched done) le =
      absurd (omega (arith, le))
  follow-Pages zero cursor all env end items n (before page fetched again pages) le =
      absurd (omega (arith, le))
  follow-Pages (suc f) cursor all env end items n (last page fetched done) le =
      rw (fetched, done, follow) refl
  follow-Pages (suc f) cursor all env end items n (before {env' = env'} page fetched again pages)
        le =
      rw (fetched, again, follow)
        (follow-Pages f page.next_cursor (all ++ page.items) env' end _ _ pages (omega (arith, le))
          ∙ ap (λ items. (ok items, end)) (append_assoc all page.items _))
