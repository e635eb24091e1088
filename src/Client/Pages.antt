-- ===== src/Client/Pages.antt =====
-- The listings of internal/ghclient/client.go, page by page.
use merge_bot.Base.{
  ℕ, zero, suc, ◌≤◌, ◌≡◌, ◌≢◌, refl, sym, ap, ◌∙◌, false, List, [], ◌∷◌, ◌++◌, append_assoc,
  append-nil, some, arith, ◌==◌, Option, Bool-cases, inl, inr,
}
use merge_bot.Merge.Errors.{Error, Result, ok, err, Result-cases}
use merge_bot.Merge.Signals.{Comment, Since}
use merge_bot.Client.{Page, Api, fold_items, fold_pages, snoc, list_comments}

-- The pages of a listing, from one on to the last: all their items, and how many pages there are.
pub data Served {A : Type 0} (fetch : ℕ → Result (Page A)) : ℕ → List A → ℕ → Type 0 where
  last_page :
      (page : ℕ) (answer : Page A)
      → fetch page ≡ ok answer
      → answer.next_page ≡ 0
      → Served fetch page answer.items 1
  more_pages :
      (page : ℕ) (answer : Page A) (items : List A) (count : ℕ)
      → fetch page ≡ ok answer
      → answer.next_page ≢ 0
      → Served fetch answer.next_page items count
      → Served fetch page (answer.items ++ items) (suc count)

-- The same for a listing that breaks off with an error.
pub data Broken {A : Type 0} (fetch : ℕ → Result (Page A)) : ℕ → Error → ℕ → Type 0 where
  broken_here : (page : ℕ) (e : Error) → fetch page ≡ err e → Broken fetch page e 1
  broken_later :
      (page : ℕ) (answer : Page A) (e : Error) (count : ℕ)
      → fetch page ≡ ok answer
      → answer.next_page ≢ 0
      → Broken fetch answer.next_page e count
      → Broken fetch page e (suc count)

pub fold_items-append {ℓ} :
    {A : Type 0} {S : Type ℓ} (step : S → A → S) (out : S) (xs ys : List A)
    → fold_items step out (xs ++ ys) ≡ fold_items step (fold_items step out xs) ys
unfolding fold_items
fold_items-append step out [] ys = refl
fold_items-append step out (x ∷ xs) ys = fold_items-append step (step out x) xs ys

pub fold_items-snoc : {A : Type 0} (out items : List A) → fold_items snoc out items ≡ out ++ items
unfolding fold_items
fold_items-snoc out [] = sym (append-nil out)
fold_items-snoc out (a ∷ items) =
    fold_items-snoc (out ++ a ∷ []) items ∙ append_assoc out (a ∷ []) items

not_last : (n : ℕ) → n ≢ 0 → n == 0 ≡ false
not_last n h = ground (arith, h)

module _ {ℓ} {A : Type 0} {S : Type ℓ} (step : S → A → S) (fetch : ℕ → Result (Page A)) where
  -- With fuel for its pages, a listing folds all its items in their order.
  pub fold_pages-Served :
      (fuel page count : ℕ) (out : S) (items : List A)
      → Served fetch page items count
      → count ≤ fuel
      → fold_pages step fetch fuel out page ≡ some (ok (fold_items step out items))
  unfolding fold_pages
  fold_pages-Served zero _ _ out _ (last_page page answer q done) enough =
      absurd (omega (arith, enough))
  fold_pages-Served zero _ _ out _ (more_pages page answer items count q more served) enough =
      absurd (omega (arith, enough))
  fold_pages-Served (suc fuel) _ _ out _ (last_page page answer q done) enough =
      simp (q, done, fold_pages)
  fold_pages-Served (suc fuel) _ _ out _ (more_pages page answer items count q more served) enough =
      simp (q, not_last answer.next_page more, fold_pages)
        (fold_pages-Served fuel answer.next_page count (fold_items step out answer.items) items
            served (omega (arith, enough))
          ∙ ap (λ s. some (ok s)) (sym (fold_items-append step out answer.items items)))

  pub fold_pages-Broken :
      (fuel page count : ℕ) (out : S) (e : Error)
      → Broken fetch page e count
      → count ≤ fuel
      → fold_pages step fetch fuel out page ≡ some (err e)
  unfolding fold_pages
  fold_pages-Broken zero _ _ out _ (broken_here page e q) enough = absurd (omega (arith, enough))
  fold_pages-Broken zero _ _ out _ (broken_later page answer e count q more broken) enough =
      absurd (omega (arith, enough))
  fold_pages-Broken (suc fuel) _ _ out _ (broken_here page e q) enough = simp (q, fold_pages)
  fold_pages-Broken (suc fuel) _ _ out _ (broken_later page answer e count q more broken) enough =
      simp (q, not_last answer.next_page more, fold_pages)
        (fold_pages-Broken fuel answer.next_page count (fold_items step out answer.items) e broken
          (omega (arith, enough)))

  -- A listing that was read had pages that ended, and fuel for them.
  pub Served-fold_pages :
      (fuel page : ℕ) (out out' : S)
      → fold_pages step fetch fuel out page ≡ some (ok out')
      → (items : List A) × (count : ℕ) × Served fetch page items count × (count ≤ fuel)
  unfolding fold_pages
  Served-fold_pages zero page out out' h = absurd (ground arith)
  Served-fold_pages (suc fuel) page out out' h = elim (Result-cases (fetch page)) [
    | inr (e, q) ↦ absurd (ground arith)
    | inl (answer, q) ↦ elim (Bool-cases (answer.next_page == 0)) [
      | inl last ↦ (answer.items, 1, last_page page answer q (ground arith), omega arith)
      | inr more ↦
          let (items, count, served, enough) =
            Served-fold_pages fuel answer.next_page (fold_items step out answer.items) out'
              (simp (q, more, fold_pages) at h) in
          (
            answer.items ++ items,
            suc count,
            more_pages page answer items count q (ground arith) served,
            omega (arith, enough),
          )
    ]
  ]

  -- A listing whose pages end comes to its end only with fuel for them.
  pub enough_fuel :
      (fuel page count : ℕ) (out : S) (items : List A) (x : Result S)
      → Served fetch page items count
      → fold_pages step fetch fuel out page ≡ some x
      → count ≤ fuel
  unfolding fold_pages
  enough_fuel zero page count out items x served h = absurd (ground arith)
  enough_fuel (suc fuel) _ _ out _ x (last_page page answer q done) h = omega arith
  enough_fuel (suc fuel) _ _ out _ x (more_pages page answer items count q more served) h = omega (
    arith,
    enough_fuel fuel answer.next_page count (fold_items step out answer.items) items x served
        (simp (q, not_last answer.next_page more, fold_pages) at h),
  )

-- If the pages of a pull request's comments end, then, with fuel for as many rounds as there are pages,
-- `ListComments` returns the comments of all pages in their order.
pub list_comments-Served :
    (api : Api) (fuel number count : ℕ) (since : Option Since) (items : List Comment)
    → Served (api.issue_comments number since) 0 items count
    → count ≤ fuel
    → list_comments api fuel number since ≡ some (ok items)
unfolding list_comments
list_comments-Served api fuel number count since items served enough =
    fold_pages-Served snoc (api.issue_comments number since) fuel 0 count [] items served enough
    ∙ ap (λ s. some (ok s)) (fold_items-snoc [] items)

-- If a page of the comments cannot be read, `ListComments` returns that error, and no comment.
pub list_comments-Broken :
    (api : Api) (fuel number count : ℕ) (since : Option Since) (e : Error)
    → Broken (api.issue_comments number since) 0 e count
    → count ≤ fuel
    → list_comments api fuel number since ≡ some (err e)
unfolding list_comments
list_comments-Broken api fuel number count since e broken enough =
    fold_pages-Broken snoc (api.issue_comments number since) fuel 0 count [] e broken enough
