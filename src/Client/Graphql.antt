-- ===== src/Client/Graphql.antt =====
-- internal/ghclient/client.go: the review threads, the decision and the approvals (`ReviewStatus`).
use merge_bot.Base.{
  ℕ, suc, ◌+◌, ◌≡◌, refl, sym, ap, ◌∙◌, Bool, true, false, not, List, [], ◌∷◌, ◌++◌, arith,
  Bool-cases, inl, inr, ◌↔◌, String, str_eq, Text, codes, if◌then◌else◌,
}
use merge_bot.Merge.Errors.{Result, ok, err, plain, wrap}
use merge_bot.Merge.Github.{ReviewStatus}
use merge_bot.Client.{
  ReviewData, GraphqlAnswer, unsent, not_ok, undecodable, decoded, Api, fold_items,
}

-- The two loops over the nodes.
abbrev pub count_thread : ReviewStatus → Bool → ReviewStatus
count_thread status resolved =
    if not resolved
    then record status { unresolved_threads = status.unresolved_threads + 1 }
    else status

abbrev pub count_opinion : ReviewStatus → String → ReviewStatus
count_opinion status state =
    if str_eq state "APPROVED" then record status { approvals = status.approvals + 1 } else status

unfoldable pub status_of : ReviewData → ReviewStatus
unfolding fold_items
status_of pr =
    let status : ReviewStatus = record {
      unresolved_threads = 0;
      more_threads = pr.has_next_page;
      review_decision = pr.review_decision;
      approvals = 0;
    } in
    fold_items count_opinion (fold_items count_thread status pr.threads) pr.opinions

-- The answer, by its first error if it has one.
abbrev pub status_answer : List Text → ReviewData → Result ReviewStatus
status_answer [] pr = ok (status_of pr)
status_answer (message ∷ messages) pr = err (plain (codes "graphql: " ++ message))

abbrev pub review_answer : GraphqlAnswer → Result ReviewStatus
review_answer (unsent e) = err e
review_answer (not_ok status body) = err (plain (codes "graphql " ++ status ++ codes ": " ++ body))
review_answer (undecodable e) = err (wrap (codes "decode graphql response") e)
review_answer (decoded messages pr) = status_answer messages pr

unfoldable pub review_status : Api → ℕ → Result ReviewStatus
unfolding status_of
review_status api number = review_answer (api.graphql number)

-- How many of a list pass a test.
abbrev pub tally {ℓ} : {A : Type ℓ} → (A → Bool) → List A → ℕ
tally test [] = 0
tally test (a ∷ items) = let rest = tally test items in if test a then suc rest else rest

abbrev pub is_approval : String → Bool
is_approval state = str_eq state "APPROVED"

threads_counted :
    (status : ReviewStatus) (threads : List Bool)
    → fold_items count_thread status threads
      ≡ record status { unresolved_threads = status.unresolved_threads + tally not threads }
unfolding fold_items
threads_counted status [] = ap (λ n. record status { unresolved_threads = n }) (omega arith)
threads_counted status (true ∷ threads) = threads_counted status threads
threads_counted status (false ∷ threads) =
    threads_counted (record status { unresolved_threads = status.unresolved_threads + 1 }) threads
    ∙ ap (λ n. record status { unresolved_threads = n }) (omega arith)

opinions_counted :
    (status : ReviewStatus) (opinions : List String)
    → fold_items count_opinion status opinions
      ≡ record status { approvals = status.approvals + tally is_approval opinions }
unfolding fold_items
opinions_counted status [] = ap (λ n. record status { approvals = n }) (omega arith)
opinions_counted status (state ∷ opinions) = elim (Bool-cases (str_eq state "APPROVED")) [
  | inl approval ↦ simp approval (
      opinions_counted (record status { approvals = status.approvals + 1 }) opinions
      ∙ ap (λ n. record status { approvals = n }) (omega arith))
  | inr other ↦ simp other (opinions_counted status opinions)
]

-- The status that a decoded answer means.
abbrev pub counted_status : ReviewData → ReviewStatus
counted_status pr = record {
  unresolved_threads = tally not pr.threads;
  more_threads = pr.has_next_page;
  review_decision = pr.review_decision;
  approvals = tally is_approval pr.opinions;
}

status_of_counted : (pr : ReviewData) → status_of pr ≡ counted_status pr
unfolding status_of
status_of_counted pr =
    ap (λ s. fold_items count_opinion s pr.opinions) (threads_counted _ pr.threads)
    ∙ opinions_counted _ pr.opinions
    ∙ ground arith

-- `ReviewStatus` returns a status exactly if the exchange went well, its status was 200, and its body
-- could be decoded and names no error; the status then has the decision and the page mark of the
-- answer, the number of its threads that are not resolved, and of its reviews that approve.
pub review_status-counted :
    (api : Api) (number : ℕ) (status : ReviewStatus)
    → (review_status api number ≡ ok status)
      ↔ ((pr : ReviewData) × (api.graphql number ≡ decoded [] pr) × (status ≡ counted_status pr))
unfolding review_status
review_status-counted api number status = (answer_counted (api.graphql number), counted_answer)
  where
    ok_eq : (a b : ReviewStatus) → ok a ≡ ok b → a ≡ b
    ok_eq a b h = cc

    answer_counted :
        (answer : GraphqlAnswer)
        → review_answer answer ≡ ok status
        → (pr : ReviewData) × (answer ≡ decoded [] pr) × (status ≡ counted_status pr)
    answer_counted (unsent e) h = absurd (ground arith)
    answer_counted (not_ok s body) h = absurd (ground arith)
    answer_counted (undecodable e) h = absurd (ground arith)
    answer_counted (decoded [] pr) h = (pr, refl, ok_eq _ _ (sym h) ∙ status_of_counted pr)
    answer_counted (decoded (m ∷ ms) pr) h = absurd (ground arith)

    counted_answer :
        ((pr : ReviewData) × (api.graphql number ≡ decoded [] pr) × (status ≡ counted_status pr))
        → review_answer (api.graphql number) ≡ ok status
    counted_answer (pr, q, s) = rw q (ap ok (status_of_counted pr ∙ sym s))
