-- ===== src/Main/Repo.antt =====
-- `splitRepo` of main.go.
use merge_bot.Base.{
  ◌≡◌, ◌≢◌, ◌↔◌, refl, sym, subst, ap, ◌∙◌, false, [], ◌∷◌, ◌++◌, Option, none, some, arith, String,
  Text, codes, Bool-cases, inl, inr, All, ◌==◌,
}
use merge_bot.Merge.Errors.{ok}
use merge_bot.Main.{cut_slash, repo_parts, split_repo}

-- No slash stands in a text.
abbrev pub NoSlash : Text → Type 0
NoSlash text = All (λ c. c ≢ b'/') text

-- The text is an owner, a slash, and a name, neither of them empty. The name may hold slashes.
abbrev pub Splits : Text → Text → Text → Type 0
Splits repo owner name = (repo ≡ owner ++ b'/' ∷ name) × NoSlash owner × (owner ≢ []) × (name ≢ [])

cut_slash-some :
    (s after : Text)
    → (cut_slash s).1 ≡ some after
    → (s ≡ (cut_slash s).0 ++ b'/' ∷ after) × NoSlash (cut_slash s).0
unfolding cut_slash
cut_slash-some [] after h = absurd (ground (arith, h))
cut_slash-some (c ∷ s) after h = elim (Bool-cases (c == b'/')) [
  | inl slash ↦
      let here : cut_slash (c ∷ s) ≡ ([], some s) = simp slash in
      let is_slash : c ≡ b'/' = ground (arith, slash) in
      let same : some s ≡ some after = sym (ap (λ (x : Text × Option Text). x.1) here) ∙ h in
      rw here (cc (is_slash, same), tt)
  | inr other ↦
      let later : cut_slash (c ∷ s) ≡ (c ∷ (cut_slash s).0, (cut_slash s).1) = simp other in
      let cut : (cut_slash s).1 ≡ some after =
        sym (ap (λ (x : Text × Option Text). x.1) later) ∙ h in
      let (whole, free) = cut_slash-some s after cut in
      rw later (ap (λ t. c ∷ t) whole, (ground (arith, other), free))
]

cut_slash-append :
    (owner name : Text) → NoSlash owner → cut_slash (owner ++ b'/' ∷ name) ≡ (owner, some name)
unfolding cut_slash
cut_slash-append [] name h = refl
cut_slash-append (c ∷ owner) name (differs, h) =
    let other : c == b'/' ≡ false = ground (arith, differs) in
    simp (other, cut_slash-append owner name h)

repo_parts-ok :
    (repo : String) (cut : Text × Option Text) (owner name : Text)
    → repo_parts repo cut ≡ ok (owner, name)
    → (cut ≡ (owner, some name)) × (owner ≢ []) × (name ≢ [])
repo_parts-ok repo ([], none) owner name h = absurd (ground (arith, h))
repo_parts-ok repo ([], some n) owner name h = absurd (ground (arith, h))
repo_parts-ok repo (c ∷ o, none) owner name h = absurd (ground (arith, h))
repo_parts-ok repo (c ∷ o, some []) owner name h = absurd (ground (arith, h))
repo_parts-ok repo (c ∷ o, some (d ∷ n)) owner name h =
    (cc h, (λ e. ground (arith, h, e)), (λ e. ground (arith, h, e)))

ok-repo_parts :
    (repo : String) (owner name : Text)
    → owner ≢ []
    → name ≢ []
    → repo_parts repo (owner, some name) ≡ ok (owner, name)
ok-repo_parts repo [] name o n = absurd (o refl)
ok-repo_parts repo (c ∷ owner) [] o n = absurd (n refl)
ok-repo_parts repo (c ∷ owner) (d ∷ name) o n = refl

-- `splitRepo` succeeds if and only if the flag is an owner without a slash, a slash, and a name, neither
-- of them empty, and these are what it returns; the name may hold further slashes.
pub split_repo-Splits_iff :
    (repo : String) (owner name : Text)
    → (split_repo repo ≡ ok (owner, name)) ↔ Splits (codes repo) owner name
unfolding split_repo
split_repo-Splits_iff repo owner name = (
  (λ h.
      let (cut, o, n) = repo_parts-ok repo (cut_slash (codes repo)) owner name h in
      let found = ap (λ (x : Text × Option Text). x.1) cut in
      let front = ap (λ (x : Text × Option Text). x.0) cut in
      let (whole, free) = cut_slash-some (codes repo) name found in
      (whole ∙ ap (λ f. f ++ b'/' ∷ name) front, subst NoSlash front free, o, n)),
  (λ (whole, free, o, n).
      ap (λ t. repo_parts repo (cut_slash t)) whole
      ∙ ap (repo_parts repo) (cut_slash-append owner name free)
      ∙ ok-repo_parts repo owner name o n),
)
