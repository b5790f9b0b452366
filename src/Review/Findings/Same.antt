-- ===== src/Review/Findings/Same.antt =====
-- What `canonical_findings` of src/review/ai.rs compares: two lists with the same canonical form hold the
-- same findings.
use git_lab_work_runner.Base.{
  ℕ, ◌≡◌, ◌↔◌, refl, sym, ap, ◌∙◌, subst, ◌⊎◌, inl, inr, true, Option, none, some, List, [], ◌∷◌,
  arith, str_eq_iff, if_holds,
}
use git_lab_work_runner.Review.Rules.{Finding, Severity, info, warning, error}
use git_lab_work_runner.Review.Findings.{
  severity_eq, line_eq, finding_eq, finding_le, insert_sorted, sort_findings, dedup_from, dedup,
  canonical_findings, findings_eq,
}

severity_eq-eq : (a b : Severity) → severity_eq a b ≡ true → a ≡ b
severity_eq-eq info info h = refl
severity_eq-eq warning warning h = refl
severity_eq-eq error error h = refl
severity_eq-eq info warning h = cc
severity_eq-eq info error h = cc
severity_eq-eq warning info h = cc
severity_eq-eq warning error h = cc
severity_eq-eq error info h = cc
severity_eq-eq error warning h = cc

line_eq-eq : (a b : Option ℕ) → line_eq a b ≡ true → a ≡ b
line_eq-eq none none h = refl
line_eq-eq none (some n) h = cc
line_eq-eq (some m) none h = cc
line_eq-eq (some m) (some n) h = ap (λ k. some k) (ground (arith, h))

finding_eq-eq : (a b : Finding) → finding_eq a b ≡ true → a ≡ b
finding_eq-eq a b h =
    let rule : a.rule_id ≡ b.rule_id = (str_eq_iff a.rule_id b.rule_id).0 (ground arith) in
    let path : a.path ≡ b.path = (str_eq_iff a.path b.path).0 (ground arith) in
    let title : a.title ≡ b.title = (str_eq_iff a.title b.title).0 (ground arith) in
    let message : a.message ≡ b.message = (str_eq_iff a.message b.message).0 (ground arith) in
    let severity = severity_eq-eq a.severity b.severity (ground arith) in
    let line = line_eq-eq a.new_line b.new_line (ground arith) in cc

findings_eq-eq : (xs ys : List Finding) → findings_eq xs ys ≡ true → xs ≡ ys
findings_eq-eq [] [] h = refl
findings_eq-eq [] (y ∷ ys) h = cc
findings_eq-eq (x ∷ xs) [] h = cc
findings_eq-eq (x ∷ xs) (y ∷ ys) h =
    let same = finding_eq-eq x y (ground arith) in
    let rest = findings_eq-eq xs ys (ground arith) in cc

-- The finding is in the list.
abbrev pub Reports : Finding → List Finding → Type 0
Reports f [] = ⊥
Reports f (g ∷ rest) = (g ≡ f) ⊎ Reports f rest

-- The lists hold the same findings, in any order and any number of times.
abbrev pub AreSame : List Finding → List Finding → Type 0
AreSame xs ys = (f : Finding) → Reports f xs ↔ Reports f ys

insert_sorted-AreSame : (g : Finding) (xs : List Finding) → AreSame (insert_sorted g xs) (g ∷ xs)
insert_sorted-AreSame g [] f = ((λ h. h), (λ h. h))
insert_sorted-AreSame g (x ∷ xs) f =
    if_holds (λ ys. Reports f ys ↔ Reports f (g ∷ x ∷ xs)) (finding_le g x) _ _
      (λ y. ((λ h. h), (λ h. h)))
      (λ n.
        let (there, back) = insert_sorted-AreSame g xs f in
        (
          (λ h. elim h [
            | inl e ↦ inr (inl e)
            | inr r ↦ elim (there r) [ inl e ↦ inl e | inr r' ↦ inr (inr r') ]
          ]),
          (λ h. elim h [
            | inl e ↦ inr (back (inl e))
            | inr r ↦ elim r [ inl e ↦ inl e | inr r' ↦ inr (back (inr r')) ]
          ]),
        ))

sort_findings-AreSame : (xs : List Finding) → AreSame (sort_findings xs) xs
unfolding sort_findings
sort_findings-AreSame [] f = ((λ h. h), (λ h. h))
sort_findings-AreSame (x ∷ xs) f =
    let (there, back) = insert_sorted-AreSame x (sort_findings xs) f in
    let (there', back') = sort_findings-AreSame xs f in
    (
      (λ h. elim (there h) [ inl e ↦ inl e | inr r ↦ inr (there' r) ]),
      (λ h. back (elim h [ inl e ↦ inl e | inr r ↦ inr (back' r) ])),
    )

dedup_from-AreSame : (g : Finding) (xs : List Finding) → AreSame (dedup_from g xs) (g ∷ xs)
dedup_from-AreSame g [] f = ((λ h. h), (λ h. h))
dedup_from-AreSame g (x ∷ xs) f =
    if_holds (λ ys. Reports f ys ↔ Reports f (g ∷ x ∷ xs)) (finding_eq x g) _ _
      (λ y.
        let (there, back) = dedup_from-AreSame g xs f in
        let same = finding_eq-eq x g y in
        (
          (λ h. elim (there h) [ inl e ↦ inl e | inr r ↦ inr (inr r) ]),
          (λ h. back (elim h [
            | inl e ↦ inl e
            | inr r ↦ elim r [ inl e ↦ inl (sym same ∙ e) | inr r' ↦ inr r' ]
          ])),
        ))
      (λ n.
        let (there, back) = dedup_from-AreSame x xs f in
        (
          (λ h. elim h [ inl e ↦ inl e | inr r ↦ inr (there r) ]),
          (λ h. elim h [ inl e ↦ inl e | inr r ↦ inr (back r) ]),
        ))

dedup-AreSame : (xs : List Finding) → AreSame (dedup xs) xs
dedup-AreSame [] f = ((λ h. h), (λ h. h))
dedup-AreSame (x ∷ xs) f = dedup_from-AreSame x xs f

canonical_findings-AreSame : (xs : List Finding) → AreSame (canonical_findings xs) xs
unfolding canonical_findings
canonical_findings-AreSame xs f =
    let (there, back) = dedup-AreSame (sort_findings xs) f in
    let (there', back') = sort_findings-AreSame xs f in
    ((λ h. there' (there h)), (λ h. back (back' h)))

-- Lists whose canonical forms are equal hold the same findings.
pub findings_eq-AreSame :
    (xs ys : List Finding)
    → findings_eq (canonical_findings xs) (canonical_findings ys) ≡ true
    → AreSame xs ys
findings_eq-AreSame xs ys h f =
    let same = findings_eq-eq (canonical_findings xs) (canonical_findings ys) h in
    let (there, back) = canonical_findings-AreSame xs f in
    let (there', back') = canonical_findings-AreSame ys f in
    (
      (λ r. there' (subst (Reports f) same (back r))),
      (λ r. there (subst (Reports f) (sym same) (back' r))),
    )
