-- ===== src/Review/Findings/Agreed.antt =====
-- When the candidates of an answer make a result: src/review/ai.rs, `parse_final_findings_candidates`.
use git_lab_work_runner.Base.{
  ℕ, suc, ◌+◌, ◌≤◌, ◌≡◌, ◌≢◌, refl, sym, ap, ◌∙◌, subst, ◌⊎◌, inl, inr, true, Option, none, some,
  List, [], ◌∷◌, ◌++◌, append_assoc, append-nil, arith, ltb, if◌then◌else◌, Bool-cases,
  Option-cases, Str, trim, is_empty, length, length-append, all, All, max, Result, ok, err, ◌>>=◌,
  >>=-eq-ok,
}
use git_lab_work_runner.App.Error.{AppError}
use git_lab_work_runner.Review.Rules.{Finding}
use git_lab_work_runner.Review.Findings.{
  AiFinding, OpenAiMessage, extract_json_objects, canonical_findings, findings_eq, note,
  FinalFindingsParseFailure, Candidates, try_content, try_message_content, no_object, objects_from,
  parse_single_findings_candidate, try_candidates, settle, submitted,
  parse_final_findings_candidates,
}
use git_lab_work_runner.Review.Findings.Same.{AreSame, findings_eq-AreSame}

list-cases {ℓ} :
    {A : Type ℓ} (xs : List A) → (xs ≡ []) ⊎ ((x : A) × (rest : List A) × (xs ≡ x ∷ rest))
list-cases [] = inl refl
list-cases (x ∷ rest) = inr (x, rest, refl)

module _ (from_json : Str → Result Str (List AiFinding)) (review_id : Str) where
  -- The findings of the candidates that are valid, in their order.
  abbrev pub keep_ok : Result AppError (List Finding) → List (List Finding) → List (List Finding)
  keep_ok (ok findings) later = findings ∷ later
  keep_ok (err e) later = later

  abbrev pub valid_of : List Str → List (List Finding)
  valid_of [] = []
  valid_of (content ∷ rest) =
      keep_ok (parse_single_findings_candidate from_json review_id content) (valid_of rest)

  abbrev IsTried : Candidates → List Str → Candidates → Type 0
  IsTried s contents t =
      (t.candidate_count ≡ s.candidate_count + length contents)
      × (t.valid_candidates ≡ s.valid_candidates ++ valid_of contents)

  note-IsTried :
      (s : Candidates) (content : Str) (rest : List Str) (t : Candidates)
      → IsTried
          (note from_json review_id s (parse_single_findings_candidate from_json review_id content))
          rest
          t
      → IsTried s (content ∷ rest) t
  note-IsTried s content rest t p =
      by_answer (parse_single_findings_candidate from_json review_id content) p
    where
      by_answer :
          (r : Result AppError (List Finding))
          → IsTried (note from_json review_id s r) rest t
          → (t.candidate_count ≡ s.candidate_count + suc (length rest))
            × (t.valid_candidates ≡ s.valid_candidates ++ keep_ok r (valid_of rest))
      by_answer (ok findings) p = (
        omega (arith, p.0),
        p.1 ∙ append_assoc s.valid_candidates (findings ∷ []) (valid_of rest),
      )
      by_answer (err e) p = (omega (arith, p.0), p.1)

  note-count :
      (s : Candidates) (r : Result AppError (List Finding))
      → (note from_json review_id s r).candidate_count ≡ s.candidate_count + 1
  note-count s (ok findings) = refl
  note-count s (err e) = refl

  try_candidates-IsTried :
      (s : Candidates) (contents : List Str) (t : Candidates)
      → try_candidates from_json review_id s contents ≡ ok t
      → IsTried s contents t × (t.candidate_count ≤ max s.candidate_count 8)
  unfolding try_candidates
  try_candidates-IsTried s [] t h =
      let same : s ≡ t = cc in
      (
        (
          omega (arith, ap (λ x. x.candidate_count) same),
          sym (ap (λ x. x.valid_candidates) same) ∙ sym (append-nil s.valid_candidates),
        ),
        omega (arith, ap (λ x. x.candidate_count) same),
      )
  try_candidates-IsTried s (content ∷ rest) t h =
      elim (Bool-cases (ltb 8 (s.candidate_count + 1))) [
        | inl y ↦ absurd (err-ok (rw (y, try_candidates) at h))
        | inr n ↦
            let r = parse_single_findings_candidate from_json review_id content in
            let (tried, bound) =
              try_candidates-IsTried (note from_json review_id s r) rest t
                (rw (n, try_candidates) at h) in
            (note-IsTried s content rest t tried, ground (arith, bound, n, note-count s r))
      ]
    where
      err-ok : {e : FinalFindingsParseFailure} → err e ≢ ok t
      err-ok k = cc

  valid_of-append : (xs ys : List Str) → valid_of (xs ++ ys) ≡ valid_of xs ++ valid_of ys
  valid_of-append [] ys = refl
  valid_of-append (x ∷ xs) ys =
      by_answer (parse_single_findings_candidate from_json review_id x) (valid_of xs) (valid_of ys)
        (valid_of-append xs ys)
    where
      by_answer :
          (r : Result AppError (List Finding)) (xs1 ys1 : List (List Finding))
          {later : List (List Finding)}
          → later ≡ xs1 ++ ys1
          → keep_ok r later ≡ keep_ok r xs1 ++ ys1
      by_answer (ok findings) xs1 ys1 e = ap (◌∷◌ findings) e
      by_answer (err e) xs1 ys1 h = h

  -- The others hold the findings of the first, and no other findings.
  abbrev pub AreAgreed : List Finding → List (List Finding) → Type 0
  AreAgreed first rest = All (λ candidate. AreSame candidate first) rest

  all-AreAgreed :
      (first : List Finding) (rest : List (List Finding))
      → all
          (λ candidate. findings_eq (canonical_findings candidate) (canonical_findings first))
          rest
        ≡ true
      → AreAgreed first rest
  all-AreAgreed first [] h = tt
  all-AreAgreed first (candidate ∷ rest) h = (
    findings_eq-AreSame candidate first (ground (arith, h)),
    all-AreAgreed first rest (ground (arith, h)),
  )

  settled_same :
      (r : Result FinalFindingsParseFailure (List Finding)) {a b : List Finding}
      → r ≡ ok a
      → r ≡ ok b
      → a ≡ b
  settled_same r h k = cc

  settle-AreAgreed :
      (s : Candidates) (findings : List Finding)
      → settle from_json review_id s ≡ ok findings
      → (rest : List (List Finding)) × (s.valid_candidates ≡ findings ∷ rest)
        × AreAgreed findings rest
  unfolding settle
  settle-AreAgreed s findings h = elim (list-cases s.valid_candidates) [
    | inl e ↦ elim (Option-cases s.last_error) [
      | inl n ↦ absurd (err-ok (rw (e, n, settle) at h))
      | inr (k, n) ↦ absurd (err-ok (rw (e, n, settle) at h))
    ]
    | inr (first, rest, e) ↦
        elim (Bool-cases (
          all (λ candidate. findings_eq (canonical_findings candidate) (canonical_findings first))
            rest)) [
              | inl y ↦
                  let same = settled_same (ok first) refl (rw (e, y, settle) at h) in
                  (
                    rest,
                    e ∙ ap (λ x. x ∷ rest) same,
                    subst (λ x. AreAgreed x rest) same (all-AreAgreed first rest y),
                  )
              | inr n ↦ absurd (err-ok (rw (e, n, settle) at h))
            ]
  ]
    where
      err-ok : {e : FinalFindingsParseFailure} → err e ≢ ok findings
      err-ok k = cc

  module _ (json_end : Str → Option ℕ) where
    -- The candidates in the text of an answer.
    abbrev pub contents_of : Option Str → List Str
    contents_of none = []
    contents_of (some content) = extract_json_objects json_end (trim content)

    try_content-IsTried :
        (s t : Candidates) (trimmed : Str)
        → try_content from_json review_id json_end s trimmed ≡ ok t
        → IsTried s (extract_json_objects json_end trimmed) t
          × (t.candidate_count ≤ max s.candidate_count 8)
    try_content-IsTried s t trimmed h = by_objects (extract_json_objects json_end trimmed) h
      where
        by_objects :
            (objects : List Str)
            → (if is_empty objects
                then ok (record s { last_error = some no_object })
                else try_candidates from_json review_id s objects)
              ≡ ok t
            → IsTried s objects t × (t.candidate_count ≤ max s.candidate_count 8)
        by_objects [] h =
            let count : s.candidate_count ≡ t.candidate_count = cc in
            let valid : s.valid_candidates ≡ t.valid_candidates = cc in
            (
              (omega (arith, count), sym valid ∙ sym (append-nil s.valid_candidates)),
              omega (arith, count),
            )
        by_objects (o ∷ rest) h = try_candidates-IsTried s (o ∷ rest) t h

    try_message_content-IsTried :
        (s t : Candidates) (content : Option Str)
        → try_message_content from_json review_id json_end s content ≡ ok t
        → IsTried s (contents_of content) t × (t.candidate_count ≤ max s.candidate_count 8)
    unfolding try_candidates objects_from
    try_message_content-IsTried s t none h = try_candidates-IsTried s [] t h
    try_message_content-IsTried s t (some content) h = by_trimmed (trim content) h
      where
        by_trimmed :
            (trimmed : Str)
            → (if is_empty trimmed
                then ok s
                else try_content from_json review_id json_end s trimmed)
              ≡ ok t
            → IsTried s (extract_json_objects json_end trimmed) t
              × (t.candidate_count ≤ max s.candidate_count 8)
        by_trimmed [] h = try_candidates-IsTried s [] t h
        by_trimmed (c ∷ rest) h = try_content-IsTried s t (c ∷ rest) h

    -- The candidates of an answer: what it submits by its tool, then the objects in its text.
    abbrev pub candidates_of : OpenAiMessage → List Str
    candidates_of message =
        submitted from_json review_id json_end message ++ contents_of message.content

    -- Where an answer makes findings, it has eight candidates at most; the findings are those of the
    -- first candidate that is valid; and every other valid candidate holds exactly the same findings, in
    -- any order and any number of times each.
    pub parse_final-AreAgreed :
        (message : OpenAiMessage) (findings : List Finding)
        → parse_final_findings_candidates from_json review_id json_end message ≡ ok findings
        → (rest : List (List Finding)) × (valid_of (candidates_of message) ≡ findings ∷ rest)
          × AreAgreed findings rest
          × (length (candidates_of message) ≤ 8)
    unfolding parse_final_findings_candidates
    parse_final-AreAgreed message findings h =
        let start : Candidates = record {
          last_error = none;
          valid_candidates = [];
          candidate_count = 0;
        } in
        let calls = submitted from_json review_id json_end message in
        let (s, es, h1) =
          >>=-eq-ok (try_candidates from_json review_id start calls)
            (λ s.
              try_message_content from_json review_id json_end s message.content
              >>= (λ t. settle from_json review_id t))
            h in
        let (t, et, h2) =
          >>=-eq-ok (try_message_content from_json review_id json_end s message.content)
            (λ t. settle from_json review_id t) h1 in
        let (rest, valid, agreed) = settle-AreAgreed t findings h2 in
        let (first, first_bound) = try_candidates-IsTried start calls s es in
        let (second, second_bound) = try_message_content-IsTried s t message.content et in
        (
          rest,
          valid_of-append calls (contents_of message.content)
              ∙ ap (λ xs. xs ++ valid_of (contents_of message.content)) (sym first.1)
              ∙ sym second.1
              ∙ valid,
          agreed,
          omega (
            arith,
            first_bound,
            second_bound,
            first.0,
            second.0,
            length-append calls (contents_of message.content),
          ),
        )
