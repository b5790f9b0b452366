-- ===== src/Review/Batches/Packs.antt =====
-- The packing loop of `plan_ai_review_batches` in src/review/ai.rs.
use native.Mathlib.Nat.{mul_comm}
use git_lab_work_runner.Base.{
  ℕ, suc, ◌+◌, ◌*◌, ◌≤◌, ◌<◌, ◌≡◌, ◌≢◌, refl, sym, ap, ◌∙◌, subst, ◌⊎◌, inl, inr, true, not, ◌&&◌,
  List, [], ◌∷◌, ◌++◌, append_assoc, append-nil, arith, ltb, Bool-cases, is_empty, length, All,
  All-append, concat, concat-append, sum_by, sum_by-append,
}
use git_lab_work_runner.Review.WorkItems.{ReviewWorkItem}
use git_lab_work_runner.Review.Batches.{
  Packing, empty_packing, pack_item, pack_items, finish_packing, pack,
}

abbrev pub batch_bytes : List ReviewWorkItem → ℕ
batch_bytes b = sum_by (λ (i : ReviewWorkItem). i.payload_diff_bytes) b

-- A batch holds an item at least, and more than one only within the limit.
abbrev pub IsBatch : ℕ → List ReviewWorkItem → Type 0
IsBatch limit b = (b ≢ []) × ((batch_bytes b ≤ limit) ⊎ (length b ≡ 1))

-- Two batches in a row would not fit one.
abbrev pub AreTight : ℕ → List (List ReviewWorkItem) → Type 0
AreTight limit [] = Unit
AreTight limit (a ∷ []) = Unit
AreTight limit (a ∷ b ∷ rest) = (limit < batch_bytes a + batch_bytes b) × AreTight limit (b ∷ rest)

AreTight-grow :
    (limit : ℕ) (xs : List (List ReviewWorkItem)) (a b : List ReviewWorkItem)
    → batch_bytes a ≤ batch_bytes b
    → AreTight limit (xs ++ a ∷ [])
    → AreTight limit (xs ++ b ∷ [])
AreTight-grow limit [] a b h t = tt
AreTight-grow limit (x ∷ []) a b h t = (omega (arith, t.0, h), tt)
AreTight-grow limit (x ∷ y ∷ xs) a b h t = (t.0, AreTight-grow limit (y ∷ xs) a b h t.1)

AreTight-next :
    (limit : ℕ) (xs : List (List ReviewWorkItem)) (a b : List ReviewWorkItem)
    → limit < batch_bytes a + batch_bytes b
    → AreTight limit (xs ++ a ∷ [])
    → AreTight limit ((xs ++ a ∷ []) ++ b ∷ [])
AreTight-next limit [] a b h t = (h, tt)
AreTight-next limit (x ∷ []) a b h t = (t.0, (h, tt))
AreTight-next limit (x ∷ y ∷ xs) a b h t = (t.0, AreTight-next limit (y ∷ xs) a b h t.1)

-- The state of the packing behind some items.
record IsPacked (limit : ℕ) (seen : List ReviewWorkItem) (s : Packing) : Type 0 where
  kept : concat s.all_batches ++ s.current ≡ seen
  counted : s.current_bytes ≡ batch_bytes s.current
  closed : All (IsBatch limit) s.all_batches
  open_batch : (s.current ≡ []) ⊎ IsBatch limit s.current
  started : s.current ≡ [] → s.all_batches ≡ []
  tight : AreTight limit (s.all_batches ++ s.current ∷ [])

is_empty-nil : (xs : List ReviewWorkItem) → is_empty xs ≡ true → xs ≡ []
is_empty-nil [] h = refl
is_empty-nil (x ∷ xs) h = cc

not_nil : (xs : List ReviewWorkItem) (x : ReviewWorkItem) → xs ++ x ∷ [] ≢ []
not_nil [] x h = cc
not_nil (y ∷ xs) x h = cc

module _ (limit : ℕ) (seen : List ReviewWorkItem) (item : ReviewWorkItem) where
  close-IsPacked :
      (s : Packing)
      → IsPacked limit seen s
      → IsBatch limit s.current
      → limit < s.current_bytes + item.payload_diff_bytes
      → IsPacked limit (seen ++ item ∷ []) (record {
        all_batches = s.all_batches ++ s.current ∷ [];
        current = item ∷ [];
        current_bytes = item.payload_diff_bytes;
      })
  close-IsPacked s p full over = record {
    kept =
        ap (λ xs. xs ++ item ∷ [])
          (concat-append s.all_batches (s.current ∷ [])
            ∙ ap (λ xs. concat s.all_batches ++ xs) (append-nil s.current)
            ∙ p.kept);
    counted = omega arith;
    closed = All-append (IsBatch limit) s.all_batches (s.current ∷ []) p.closed (full, tt);
    open_batch = inr ((λ h. cc), inr refl);
    started = λ h. cc;
    tight =
        AreTight-next limit s.all_batches s.current (item ∷ []) (omega (arith, over, p.counted))
          p.tight;
  }

  grow-IsPacked :
      (s : Packing)
      → IsPacked limit seen s
      → (s.current ≡ []) ⊎ (s.current_bytes + item.payload_diff_bytes ≤ limit)
      → IsPacked limit (seen ++ item ∷ []) (record s {
        current = s.current ++ item ∷ [];
        current_bytes = s.current_bytes + item.payload_diff_bytes;
      })
  grow-IsPacked s p room =
      let total =
        sum_by-append (λ (i : ReviewWorkItem). i.payload_diff_bytes) s.current (item ∷ []) in
      record {
        kept =
            sym (append_assoc (concat s.all_batches) s.current (item ∷ []))
            ∙ ap (λ xs. xs ++ item ∷ []) p.kept;
        counted = omega (arith, total, p.counted);
        closed = p.closed;
        open_batch = inr (
          not_nil s.current item,
          elim room [
            | inl e ↦ inr (ap (λ xs. length (xs ++ item ∷ [])) e)
            | inr h ↦ inl (omega (arith, total, p.counted, h))
          ],
        );
        started = λ h. absurd (not_nil s.current item h);
        tight =
            AreTight-grow limit s.all_batches s.current (s.current ++ item ∷ [])
              (omega (arith, total)) p.tight;
      }

  pack_item-IsPacked :
      (s : Packing)
      → IsPacked limit seen s
      → IsPacked limit (seen ++ item ∷ []) (pack_item limit s item)
  unfolding pack_item
  pack_item-IsPacked s p =
      elim (Bool-cases
        (not (is_empty s.current) && ltb limit (s.current_bytes + item.payload_diff_bytes))) [
          | inl y ↦
              rw (y, pack_item)
                (close-IsPacked s p
                  (elim p.open_batch [ inl e ↦ absurd (ground (arith, e, y)) | inr b ↦ b ])
                  (ground (arith, y)))
          | inr n ↦ rw (n, pack_item) (grow-IsPacked s p (ground (arith, n)))
        ]

pack_items-IsPacked :
    (limit : ℕ) (seen items : List ReviewWorkItem) (s : Packing)
    → IsPacked limit seen s
    → IsPacked limit (seen ++ items) (pack_items limit s items)
unfolding pack_items
pack_items-IsPacked limit seen [] s p = rw (append-nil seen) p
pack_items-IsPacked limit seen (item ∷ rest) s p =
    subst (λ xs. IsPacked limit xs (pack_items limit (pack_item limit s item) rest))
      (append_assoc seen (item ∷ []) rest)
      (pack_items-IsPacked limit (seen ++ item ∷ []) rest (pack_item limit s item)
        (pack_item-IsPacked limit seen item s p))

abbrev IsPacking : ℕ → List ReviewWorkItem → List (List ReviewWorkItem) → Type 0
IsPacking limit items bs = (concat bs ≡ items) × (All (IsBatch limit) bs × AreTight limit bs)

finish_packing-IsPacking :
    (limit : ℕ) (items : List ReviewWorkItem) (s : Packing)
    → IsPacked limit items s
    → IsPacking limit items (finish_packing s)
unfolding finish_packing
finish_packing-IsPacking limit items s p = elim (Bool-cases (is_empty s.current)) [
  | inl y ↦
      rw (y, finish_packing)
        (let none_open : s.current ≡ [] = is_empty-nil s.current y in
          let no_batch = p.started none_open in
          (
            sym (append-nil (concat s.all_batches))
                ∙ ap (λ xs. concat s.all_batches ++ xs) (sym none_open)
                ∙ p.kept,
            (p.closed, rw (no_batch) tt),
          ))
  | inr n ↦
      rw (n, finish_packing)
        (
          concat-append s.all_batches (s.current ∷ [])
              ∙ ap (λ xs. concat s.all_batches ++ xs) (append-nil s.current)
              ∙ p.kept,
          (
            All-append (IsBatch limit) s.all_batches (s.current ∷ []) p.closed
                (elim p.open_batch [ inl e ↦ absurd (ground (arith, e, n)) | inr b ↦ b ], tt),
            p.tight,
          ),
        )
]

-- Packing keeps all items in their order; each batch holds an item, and more than one only where they
-- fit the limit together; and no two batches in a row would have fitted one.
pub pack-IsPacking :
    (limit : ℕ) (items : List ReviewWorkItem)
    → (concat (pack limit items) ≡ items)
      × (All (IsBatch limit) (pack limit items) × AreTight limit (pack limit items))
unfolding pack
pack-IsPacking limit items =
    finish_packing-IsPacking limit items (pack_items limit empty_packing items) (
      pack_items-IsPacked limit [] items empty_packing (record {
        kept = refl;
        counted = refl;
        closed = tt;
        open_batch = inl refl;
        started = λ h. refl;
        tight = tt;
      }))

length-AreTight :
    (limit : ℕ) (b : List ReviewWorkItem) (bs : List (List ReviewWorkItem))
    → AreTight limit (b ∷ bs)
    → limit * length bs + batch_bytes b ≤ 2 * sum_by batch_bytes (b ∷ bs)
length-AreTight limit b [] t = omega (arith, mul_comm limit 0)
length-AreTight limit b (c ∷ rest) t = omega (
  arith,
  mul_comm limit (length rest),
  mul_comm limit (suc (length rest)),
  t.0,
  length-AreTight limit c rest t.1,
)

sum_by-concat : (bs : List (List ReviewWorkItem)) → sum_by batch_bytes bs ≡ batch_bytes (concat bs)
sum_by-concat [] = refl
sum_by-concat (b ∷ bs) = omega (
  arith,
  sum_by-concat bs,
  sum_by-append (λ (i : ReviewWorkItem). i.payload_diff_bytes) b (concat bs),
)

tight_bound :
    (limit : ℕ) (bs : List (List ReviewWorkItem))
    → AreTight limit bs
    → limit * length bs ≤ 2 * sum_by batch_bytes bs + limit
tight_bound limit [] t = omega (arith, mul_comm limit 0)
tight_bound limit (b ∷ bs) t = omega (
  arith,
  mul_comm limit (suc (length bs)),
  mul_comm limit (length bs),
  length-AreTight limit b bs t,
)

-- The batches required stay within twice the bytes of the items, over the limit of a batch, and one.
pub length-pack :
    (limit : ℕ) (items : List ReviewWorkItem)
    → limit * length (pack limit items) ≤ 2 * batch_bytes items + limit
length-pack limit items =
    let (whole, (fits, tight)) = pack-IsPacking limit items in
    omega (
      arith,
      tight_bound limit (pack limit items) tight,
      sum_by-concat (pack limit items),
      ap batch_bytes whole,
    )
