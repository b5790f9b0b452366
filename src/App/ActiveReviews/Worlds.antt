-- ===== src/App/ActiveReviews/Worlds.antt =====
-- The registry together with the guards that are alive, under any interleaving of requests and drops.
use mathlib.Core.List.{map-append}
use git_lab_work_runner.Base.{
  ℕ, ◌+◌, ◌≡◌, ◌<◌, ◌≤◌, refl, sym, ap, ◌∙◌, true, none, List, [], ◌∷◌, ◌++◌, arith, map, max, Str,
  str_eq_iff, get, insert-absent, DistinctKeys, DistinctKeys-concat, DistinctKeys-drop, get-middle,
  remove-middle, get-without, length, length-append, length-map, ok, err,
}
use git_lab_work_runner.App.ActiveReviews.{
  key_equality, ActiveReviewKey, ActiveReviewGuard, ActiveReviewStart, ActiveReviewStartError,
  ActiveReviews, try_start, finish, drop_guard,
}

abbrev pub entry : ActiveReviewGuard → ActiveReviewKey × Str
entry g = (g.key, g.review_run_id)

pub record World : Type 0 where
  pub running : ActiveReviews
  pub live : List ActiveReviewGuard

abbrev pub empty_world : World
empty_world = record { running = []; live = [] }

-- A request is admitted or refused, under a limit of at most `bound`; or some guard is dropped.
pub data Step (bound : ℕ) (w : World) (w' : World) : Type 0 where
  starts :
      (key : ActiveReviewKey) (run : Str) (limit : ℕ) (running' : ActiveReviews)
      (s : ActiveReviewStart)
      → limit ≤ bound
      → try_start w.running key run limit ≡ (running', ok s)
      → w' ≡ record { running = running'; live = w.live ++ s.guard ∷ [] }
      → Step bound w w'
  rejects :
      (key : ActiveReviewKey) (run : Str) (limit : ℕ) (running' : ActiveReviews)
      (e : ActiveReviewStartError)
      → try_start w.running key run limit ≡ (running', err e)
      → w' ≡ record { running = running'; live = w.live }
      → Step bound w w'
  drops :
      (xs : List ActiveReviewGuard) (g : ActiveReviewGuard) (ys : List ActiveReviewGuard)
      → w.live ≡ xs ++ g ∷ ys
      → w' ≡ record { running = (drop_guard w.running g).0; live = xs ++ ys }
      → Step bound w w'

pub data Reach (bound : ℕ) : World → Type 0 where
  at_start : Reach bound empty_world
  then_step : {w w' : World} → Reach bound w → Step bound w w' → Reach bound w'

-- One entry for each live guard, no two guards for one key, and never more than the limit.
pub record IsSound (bound : ℕ) (w : World) : Type 0 where
  pub entries : w.running ≡ map entry w.live
  pub distinct : DistinctKeys (map entry w.live)
  pub bounded : length w.live ≤ max bound 1

-- What `try_start` does when it admits a request.
pub try_start-ok :
    (m m' : ActiveReviews) (key : ActiveReviewKey) (run : Str) (limit : ℕ) (s : ActiveReviewStart)
    → try_start m key run limit ≡ (m', ok s)
    → (get key m ≡ none)
      × (length m < max limit 1)
      × (m' ≡ m ++ (key, run) ∷ [])
      × (entry s.guard ≡ (key, run))
unfolding try_start
try_start-ok m m' key run limit s h = ground (arith, insert-absent key run m)

pub try_start-err :
    (m m' : ActiveReviews) (key : ActiveReviewKey) (run : Str) (limit : ℕ)
    (e : ActiveReviewStartError)
    → try_start m key run limit ≡ (m', err e)
    → m' ≡ m
unfolding try_start
try_start-err m m' key run limit e h = ground arith

-- A free key under a limit with room is admitted, at the end of the map, and counted.
pub try_start-admits :
    (m : ActiveReviews) (key : ActiveReviewKey) (run : Str) (limit : ℕ)
    → get key m ≡ none
    → length m < max limit 1
    → try_start m key run limit ≡ (
      m ++ (key, run) ∷ [],
      ok (record {
        guard = record { key = key; review_run_id = run };
        active_count = length m + 1;
      }),
    )
unfolding try_start
try_start-admits m key run limit absent room =
    rw (absent, try_start)
      (ground (arith, insert-absent key run m absent, length-append m ((key, run) ∷ [])))

starts-IsSound :
    (bound : ℕ) (w : World) (key : ActiveReviewKey) (run : Str) (limit : ℕ) (m' : ActiveReviews)
    (s : ActiveReviewStart)
    → limit ≤ bound
    → try_start w.running key run limit ≡ (m', ok s)
    → IsSound bound w
    → IsSound bound (record { running = m'; live = w.live ++ s.guard ∷ [] })
starts-IsSound bound w key run limit m' s low started sound =
    let (absent, room, grown, guarded) = try_start-ok w.running m' key run limit s started in
    let grown_live : map entry (w.live ++ s.guard ∷ []) ≡ map entry w.live ++ (key, run) ∷ [] =
      map-append entry w.live (s.guard ∷ []) ∙ ap (λ p. map entry w.live ++ p ∷ []) guarded in
    record {
      entries = grown ∙ ap (λ r. r ++ (key, run) ∷ []) sound.entries ∙ sym grown_live;
      distinct = rw grown_live (
          DistinctKeys-concat key run (map entry w.live) (rw sound.entries at absent)
            sound.distinct);
      bounded = omega (
        arith,
        length-append w.live (s.guard ∷ []),
        length-map entry w.live,
        ap length sound.entries,
        room,
        low,
      );
    }

finish-middle :
    (m : ActiveReviews) (k : ActiveReviewKey) (run : Str) (n : ActiveReviews)
    → DistinctKeys (m ++ (k, run) ∷ n)
    → finish (m ++ (k, run) ∷ n) k run ≡ (m ++ n, true)
unfolding finish
finish-middle m k run n d =
    rw (get-middle m k run n d, finish)
      (rw ((str_eq_iff run run).1 refl) (rw (remove-middle m k run n d)))

module _ (bound : ℕ) (w : World) (xs : List ActiveReviewGuard) (g : ActiveReviewGuard)
    (ys : List ActiveReviewGuard) (split : w.live ≡ xs ++ g ∷ ys) (sound : IsSound bound w) where
  split_entries : w.running ≡ map entry xs ++ entry g ∷ map entry ys
  split_entries = sound.entries ∙ ap (map entry) split ∙ map-append entry xs (g ∷ ys)

  split_distinct : DistinctKeys (map entry xs ++ entry g ∷ map entry ys)
  split_distinct = rw (split, map-append entry xs (g ∷ ys)) at sound.distinct

  drop_guard-live : drop_guard w.running g ≡ (map entry xs ++ map entry ys, true)
  unfolding drop_guard
  drop_guard-live =
      rw split_entries
        (finish-middle (map entry xs) g.key g.review_run_id (map entry ys) split_distinct)

  drops-IsSound : IsSound bound (record { running = (drop_guard w.running g).0; live = xs ++ ys })
  drops-IsSound = record {
    entries = ap (λ p. p.0) drop_guard-live ∙ sym (map-append entry xs ys);
    distinct =
        rw (map-append entry xs ys)
          (DistinctKeys-drop (map entry xs) g.key g.review_run_id (map entry ys) split_distinct);
    bounded =
        omega
          (arith, sound.bounded, ap length split, length-append xs (g ∷ ys), length-append xs ys);
  }

Step-IsSound : {bound : ℕ} {w w' : World} → Step bound w w' → IsSound bound w → IsSound bound w'
Step-IsSound {bound} {w} {w'} (starts key run limit m' s low started e) sound =
    rw e (starts-IsSound bound w key run limit m' s low started sound)
Step-IsSound {bound} {w} {w'} (rejects key run limit m' er refused e) sound =
    rw (e, try_start-err w.running m' key run limit er refused) sound
Step-IsSound {bound} {w} {w'} (drops xs g ys split e) sound =
    rw e (drops-IsSound bound w xs g ys split sound)

-- In every reachable world the registry holds exactly one entry for each live guard, in the order
-- of admission, no two live guards share a key, and there are at most `max bound 1` of them.
pub Reach-IsSound : {bound : ℕ} {w : World} → Reach bound w → IsSound bound w
Reach-IsSound at_start = record { entries = refl; distinct = tt; bounded = omega arith }
Reach-IsSound (then_step r s) = Step-IsSound s (Reach-IsSound r)

-- In a reachable world, the drop of a live guard removes its entry (the logged flag is true), keeps
-- the entries of the other guards, and leaves no entry under its key; under a limit that admits
-- the reviews counted before the drop, the same key can then be started again at once.
pub drop_guard-try_start :
    {bound : ℕ} (w : World) (xs : List ActiveReviewGuard) (g : ActiveReviewGuard)
    (ys : List ActiveReviewGuard) (run : Str) (limit : ℕ)
    → Reach bound w
    → w.live ≡ xs ++ g ∷ ys
    → length w.live ≤ max limit 1
    → let after = (drop_guard w.running g).0 in
      ((drop_guard w.running g).1 ≡ true)
      × (after ≡ map entry (xs ++ ys))
      × (get g.key after ≡ none)
      × ((s : ActiveReviewStart) × (try_start after g.key run limit
            ≡ (after ++ (g.key, run) ∷ [], ok s)))
drop_guard-try_start {bound} w xs g ys run limit r split room =
    let sound = Reach-IsSound r in
    let dropped = drop_guard-live bound w xs g ys split sound in
    let after = ap (λ p. p.0) dropped ∙ sym (map-append entry xs ys) in
    let free : get g.key (drop_guard w.running g).0 ≡ none = rw dropped (
      get-without (map entry xs) g.key g.review_run_id (map entry ys)
        (split_distinct bound w xs g ys split sound)) in
    (
      ap (λ p. p.1) dropped,
      after,
      free,
      (
        _,
        try_start-admits (drop_guard w.running g).0 g.key run limit free (
            omega (
              arith,
              ap length after,
              length-map entry (xs ++ ys),
              length-append xs ys,
              length-append xs (g ∷ ys),
              ap length split,
              room,
            )),
      ),
    )
