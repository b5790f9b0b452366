-- ===== src/Base/Assoc.antt =====
-- `HashMap` as an association list. A new key goes to the end.
use mathlib.Core.Path.{◌≡◌, refl}
use mathlib.Core.List.{List, [], ◌∷◌, ◌++◌}
use mathlib.Core.Option.{Option, none, some}
use native.Mathlib.Omega.{arith}
use git_lab_work_runner.Base.Tests.{if◌then◌else◌, Equality}

abbrev pub Map {ℓ κ} : Type ℓ → Type κ → Type (ℓ ⊔ κ)
Map K V = List (K × V)

module _ {ℓ κ} {K : Type ℓ} {V : Type κ} ⦃e : Equality K⦄ where
  abbrev pub get : K → Map K V → Option V
  get k [] = none
  get k ((j, v) ∷ m) = if e.same j k then some v else get k m

  abbrev pub insert : K → V → Map K V → Map K V
  insert k v [] = (k, v) ∷ []
  insert k v ((j, w) ∷ m) = if e.same j k then (k, v) ∷ m else (j, w) ∷ insert k v m

  -- Every entry under the key goes, so that `get` finds none.
  abbrev pub remove : K → Map K V → Map K V
  remove k [] = []
  remove k ((j, w) ∷ m) = if e.same j k then remove k m else (j, w) ∷ remove k m

  pub get-insert :
      (k j : K) (v : V) (m : Map K V)
      → get j (insert k v m) ≡ (if e.same k j then some v else get j m)
  get-insert k j v [] = refl
  get-insert k j v ((i, w) ∷ m) =
      ground (arith, e.same_iff k j, e.same_iff i k, e.same_iff i j, get-insert k j v m)

  pub get-remove :
      (k j : K) (m : Map K V) → get j (remove k m) ≡ (if e.same k j then none else get j m)
  get-remove k j [] = ground arith
  get-remove k j ((i, w) ∷ m) =
      ground (arith, e.same_iff k j, e.same_iff i k, e.same_iff i j, get-remove k j m)

  pub insert-absent :
      (k : K) (v : V) (m : Map K V) → get k m ≡ none → insert k v m ≡ m ++ (k, v) ∷ []
  insert-absent k v [] h = refl
  insert-absent k v ((i, w) ∷ m) h = ground (arith, insert-absent k v m)

  pub remove-absent : (k : K) (m : Map K V) → get k m ≡ none → remove k m ≡ m
  remove-absent k [] h = refl
  remove-absent k ((i, w) ∷ m) h = ground (arith, remove-absent k m)

  pub get-append :
      (k : K) (m n : Map K V) → get k (m ++ n) ≡ elim (get k m) [ some v ↦ some v | none ↦ get k n ]
  get-append k [] n = refl
  get-append k ((i, w) ∷ m) n = ground (arith, get-append k m n)

  pub remove-append : (k : K) (m n : Map K V) → remove k (m ++ n) ≡ remove k m ++ remove k n
  remove-append k [] n = refl
  remove-append k ((i, w) ∷ m) n = ground (arith, remove-append k m n)

-- A map whose entries lie in the order of their insertion, each key once.
module _ {ℓ κ} {K : Type ℓ} {V : Type κ} ⦃e : Equality K⦄ where
  abbrev pub DistinctKeys : Map K V → Type κ
  DistinctKeys [] = Unit
  DistinctKeys ((k, v) ∷ m) = (get k m ≡ none) × DistinctKeys m

  get-append-left : (k : K) (m n : Map K V) → get k (m ++ n) ≡ none → get k m ≡ none
  get-append-left k [] n h = refl
  get-append-left k ((i, w) ∷ m) n h = ground (arith, get-append-left k m n)

  get-append-right : (k : K) (m n : Map K V) → get k (m ++ n) ≡ none → get k n ≡ none
  get-append-right k [] n h = h
  get-append-right k ((i, w) ∷ m) n h = ground (arith, get-append-right k m n)

  get-append-none :
      (k : K) (m n : Map K V) → get k m ≡ none → get k n ≡ none → get k (m ++ n) ≡ none
  get-append-none k [] n h h' = h'
  get-append-none k ((i, w) ∷ m) n h h' = ground (arith, get-append-none k m n)

  pub DistinctKeys-concat :
      (k : K) (v : V) (m : Map K V)
      → get k m ≡ none
      → DistinctKeys m
      → DistinctKeys (m ++ (k, v) ∷ [])
  DistinctKeys-concat k v [] h d = (refl, tt)
  DistinctKeys-concat k v ((i, w) ∷ m) h d = (
    get-append-none i m ((k, v) ∷ []) d.0 (ground (arith, e.same_iff k i, e.same_iff i k)),
    DistinctKeys-concat k v m (ground arith) d.1,
  )

  pub DistinctKeys-drop :
      (m : Map K V) (k : K) (v : V) (n : Map K V)
      → DistinctKeys (m ++ (k, v) ∷ n)
      → DistinctKeys (m ++ n)
  DistinctKeys-drop [] k v n d = d.1
  DistinctKeys-drop ((i, w) ∷ m) k v n d = (
    get-append-none i m n (get-append-left i m _ d.0)
        (ground (arith, get-append-right i m ((k, v) ∷ n) d.0)),
    DistinctKeys-drop m k v n d.1,
  )

  pub get-middle :
      (m : Map K V) (k : K) (v : V) (n : Map K V)
      → DistinctKeys (m ++ (k, v) ∷ n)
      → get k (m ++ (k, v) ∷ n) ≡ some v
  get-middle [] k v n d = ground (arith, e.same_iff k k)
  get-middle ((i, w) ∷ m) k v n d = ground (
    arith,
    get-middle m k v n d.1,
    get-append-right i m ((k, v) ∷ n) d.0,
    e.same_iff k i,
    e.same_iff i k,
  )

  pub remove-middle :
      (m : Map K V) (k : K) (v : V) (n : Map K V)
      → DistinctKeys (m ++ (k, v) ∷ n)
      → remove k (m ++ (k, v) ∷ n) ≡ m ++ n
  remove-middle [] k v n d = ground (arith, e.same_iff k k, remove-absent k n d.0)
  remove-middle ((i, w) ∷ m) k v n d = ground (
    arith,
    remove-middle m k v n d.1,
    get-append-right i m ((k, v) ∷ n) d.0,
    e.same_iff k i,
    e.same_iff i k,
  )

  pub get-without :
      (m : Map K V) (k : K) (v : V) (n : Map K V)
      → DistinctKeys (m ++ (k, v) ∷ n)
      → get k (m ++ n) ≡ none
  get-without [] k v n d = d.0
  get-without ((i, w) ∷ m) k v n d = ground (
    arith,
    get-without m k v n d.1,
    get-append-right i m ((k, v) ∷ n) d.0,
    e.same_iff k i,
    e.same_iff i k,
  )
