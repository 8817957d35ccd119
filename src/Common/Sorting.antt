-- ===== src/Common/Sorting.antt =====
-- Insertion sort by a Boolean test, and the first part of a sorted list.
use Prim.Native.Nat.{ℕ, zero, suc, ◌≤◌}
use mathlib.Core.Bool.{Bool, true, false, not}
use mathlib.Core.Logic.{◌⊎◌, inl, inr}
use mathlib.Core.Path.{◌≡◌, refl, sym, subst}
use mathlib.Core.List.{List, [], ◌∷◌, ◌++◌, Perm}
use mathlib.Core.List.Perm
use native.Mathlib.Omega.{arith}
use copilot_review_mcp.Common.Tests.{if◌then◌else◌, Bool-cases}
use copilot_review_mcp.Common.Lists.{
  All, All-weaken, keep, length, take, drop, append-take, length-take-le,
}

-- A test that orders: `lt y x ≡ false` says that x may stand before y.
pub record IsOrder {ℓ} {A : Type ℓ} (lt : A → A → Bool) : Type ℓ where
  pub asym : (x y : A) → lt x y ≡ true → lt y x ≡ false
  pub trans : (x y z : A) → lt y x ≡ false → lt z y ≡ false → lt z x ≡ false

module _ {A : Type 0} (lt : A → A → Bool) where
  unfoldable pub insert_by : A → List A → List A
  insert_by x [] = x ∷ []
  insert_by x (y ∷ ys) = let rest = insert_by x ys in if lt y x then y ∷ rest else x ∷ y ∷ ys

  unfoldable pub sort_by : List A → List A
  unfolding insert_by
  sort_by [] = []
  sort_by (x ∷ xs) = insert_by x (sort_by xs)

  -- No element comes before one that it stands after.
  abbrev pub IsSorted : List A → Type 0
  IsSorted [] = Unit
  IsSorted (x ∷ xs) = All (λ y. lt y x ≡ false) xs × IsSorted xs

  insert_by-Perm : (x : A) (xs : List A) → Perm (x ∷ xs) (insert_by x xs)
  unfolding insert_by
  insert_by-Perm x [] = Perm.rfl
  insert_by-Perm x (y ∷ ys) = elim (Bool-cases (lt y x)) [
    | inr b ↦ rw b Perm.rfl
    | inl b ↦ rw b (Perm.trans (Perm.swap y x ys) (Perm.cons y (insert_by-Perm x ys)))
  ]

  pub sort_by-Perm : (xs : List A) → Perm xs (sort_by xs)
  unfolding sort_by
  sort_by-Perm [] = Perm.rfl
  sort_by-Perm (x ∷ xs) = Perm.trans (Perm.cons x (sort_by-Perm xs)) (insert_by-Perm x (sort_by xs))

  insert_by-All : (P : A → Type 0) (x : A) (xs : List A) → P x → All P xs → All P (insert_by x xs)
  unfolding insert_by
  insert_by-All P x [] p h = (p, tt)
  insert_by-All P x (y ∷ ys) p h = elim (Bool-cases (lt y x)) [
    | inl b ↦ rw b (h.0, insert_by-All P x ys p h.1)
    | inr b ↦ rw b (p, h)
  ]

  pub sort_by-All : (P : A → Type 0) (xs : List A) → All P xs → All P (sort_by xs)
  unfolding sort_by
  sort_by-All P [] h = tt
  sort_by-All P (x ∷ xs) h = insert_by-All P x (sort_by xs) h.0 (sort_by-All P xs h.1)

  All-insert_by : (P : A → Type 0) (x : A) (xs : List A) → All P (insert_by x xs) → P x × All P xs
  unfolding insert_by
  All-insert_by P x [] h = h
  All-insert_by P x (y ∷ ys) h = elim (Bool-cases (lt y x)) [
    | inr b ↦ let same : insert_by x (y ∷ ys) ≡ x ∷ y ∷ ys = ground arith in subst (All P) same h
    | inl b ↦
        let same : insert_by x (y ∷ ys) ≡ y ∷ insert_by x ys = ground arith in
        let k = subst (All P) same h in let (p, rest) = All-insert_by P x ys k.1 in (p, (k.0, rest))
  ]

  pub All-sort_by : (P : A → Type 0) (xs : List A) → All P (sort_by xs) → All P xs
  unfolding sort_by
  All-sort_by P [] h = tt
  All-sort_by P (x ∷ xs) h =
      let (p, rest) = All-insert_by P x (sort_by xs) h in (p, All-sort_by P xs rest)

  module _ (order : IsOrder lt) where
    insert_by-IsSorted : (x : A) (xs : List A) → IsSorted xs → IsSorted (insert_by x xs)
    unfolding insert_by
    insert_by-IsSorted x [] h = (tt, tt)
    insert_by-IsSorted x (y ∷ ys) h = elim (Bool-cases (lt y x)) [
      | inl b ↦ rw b (
        insert_by-All (λ z. lt z y ≡ false) x ys (order.asym y x b) h.0,
        insert_by-IsSorted x ys h.1,
      )
      | inr b ↦ rw b ((b, All-weaken ys (λ z k. order.trans x y z b k) h.0), h)
    ]

    pub sort_by-IsSorted : (xs : List A) → IsSorted (sort_by xs)
    unfolding sort_by
    sort_by-IsSorted [] = tt
    sort_by-IsSorted (x ∷ xs) = insert_by-IsSorted x (sort_by xs) (sort_by-IsSorted xs)

  -- The first n elements of all, in order: the others, which stand after them, only stay away where the
  -- n are full.
  abbrev pub IsPage : ℕ → List A → List A → Type 0
  IsPage n all xs =
      (rest : List A) × Perm all (xs ++ rest)
      × IsSorted (xs ++ rest)
      × (length xs ≤ n)
      × ((rest ≡ []) ⊎ (length xs ≡ n))

  drop-short : (n : ℕ) (xs : List A) → (drop n xs ≡ []) ⊎ (length (take n xs) ≡ n)
  drop-short zero xs = inr refl
  drop-short (suc n) [] = inl refl
  drop-short (suc n) (x ∷ xs) = elim (drop-short n xs) [
    | inl h ↦ inl h
    | inr h ↦ inr (omega (arith, h))
  ]

  pub take-IsPage : IsOrder lt → (n : ℕ) (all : List A) → IsPage n all (take n (sort_by all))
  take-IsPage order n all =
      let sorted = sort_by all in
      (
        drop n sorted,
        subst (Perm all) (sym (append-take n sorted)) (sort_by-Perm all),
        subst IsSorted (sym (append-take n sorted)) (sort_by-IsSorted order all),
        length-take-le n sorted,
        drop-short n sorted,
      )

module _ {A : Type 0} (R : A → A → Type 0) where
  -- No element precedes one that it stands after.
  abbrev pub IsRanked : List A → Type 0
  IsRanked [] = Unit
  IsRanked (x ∷ xs) = All (λ y. ¬ R y x) xs × IsRanked xs

  -- The first n elements of all, in the order of a relation: the others, none of which precedes one of
  -- them, only stay away where the n are full.
  abbrev pub IsLead : ℕ → List A → List A → Type 0
  IsLead n all xs =
      (rest : List A) × Perm all (xs ++ rest)
      × IsRanked (xs ++ rest)
      × (length xs ≤ n)
      × ((rest ≡ []) ⊎ (length xs ≡ n))

  -- A test that is false only where the relation does not hold.
  module _ (lt : A → A → Bool) (sound : (x y : A) → lt x y ≡ false → ¬ R x y) where
    pub IsSorted-IsRanked : (xs : List A) → IsSorted lt xs → IsRanked xs
    IsSorted-IsRanked [] h = tt
    IsSorted-IsRanked (x ∷ xs) h =
        (All-weaken xs (λ y k. sound y x k) h.0, IsSorted-IsRanked xs h.1)

    pub IsPage-IsLead : (n : ℕ) (all xs : List A) → IsPage lt n all xs → IsLead n all xs
    IsPage-IsLead n all xs (rest, p, s, short, full) =
        (rest, p, IsSorted-IsRanked (xs ++ rest) s, short, full)

move_in : {A : Type 0} (x : A) (xs ys : List A) → Perm (x ∷ xs ++ ys) (xs ++ x ∷ ys)
move_in x [] ys = Perm.rfl
move_in x (y ∷ xs) ys = Perm.trans (Perm.swap y x (xs ++ ys)) (Perm.cons y (move_in x xs ys))

-- What a test keeps and what it leaves out make up the list.
pub keep-Perm :
    {A : Type 0} (p : A → Bool) (xs : List A) → Perm xs (keep p xs ++ keep (λ x. not (p x)) xs)
keep-Perm p [] = Perm.rfl
keep-Perm p (x ∷ xs) = elim (Bool-cases (p x)) [
  | inl b ↦ rw b (Perm.cons x (keep-Perm p xs))
  | inr b ↦
      let left = keep p xs in
      let right = keep (λ y. not (p y)) xs in
      rw b (Perm.trans (Perm.cons x (keep-Perm p xs)) (move_in x left right))
]
