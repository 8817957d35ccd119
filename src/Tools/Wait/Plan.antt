-- ===== src/Tools/Wait/Plan.antt =====
-- The inputs of internal/tools/wait.go: their defaults and their bounds.
use mathlib.Core.Path.{subst}
use copilot_review_mcp.Common.{
  ◌↔◌, sym, ◌∙◌, ℕ, zero, suc, ℤ, pos, negsuc, second, Bool, true, false, String, arith, ◌≡◌, ◌≤◌,
  ◌<◌, ◌-◌, ◌*◌, ◌%◌, inl, inr, refl, ltb, Bool-cases, if◌then◌else◌,
}
use copilot_review_mcp.Errors.{GoError, Result, ok, err}

pub record WaitInput : Type 0 where
  pub owner : String
  pub repo : String
  pub pr : ℤ
  pub poll_interval_seconds : ℤ
  pub max_polls : ℤ

pub record WaitPlan : Type 0 where
  pub interval : ℕ
  pub max_polls : ℕ

-- The value, or the default where it is not positive.
abbrev pub or_default : ℤ → ℕ → ℕ
or_default (pos zero) k = k
or_default (pos (suc n)) k = suc n
or_default (negsuc n) k = k

-- The int64 with the bits of a number.
abbrev pub to_int64 : ℕ → ℤ
to_int64 n =
    let bits = n % 18446744073709551616 in
    if ltb bits 9223372036854775808 then pos bits else negsuc (18446744073709551615 - bits)

-- `a > k` for a constant k that is not negative.
abbrev pub exceeds : ℤ → ℕ → Bool
exceeds (pos n) k = ltb k n
exceeds (negsuc n) k = false

-- `totalWait`, in nanoseconds.
abbrev pub total_wait : ℕ → ℕ → ℤ
total_wait interval max_polls = to_int64 (interval * (max_polls - 1) * second)

-- The part of `waitHandler` from the defaults to the ceiling on the whole wait.
unfoldable pub wait_plan : (String → GoError) → WaitInput → Result WaitPlan
wait_plan error i =
    let interval = or_default i.poll_interval_seconds 120 in
    let polls = or_default i.max_polls 5 in
    if ltb 3600 interval
    then err (error "poll_interval_seconds must not exceed %d")
    else if ltb 100 polls
    then err (error "max_polls must not exceed %d")
    else if exceeds (total_wait interval polls) (1800 * second)
    then err (error "total wait time must not exceed %d seconds")
    else ok (record { interval = interval; max_polls = polls })

or_default-positive : (z : ℤ) (k : ℕ) → 0 < k → 0 < or_default z k
or_default-positive (pos zero) k h = h
or_default-positive (pos (suc n)) k h = omega arith
or_default-positive (negsuc n) k h = h

-- What the call may ask for: the defaults in place of what is not positive, up to an hour between
-- polls, up to 100 polls, and up to 30 minutes of waiting in all.
abbrev pub IsBounded : WaitInput → WaitPlan → Type 0
IsBounded i p =
    (p.interval ≡ or_default i.poll_interval_seconds 120)
    × (p.max_polls ≡ or_default i.max_polls 5)
    × (0 < p.interval)
    × (p.interval ≤ 3600)
    × (0 < p.max_polls)
    × (p.max_polls ≤ 100)
    × (p.interval * (p.max_polls - 1) ≤ 1800)

product_le : (a b m n : ℕ) → a ≤ m → b ≤ n → a * b ≤ m * n
product_le zero b m n h k = omega arith
product_le (suc a) b zero n h k = absurd (omega arith)
product_le (suc a) b (suc m) n h k = let rest = product_le a b m n (omega arith) k in omega arith

exceeds-exact : (n : ℕ) → n ≤ 356400 → exceeds (to_int64 (n * second)) (1800 * second) ≡ ltb 1800 n
exceeds-exact n h =
    let small : n * second % 18446744073709551616 ≡ n * second = omega arith in
    let below : ltb (n * second) 9223372036854775808 ≡ true = ground arith in
    elim (Bool-cases (ltb 1800 n)) [ inl b ↦ ground arith | inr b ↦ ground arith ]

total_wait-exact :
    (interval polls : ℕ)
    → interval ≤ 3600
    → polls ≤ 100
    → exceeds (total_wait interval polls) (1800 * second) ≡ ltb 1800 (interval * (polls - 1))
total_wait-exact interval polls h k =
    let bound = product_le interval (polls - 1) 3600 99 h (omega arith) in
    exceeds-exact (interval * (polls - 1)) (omega arith)

-- Three checks in a row.
abbrev checked : {A : Type 0} → Bool → Bool → Bool → GoError → GoError → GoError → A → Result A
checked a b c x y z q = if a then err x else if b then err y else if c then err z else ok q

checked_iff :
    {A : Type 0} (a b c : Bool) (x y z : GoError) (p q : A)
    → (checked a b c x y z q ≡ ok p) ↔ ((a ≡ false) × (b ≡ false) × (c ≡ false) × (q ≡ p))
checked_iff true b c x y z p q = ground arith
checked_iff false true c x y z p q = ground arith
checked_iff false false true x y z p q = ground arith
checked_iff false false false x y z p q = ground arith

WaitPlan-ext : (p q : WaitPlan) → p.interval ≡ q.interval → p.max_polls ≡ q.max_polls → p ≡ q
WaitPlan-ext p q h k = ground arith

-- A call of wait_for_copilot_review that passes the checks waits within its bounds, and every call
-- within them passes: an hour at most between polls, 100 polls at most, 30 minutes at most in all. The
-- product in nanoseconds is an int64 that could wrap around, but the checks before it keep it from that.
pub wait_plan-IsBounded :
    (error : String → GoError) (i : WaitInput)
    → ((p : WaitPlan) → wait_plan error i ≡ ok p → IsBounded i p)
      × ((p : WaitPlan) → IsBounded i p → wait_plan error i ≡ ok p)
unfolding wait_plan
wait_plan-IsBounded error i =
    let interval = or_default i.poll_interval_seconds 120 in
    let polls = or_default i.max_polls 5 in
    let one = or_default-positive i.poll_interval_seconds 120 (omega arith) in
    let two = or_default-positive i.max_polls 5 (omega arith) in
    let plan : WaitPlan = record { interval = interval; max_polls = polls } in
    let steps = λ (p : WaitPlan).
      checked_iff (ltb 3600 interval) (ltb 100 polls)
        (exceeds (total_wait interval polls) (1800 * second))
        (error "poll_interval_seconds must not exceed %d") (error "max_polls must not exceed %d")
        (error "total wait time must not exceed %d seconds") p plan in
    (
      (λ p h.
          let (a, b, c, q) = (steps p).0 h in
          let d = sym (total_wait-exact interval polls (ground arith) (ground arith)) ∙ c in
          subst (IsBounded i) q (refl, refl, one, ground arith, two, ground arith, ground arith)),
      (λ p h.
          let q = WaitPlan-ext plan p (sym h.0) (sym h.1) in
          let (_, _, x, u, y, v, z) = subst (IsBounded i) (sym q) h in
          let d : ltb 1800 (interval * (polls - 1)) ≡ false = ground arith in
          (steps p).1 (ground arith, ground arith, total_wait-exact interval polls u v ∙ d, q)),
    )
