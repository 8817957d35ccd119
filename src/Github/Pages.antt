-- ===== src/Github/Pages.antt =====
-- The loops of internal/github/client.go over the pages of a REST list: each asks for a page, takes
-- it in, and goes on with `NextPage` until that is 0 or there is no response.
use mathlib.Core.Path.{subst}
use copilot_review_mcp.Common.{
  ℕ, zero, suc, ℤ, Time, List, ◌++◌, Option, none, some, arith, ◌≡◌, ◌⊎◌, ◌≤◌, ◌<◌, ◌+◌, inl, inr,
  refl, sym, ap, ◌∙◌, range_over, range_over-append,
}
use copilot_review_mcp.Errors.{GoError, Result, ok, err, Result-cases}

-- What the loops read of a *github.Response.
pub record Response : Type 0 where
  pub remaining : ℤ
  pub reset : Time
  pub next_page : ℕ

-- A page; its response may be nil.
pub record Page (A : Type 0) : Type 0 where
  pub items : List A
  pub response : Option Response

-- The page to ask for next, or 0 where the loop stops.
abbrev pub next_of : Option Response → ℕ
next_of none = 0
next_of (some r) = r.next_page

module _ {A : Type 0} (fetch : ℕ → Result (Page A)) where
  -- The number of the next page grows, up to a last page.
  abbrev pub IsNumbered : ℕ → Type 0
  IsNumbered last =
      (page : ℕ) (p : Page A)
      → fetch page ≡ ok p
      → (next_of p.response ≡ 0) ⊎ ((page < next_of p.response) × (next_of p.response ≤ last))

module _ {A S : Type 0} (fetch : ℕ → Result (Page A)) (step : Page A → S → S) where
  -- The loop with fuel, from a page number: what was taken in, and the error that ended it. `none`
  -- means that the fuel ran out.
  unfoldable pub paginate : ℕ → ℕ → S → Option (S × Option GoError)
  paginate zero page s = none
  paginate (suc fuel) page s = elim (fetch page) [
    | err e ↦ some (s, some e)
    | ok p ↦ elim (next_of p.response) [
      | zero ↦ some (step p s, none)
      | suc n ↦ paginate fuel (suc n) (step p s)
    ]
  ]

  pub paginate_total :
      (last fuel page : ℕ) (s : S)
      → IsNumbered fetch last
      → page ≤ last
      → last < fuel + page
      → (r : S × Option GoError) × (paginate fuel page s ≡ some r)
  unfolding paginate
  paginate_total last zero page s h a b = absurd (omega arith)
  paginate_total last (suc fuel) page s h a b = elim (Result-cases (fetch page)) [
    | inl (e, q) ↦ ((s, some e), ground arith)
    | inr (p, q) ↦
        elim (next_of p.response)
            as (λ n.
              next_of p.response ≡ n
              → (r : S × Option GoError) × (paginate (suc fuel) page s ≡ some r)) [
                | zero ↦ λ z. ((step p s, none), ground arith)
                | suc n ↦ λ z.
                    let k = h page p q in
                    let (r, x) =
                      paginate_total last fuel (suc n) (step p s) h (ground arith) (ground arith) in
                    (r, ground arith)
              ]
          refl
  ]

  -- What every page keeps, the loop keeps, whether or not an error ends it.
  pub paginate_inv :
      (P : S → Type 0)
      → ((p : Page A) (s : S) → P s → P (step p s))
      → (fuel page : ℕ) (s t : S) (e : Option GoError) → paginate fuel page s ≡ some (t, e)
      → P s
      → P t
  unfolding paginate
  paginate_inv P keep zero page s t e q h = cc
  paginate_inv P keep (suc fuel) page s t e q h = elim (Result-cases (fetch page)) [
    | inl (x, a) ↦ let same : s ≡ t = ground arith in subst P same h
    | inr (p, a) ↦
        elim (next_of p.response) as (λ n. next_of p.response ≡ n → P t) [
          | zero ↦ λ z. let same : step p s ≡ t = ground arith in subst P same (keep p s h)
          | suc n ↦ λ z. paginate_inv P keep fuel (suc n) (step p s) t e (ground arith) (keep p s h)
        ]
          refl
  ]

-- The items of the pages from a page on, in the order in which the loop asks for them.
pub data Gathers {A : Type 0} (fetch : ℕ → Result (Page A)) : ℕ → List A → Type 0 where
  last :
      (page : ℕ) (p : Page A)
      → fetch page ≡ ok p
      → next_of p.response ≡ 0
      → Gathers fetch page p.items
  more :
      (page : ℕ) (p : Page A) (n : ℕ) (ys : List A)
      → fetch page ≡ ok p
      → next_of p.response ≡ suc n
      → Gathers fetch (suc n) ys
      → Gathers fetch page (p.items ++ ys)

-- A loop that ends with no error has taken in the items of all pages, in order. `view` is the part of
-- the variables that the items change, and `take_in` how one does.
module _ {A S V : Type 0} (fetch : ℕ → Result (Page A)) (step : Page A → S → S) (view : S → V)
    (take_in : A → V → V)
    (steps : (p : Page A) (s : S) → view (step p s) ≡ range_over take_in p.items (view s)) where
  pub paginate-Gathers :
      (fuel page : ℕ) (s t : S)
      → paginate fetch step fuel page s ≡ some (t, none)
      → (xs : List A) × Gathers fetch page xs × (view t ≡ range_over take_in xs (view s))
  unfolding paginate
  paginate-Gathers zero page s t e = cc
  paginate-Gathers (suc fuel) page s t e = elim (Result-cases (fetch page)) [
    | inl (x, q) ↦ ground arith
    | inr (p, q) ↦
        elim (next_of p.response)
            as (λ n.
              next_of p.response ≡ n
              → (xs : List A) × Gathers fetch page xs × (view t ≡ range_over take_in xs (view s))) [
                | zero ↦ λ z.
                    let same : step p s ≡ t = ground arith in
                    (p.items, last page p q z, sym (ap view same) ∙ steps p s)
                | suc n ↦ λ z.
                    let (ys, g, v) = paginate-Gathers fuel (suc n) (step p s) t (ground arith) in
                    (
                      p.items ++ ys,
                      more page p n ys q z g,
                      v
                          ∙ ap (range_over take_in ys) (steps p s)
                          ∙ sym (range_over-append take_in p.items ys (view s)),
                    )
              ]
          refl
  ]
